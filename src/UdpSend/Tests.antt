-- ===== src/UdpSend/Tests.antt =====
-- Runs of udp_send/version1/simple.c.
use lkm.Prelude.{ℕ, ◌≡◌, refl, true, false, arith, none, some, [], ◌∷◌}
use lkm.UdpSend.{Env, Params, InitEnds, my_init-InitEnds}
use lkm.UdpSend.Sender.{
  State, crashed, stopping, go_on, sent, sent_short, reset_task, kfree, assign_task, exit_with,
  kthread_stop, kthread_stop_late, Reachable, at_start, after, CleanAt, Reachable-CleanAt,
}

-- A connect that is refused for the address of the module's parameters.
abbrev refused : Env
refused = record {
  sock_create_kern = none;
  dev_get_by_name = true;
  inet_select_addr = 10 ∷ 0 ∷ 0 ∷ 1 ∷ [];
  bind = λ a. none;
  connect = λ a. some 111;
  kmalloc = false;
  kthread_run = false;
}

abbrev ps : Params
ps = record { dstip = 0xc0a80056; dstport = 8000 }

my_init-InitEnds_example : InitEnds refused ps []
my_init-InitEnds_example = my_init-InitEnds refused ps []

abbrev Twenty : ℕ → Type 0
Twenty len = len ≡ 20

-- The thread has sent the buffer when the module's exit function waits for it.
abbrev waited : (s : State) × Reachable 20 Twenty s × (s.phase ≡ stopping)
waited = (
  _,
  after
      (after (after (after (after at_start (go_on refl refl)) (assign_task refl)) (sent refl refl))
        (exit_with refl refl))
      (kthread_stop refl (λ e. cc e)),
  refl,
)

clean_run : CleanAt stopping waited.0
clean_run = Reachable-CleanAt waited.0 (λ len e. e) waited.1

-- When the first send fails before `kthreadtask` is assigned, the exit function stops a thread that
-- has ended.
stale_task : (s : State) × Reachable 20 (λ len. Unit {0}) s × (s.phase ≡ crashed)
stale_task = (
  _,
  after
      (after
        (after
          (after
            (after
              (after (after at_start (go_on refl refl)) (sent_short 0 refl tt (λ e. ground arith)))
              (reset_task refl))
            (kfree refl))
          (assign_task refl))
        (exit_with refl refl))
      (kthread_stop_late refl refl),
  refl,
)

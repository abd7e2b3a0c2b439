-- ===== src/UdpSend/Sender.antt =====
-- udp_send/version1/simple.c: the thread that sends, beside the init and the exit function.
use lkm.Prelude.{ℕ, ◌≡◌, ◌≢◌, refl, sym, subst, Bool, true, false}

-- Where `send_udp` is: at `kthread_should_stop`, in `kernel_sendmsg`, asleep, behind the loop, with
-- `kthreadtask` reset, and through.
pub data Sender : Type 0 where
  checking sending sleeping leaving closing ended : Sender

-- Where the module is: the thread runs but `kthreadtask` is not yet assigned; loaded; in `my_exit`
-- with `kthreadtask` tested; in `kthread_stop`, which waits for the thread; and gone. `kthread_stop`
-- on a thread that has ended uses a task that is freed.
pub data Module : Type 0 where
  assigning loaded exiting stopping unloaded crashed : Module

-- `kthreadtask` tells whether it is not NULL, `tinfo` whether the thread's argument is allocated, and
-- `should_stop` what `kthread_should_stop` answers.
pub record State : Type 0 where
  pub sender : Sender
  pub phase : Module
  pub kthreadtask : Bool
  pub should_stop : Bool
  pub tinfo : Bool

-- A step of the thread or of the module, when the buffer has `n` bytes and `kernel_sendmsg` may
-- return what `W` holds of.
pub data Step (n : ℕ) (W : ℕ → Type 0) (s : State) : State → Type 0 where
  go_on : s.sender ≡ checking → s.should_stop ≡ false → Step n W s (record s { sender = sending })
  stop : s.sender ≡ checking → s.should_stop ≡ true → Step n W s (record s { sender = leaving })
  sent : s.sender ≡ sending → W n → Step n W s (record s { sender = sleeping })
  sent_short :
      (len : ℕ) → s.sender ≡ sending → W len → len ≢ n → Step n W s (record s { sender = leaving })
  wake_up : s.sender ≡ sleeping → Step n W s (record s { sender = checking })
  reset_task : s.sender ≡ leaving → Step n W s (record s { sender = closing; kthreadtask = false })
  kfree : s.sender ≡ closing → Step n W s (record s { sender = ended; tinfo = false })
  assign_task : s.phase ≡ assigning → Step n W s (record s { phase = loaded; kthreadtask = true })
  exit_without :
      s.phase ≡ loaded → s.kthreadtask ≡ false → Step n W s (record s { phase = unloaded })
  exit_with : s.phase ≡ loaded → s.kthreadtask ≡ true → Step n W s (record s { phase = exiting })
  kthread_stop :
      s.phase ≡ exiting
      → s.sender ≢ ended
      → Step n W s (record s { phase = stopping; should_stop = true })
  kthread_stop_late :
      s.phase ≡ exiting → s.sender ≡ ended → Step n W s (record s { phase = crashed })
  stopped : s.phase ≡ stopping → s.sender ≡ ended → Step n W s (record s { phase = unloaded })

-- What `kthread_run` leaves.
abbrev pub start : State
start = record {
  sender = checking;
  phase = assigning;
  kthreadtask = false;
  should_stop = false;
  tinfo = true;
}

pub data Reachable (n : ℕ) (W : ℕ → Type 0) : State → Type 0 where
  at_start : Reachable n W start
  after : {s t : State} → Reachable n W s → Step n W s t → Reachable n W t

-- In the loop.
unfoldable pub Looping : Sender → Type 0
Looping checking = Unit {0}
Looping sending = Unit {0}
Looping sleeping = Unit {0}
Looping leaving = ⊥
Looping closing = ⊥
Looping ended = ⊥

-- The argument is allocated just until the thread ends.
unfoldable pub Owns : Sender → Bool → Type 0
Owns checking b = b ≡ true
Owns sending b = b ≡ true
Owns sleeping b = b ≡ true
Owns leaving b = b ≡ true
Owns closing b = b ≡ true
Owns ended b = b ≡ false

unfoldable pub Inv : Module → Sender → Bool → Bool → Type 0
Inv assigning t k b = Looping t × (b ≡ false)
Inv loaded t k b = Looping t × (b ≡ false) × (k ≡ true)
Inv exiting t k b = Looping t × (b ≡ false)
Inv stopping t k b = b ≡ true
Inv unloaded t k b = t ≡ ended
Inv crashed t k b = ⊥

-- The thread leaves the loop only when it is to stop, and then the module waits for it, or is gone.
leaves :
    (m : Module) (t t' : Sender) (k b : Bool) → Looping t → b ≡ true → Inv m t k b → Inv m t' k b
unfolding Inv
leaves assigning t t' k b l e (p, q) = cc (e, q)
leaves loaded t t' k b l e (p, q, r) = cc (e, q)
leaves exiting t t' k b l e (p, q) = cc (e, q)
leaves stopping t t' k b l e i = i
leaves unloaded t t' k b l e i = absurd (unfold Looping in subst Looping i l)
leaves crashed t t' k b l e i = i

loops :
    (m : Module) (t t' : Sender) (k b : Bool) → Looping t → Looping t' → Inv m t k b → Inv m t' k b
unfolding Inv
loops assigning t t' k b l l' (p, q) = (l', q)
loops loaded t t' k b l l' (p, q, r) = (l', q, r)
loops exiting t t' k b l l' (p, q) = (l', q)
loops stopping t t' k b l l' i = i
loops unloaded t t' k b l l' i = absurd (unfold Looping in subst Looping i l)
loops crashed t t' k b l l' i = i

closes :
    (m : Module) (t t' : Sender) (k k' b : Bool)
    → ¬ Looping t
    → t ≢ ended
    → Inv m t k b
    → Inv m t' k' b
unfolding Inv
closes assigning t t' k k' b n e (p, q) = absurd (n p)
closes loaded t t' k k' b n e (p, q, r) = absurd (n p)
closes exiting t t' k k' b n e (p, q) = absurd (n p)
closes stopping t t' k k' b n e i = i
closes unloaded t t' k k' b n e i = absurd (e i)
closes crashed t t' k k' b n e i = i

at_sender : {t : Sender} (s : State) → s.sender ≡ t → Looping t → Looping s.sender
at_sender s e l = subst Looping (sym e) l

Owns-at : {t : Sender} (s : State) → s.sender ≡ t → Owns s.sender s.tinfo → Owns t s.tinfo
Owns-at s e o = subst (λ t. Owns t s.tinfo) e o

abbrev Kept : State → Type 0
Kept s = Inv s.phase s.sender s.kthreadtask s.should_stop × Owns s.sender s.tinfo

not-Looping : (s : State) (t : Sender) → s.sender ≡ t → ¬ Looping t → ¬ Looping s.sender
not-Looping s t e n l = n (subst Looping e l)

Inv-at :
    {m : Module} (s : State)
    → s.phase ≡ m
    → Inv s.phase s.sender s.kthreadtask s.should_stop
    → Inv m s.sender s.kthreadtask s.should_stop
Inv-at s e i = subst (λ m. Inv m s.sender s.kthreadtask s.should_stop) e i

Step-Kept :
    {n : ℕ} {W : ℕ → Type 0} (s t : State)
    → ((len : ℕ) → W len → len ≡ n)
    → Step n W s t
    → Kept s
    → Kept t
unfolding Owns Looping Inv
Step-Kept s _ whole (go_on e k) (i, o) =
    (loops s.phase s.sender sending _ _ (at_sender s e tt) tt i, Owns-at s e o)
Step-Kept s _ whole (stop e k) (i, o) =
    (leaves s.phase s.sender leaving _ _ (at_sender s e tt) k i, Owns-at s e o)
Step-Kept s _ whole (sent e w) (i, o) =
    (loops s.phase s.sender sleeping _ _ (at_sender s e tt) tt i, Owns-at s e o)
Step-Kept s _ whole (sent_short len e w d) (i, o) = absurd (d (whole len w))
Step-Kept s _ whole (wake_up e) (i, o) =
    (loops s.phase s.sender checking _ _ (at_sender s e tt) tt i, Owns-at s e o)
Step-Kept s _ whole (reset_task e) (i, o) = (
  closes s.phase s.sender closing _ _ _ (not-Looping s leaving e (λ l. l)) (λ q. cc (e, q)) i,
  Owns-at s e o,
)
Step-Kept s _ whole (kfree e) (i, o) = (
  closes s.phase s.sender ended _ _ _ (not-Looping s closing e (λ l. l)) (λ q. cc (e, q)) i,
  refl,
)
Step-Kept s _ whole (assign_task e) (i, o) = let (l, b) = Inv-at s e i in ((l, b, refl), o)
Step-Kept s _ whole (exit_without e k) (i, o) = let (l, b, r) = Inv-at s e i in absurd (cc (k, r))
Step-Kept s _ whole (exit_with e k) (i, o) = let (l, b, r) = Inv-at s e i in ((l, b), o)
Step-Kept s _ whole (kthread_stop e d) (i, o) = (refl, o)
Step-Kept s _ whole (kthread_stop_late e d) (i, o) =
    let (l, b) = Inv-at s e i in absurd (subst Looping d l)
Step-Kept s _ whole (stopped e d) (i, o) = (d, o)

Reachable-Kept :
    {n : ℕ} {W : ℕ → Type 0} (s : State) → ((len : ℕ) → W len → len ≡ n) → Reachable n W s → Kept s
unfolding Inv Owns Looping
Reachable-Kept _ whole at_start = ((tt, refl), refl)
Reachable-Kept t whole (after {s} r step) = Step-Kept s t whole step (Reachable-Kept s whole r)

-- What is to hold in each phase of the module.
unfoldable pub CleanAt : Module → State → Type 0
CleanAt assigning s = s.tinfo ≡ true
CleanAt loaded s = (s.tinfo ≡ true) × (s.kthreadtask ≡ true)
CleanAt exiting s = s.tinfo ≡ true
CleanAt stopping s = s.should_stop ≡ true
CleanAt unloaded s = (s.sender ≡ ended) × (s.tinfo ≡ false)
CleanAt crashed s = ⊥

Owns-Looping : (t : Sender) (b : Bool) → Looping t → Owns t b → b ≡ true
unfolding Looping Owns
Owns-Looping checking b l o = o
Owns-Looping sending b l o = o
Owns-Looping sleeping b l o = o
Owns-Looping leaving b l o = absurd l
Owns-Looping closing b l o = absurd l
Owns-Looping ended b l o = absurd l

-- When every send sends the whole buffer, then in every order of the steps of the thread and of the
-- module: the thread's argument is allocated while the module is loaded, `my_exit` finds the thread
-- and stops it while it runs, and when the module is gone the thread has ended and its argument is
-- freed.
pub Reachable-CleanAt :
    {n : ℕ} {W : ℕ → Type 0} (s : State)
    → ((len : ℕ) → W len → len ≡ n)
    → Reachable n W s
    → CleanAt s.phase s
unfolding CleanAt Inv
Reachable-CleanAt s whole r = go s.phase (Reachable-Kept s whole r).0
  where
    owned : Owns s.sender s.tinfo
    owned = (Reachable-Kept s whole r).1

    go : (m : Module) → Inv m s.sender s.kthreadtask s.should_stop → CleanAt m s
    go assigning (l, b) = Owns-Looping s.sender s.tinfo l owned
    go loaded (l, b, k) = (Owns-Looping s.sender s.tinfo l owned, k)
    go exiting (l, b) = Owns-Looping s.sender s.tinfo l owned
    go stopping b = b
    go unloaded e = (e, unfold Owns in subst (λ t. Owns t s.tinfo) e owned)
    go crashed i = absurd i

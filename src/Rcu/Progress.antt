-- ===== src/Rcu/Progress.antt =====
-- RCU/simple.c: the threads' loops end, and so do the callbacks.
use lkm.Prelude.{ℕ, suc, ◌+◌, ◌*◌, ◌<◌, ◌≤◌, ◌≡◌, refl, ap, Bool, List, [], ◌∷◌, length, arith}
use lkm.Rcu.{
  Reader, outside, inside, printed, holding, Updater, idle, prepared, assigned, State, Ripe, here,
  there, release, Step, rcu_read_lock, rcu_dereference, pr_info, rcu_read_unlock, prepare,
  rcu_assign_pointer, call_rcu, rcu_reclaimer, start,
}

abbrev reader_left : Reader → ℕ
reader_left outside = 0
reader_left inside = 3
reader_left (holding p) = 2
reader_left printed = 1

abbrev updater_left : Updater → ℕ
updater_left idle = 0
updater_left (prepared old new) = 3
updater_left (assigned old) = 2

-- A bound of the steps that are left.
abbrev pub steps_left : State → ℕ
steps_left s =
    4 * s.reader_cnt
    + reader_left s.reader
    + (4 * s.updater_cnt + updater_left s.updater)
    + length s.waiting

length-release : (l : List (ℕ × Bool)) → length (release l) ≡ length l
unfolding release
length-release [] = refl
length-release (x ∷ l) = ap suc (length-release l)

length-Ripe : (p : ℕ) (l l' : List (ℕ × Bool)) → Ripe l p l' → length l ≡ suc (length l')
length-Ripe p _ l' here = refl
length-Ripe p (x ∷ l) _ (there r) = ap suc (length-Ripe p l _ r)

Step-steps_left : (s t : State) → Step s t → steps_left t < steps_left s
Step-steps_left s _ (rcu_read_lock c e k) = ground (arith, ap reader_left e)
Step-steps_left s _ (rcu_dereference e) = ground (arith, ap reader_left e)
Step-steps_left s _ (pr_info p e) = ground (arith, ap reader_left e)
Step-steps_left s _ (rcu_read_unlock e) = ground (arith, ap reader_left e, length-release s.waiting)
Step-steps_left s _ (prepare c e k) = ground (arith, ap updater_left e)
Step-steps_left s _ (rcu_assign_pointer old new e) = ground (arith, ap updater_left e)
Step-steps_left s _ (call_rcu old e) = ground (arith, ap updater_left e)
Step-steps_left s _ (rcu_reclaimer p l r) = ground (arith, length-Ripe p s.waiting l r)

-- A run of `n` steps.
pub data Steps : ℕ → State → State → Type 0 where
  none_yet : {s : State} → Steps 0 s s
  one_more : {n : ℕ} {s t u : State} → Step s t → Steps n t u → Steps (suc n) s u

run_bound : (n : ℕ) (s t : State) → Steps n s t → n + steps_left t ≤ steps_left s
run_bound _ s _ none_yet = omega arith
run_bound _ s u (one_more {n = n} {t = t} step run) =
    let a = Step-steps_left s t step in let b = run_bound n t u run in omega arith

pub Steps-start : (n : ℕ) (t : State) → Steps n start t → n ≤ 16
Steps-start n t run = let h = run_bound n start t run in omega arith

-- ===== src/Rcu/Order.antt =====
-- RCU/simple.c: the order in which the reader sees the updater's values.
use lkm.Prelude.{ℕ, ◌<◌, ◌≤◌, ◌≡◌, sym, subst, List, [], ◌∷◌, arith}
use lkm.Rcu.{
  Reader, outside, inside, printed, holding, Updater, idle, prepared, assigned, State, put, Step,
  rcu_read_lock, rcu_dereference, pr_info, rcu_read_unlock, prepare, rcu_assign_pointer, call_rcu,
  rcu_reclaimer, Reachable, at_start, after,
}
use lkm.Rcu.Threads.{Safe, at_prepared}
use lkm.Rcu.Safety.{Reachable-Safe}

-- The values of the log, from the latest, do not rise, and the latest is at most `b`.
unfoldable pub Falls : ℕ → List ℕ → Type 0
Falls b [] = Unit {0}
Falls b (x ∷ l) = (x ≤ b) × Falls x l

Falls-mono : (b c : ℕ) (l : List ℕ) → b ≤ c → Falls b l → Falls c l
unfolding Falls
Falls-mono b c [] h w = tt
Falls-mono b c (x ∷ l) h (le, w) = (omega arith, w)

ReaderSees : Reader → ℕ → (ℕ → ℕ) → List ℕ → Type 0
ReaderSees outside g a log = Falls (a g) log
ReaderSees inside g a log = Falls (a g) log
ReaderSees printed g a log = Falls (a g) log
ReaderSees (holding p) g a log = (p ≤ g) × (a p ≤ a g) × Falls (a p) log

UpdaterSets : Updater → (ℕ → ℕ) → ℕ → Type 0
UpdaterSets idle a v = Unit {0}
UpdaterSets (prepared old new) a v = a new ≡ v
UpdaterSets (assigned old) a v = Unit {0}

Ordered : State → Type 0
Ordered s =
    (s.a s.g_pfoo ≤ s.value)
    × UpdaterSets s.updater s.a s.value
    × ReaderSees s.reader s.g_pfoo s.a s.printed_values

sees-later :
    (r : Reader) (g h : ℕ) (a : ℕ → ℕ) (log : List ℕ)
    → g ≤ h
    → a g ≤ a h
    → ReaderSees r g a log
    → ReaderSees r h a log
unfolding ReaderSees
sees-later outside g h a log n m w = Falls-mono (a g) (a h) log m w
sees-later inside g h a log n m w = Falls-mono (a g) (a h) log m w
sees-later printed g h a log n m w = Falls-mono (a g) (a h) log m w
sees-later (holding p) g h a log n m (x, y, w) = (omega arith, omega arith, w)

put-ne : (f : ℕ → ℕ) (n v m : ℕ) → m < n → put f n v m ≡ f m
put-ne f n v m h = ground arith

sees-put :
    (r : Reader) (g n v : ℕ) (a : ℕ → ℕ) (log : List ℕ)
    → g < n
    → ReaderSees r g a log
    → ReaderSees r g (put a n v) log
unfolding ReaderSees
sees-put outside g n v a log h w = subst (λ x. Falls x log) (sym (put-ne a n v g h)) w
sees-put inside g n v a log h w = subst (λ x. Falls x log) (sym (put-ne a n v g h)) w
sees-put printed g n v a log h w = subst (λ x. Falls x log) (sym (put-ne a n v g h)) w
sees-put (holding p) g n v a log h (x, y, w) =
    let q : put a n v p ≡ a p = put-ne a n v p (omega arith) in
    let k : put a n v g ≡ a g = put-ne a n v g h in
    (x, omega arith, subst (λ x. Falls x log) (sym q) w)

-- The state of the reader, when the equation is given.
sees-at :
    (s : State) (r : Reader)
    → s.reader ≡ r
    → ReaderSees s.reader s.g_pfoo s.a s.printed_values
    → ReaderSees r s.g_pfoo s.a s.printed_values
sees-at s r e w = subst (λ r. ReaderSees r s.g_pfoo s.a s.printed_values) e w

Step-Ordered : (s t : State) → Step s t → Safe s → Ordered s → Ordered t
unfolding Ordered Safe ReaderSees UpdaterSets
Step-Ordered s _ (rcu_read_lock c e k) h (v, u, r) = (v, u, sees-at s outside e r)
Step-Ordered s _ (rcu_dereference e) h (v, u, r) =
    (v, u, (omega arith, omega arith, sees-at s inside e r))
Step-Ordered s _ (pr_info p e) h (v, u, r) =
    let (x, y, w) = sees-at s (holding p) e r in (v, u, (unfold Falls in (y, w)))
Step-Ordered s _ (rcu_read_unlock e) h (v, u, r) = (v, u, sees-at s printed e r)
Step-Ordered s _ (prepare c e k) (l, small, has, alive, held) (v, u, r) =
    let q : put s.a s.allocated s.value s.g_pfoo ≡ s.a s.g_pfoo =
      put-ne s.a s.allocated s.value s.g_pfoo small in
    (
      omega arith,
      ground arith,
      sees-put s.reader s.g_pfoo s.allocated s.value s.a s.printed_values small r,
    )
Step-Ordered s _ (rcu_assign_pointer old new e) (l, small, has, alive, held) (v, u, r) =
    let (o, lt, less, l', below) =
      at_prepared old new s.g_pfoo s.allocated s.live s.waiting e has in
    let q : s.a new ≡ s.value = subst (λ u. UpdaterSets u s.a s.value) e u in
    (
      omega arith,
      tt,
      sees-later s.reader s.g_pfoo new s.a s.printed_values (omega arith) (omega arith) r,
    )
Step-Ordered s _ (call_rcu old e) h (v, u, r) = (omega arith, tt, r)
Step-Ordered s _ (rcu_reclaimer p l ripe) h (v, u, r) = (v, u, r)

Reachable-Ordered : (s : State) → Reachable s → Ordered s
unfolding Ordered ReaderSees UpdaterSets
Reachable-Ordered _ at_start = (omega arith, tt, unfold Falls in tt)
Reachable-Ordered t (after {s = s} h step) =
    Step-Ordered s t step (Reachable-Safe s h) (Reachable-Ordered s h)

seen : (r : Reader) (g : ℕ) (a : ℕ → ℕ) (log : List ℕ) → ReaderSees r g a log → Falls (a g) log
unfolding ReaderSees
seen outside g a log w = w
seen inside g a log w = w
seen printed g a log w = w
seen (holding p) g a log (x, y, w) = Falls-mono (a p) (a g) log y w

-- In every order of the steps of the two threads and of the callbacks, the values that the reader
-- prints never fall, and the last of them is at most the one that is published.
pub printed_values-Falls : (s : State) → Reachable s → Falls (s.a s.g_pfoo) s.printed_values
unfolding Ordered
printed_values-Falls s h =
    let (v, u, r) = Reachable-Ordered s h in seen s.reader s.g_pfoo s.a s.printed_values r

-- ===== src/Rcu/Threads.antt =====
-- RCU/simple.c: what the two threads have of the structures, and what each step leaves them.
use lkm.Prelude.{
  put, ℕ, ◌<◌, ◌≡◌, sym, ap, ◌∙◌, subst, ◌⊎◌, inl, inr, Bool, true, false, List, ◌∷◌, arith,
}
use lkm.Rcu.{
  Reader, outside, inside, printed, holding, Updater, idle, prepared, assigned, State, put,
  in_section, Ripe, release,
}
use lkm.Rcu.Waiting.{
  Below, AllLive, Waits, first, later, Below-release, put-false, Ripe-lt, Ripe-Below, Ripe-AllLive,
  Waits-Ripe,
}

-- What holds of the updater: which structures it has are allocated, and how they are ordered.
unfoldable pub UpdaterHas : Updater → ℕ → ℕ → (ℕ → Bool) → List (ℕ × Bool) → Type 0
UpdaterHas idle g n f l = Below g l
UpdaterHas (prepared old new) g n f l =
    (old ≡ g) × (g < new) × (new < n) × (f new ≡ true) × Below g l
UpdaterHas (assigned old) g n f l = (old < g) × (f old ≡ true) × Below old l

-- What the reader holds is published, or the updater still has it, or its callback waits.
unfoldable pub ReaderHas : Reader → ℕ → Updater → List (ℕ × Bool) → Type 0
ReaderHas outside g u l = Unit {0}
ReaderHas inside g u l = Unit {0}
ReaderHas printed g u l = Unit {0}
ReaderHas (holding p) g u l = (p ≡ g) ⊎ ((u ≡ assigned p) ⊎ Waits p l)

unfoldable pub Safe : State → Type 0
Safe s =
    (s.live s.g_pfoo ≡ true)
    × (s.g_pfoo < s.allocated)
    × UpdaterHas s.updater s.g_pfoo s.allocated s.live s.waiting
    × AllLive s.live s.waiting
    × ReaderHas s.reader s.g_pfoo s.updater s.waiting

pub has-release :
    (u : Updater) (g n : ℕ) (f : ℕ → Bool) (l : List (ℕ × Bool))
    → UpdaterHas u g n f l
    → UpdaterHas u g n f (release l)
unfolding UpdaterHas
has-release idle g n f l w = Below-release g l w
has-release (prepared old new) g n f l (a, b, c, d, w) = (a, b, c, d, Below-release g l w)
has-release (assigned old) g n f l (a, b, w) = (a, b, Below-release old l w)

pub reader-prepare :
    (r : Reader) (g old new : ℕ) (l : List (ℕ × Bool))
    → ReaderHas r g idle l
    → ReaderHas r g (prepared old new) l
unfolding ReaderHas
reader-prepare outside g old new l h = tt
reader-prepare inside g old new l h = tt
reader-prepare printed g old new l h = tt
reader-prepare (holding p) g old new l (inl e) = inl e
reader-prepare (holding p) g old new l (inr (inl e)) = cc e
reader-prepare (holding p) g old new l (inr (inr w)) = inr (inr w)

pub reader-assign :
    (r : Reader) (g old new : ℕ) (l : List (ℕ × Bool))
    → old ≡ g
    → ReaderHas r g (prepared old new) l
    → ReaderHas r new (assigned old) l
unfolding ReaderHas
reader-assign outside g old new l e h = tt
reader-assign inside g old new l e h = tt
reader-assign printed g old new l e h = tt
reader-assign (holding p) g old new l e (inl h) = inr (inl (ap assigned (e ∙ sym h)))
reader-assign (holding p) g old new l e (inr (inl h)) = cc h
reader-assign (holding p) g old new l e (inr (inr w)) = inr (inr w)

pub reader-call :
    (r : Reader) (g old : ℕ) (l : List (ℕ × Bool))
    → ReaderHas r g (assigned old) l
    → ReaderHas r g idle ((old, in_section r) ∷ l)
unfolding ReaderHas
reader-call outside g old l h = tt
reader-call inside g old l h = tt
reader-call printed g old l h = tt
reader-call (holding p) g old l (inl e) = inl e
reader-call (holding p) g old l (inr (inl e)) =
    inr (inr (subst (λ o. Waits p ((o, true) ∷ l)) (let q : p ≡ old = cc e in q) first))
reader-call (holding p) g old l (inr (inr w)) = inr (inr (later w))

pub reader-reclaim :
    (r : Reader) (g p : ℕ) (u : Updater) (l l' : List (ℕ × Bool))
    → Ripe l p l'
    → ReaderHas r g u l
    → ReaderHas r g u l'
unfolding ReaderHas
reader-reclaim outside g p u l l' r h = tt
reader-reclaim inside g p u l l' r h = tt
reader-reclaim printed g p u l l' r h = tt
reader-reclaim (holding q) g p u l l' r (inl e) = inl e
reader-reclaim (holding q) g p u l l' r (inr (inl e)) = inr (inl e)
reader-reclaim (holding q) g p u l l' r (inr (inr w)) = inr (inr (Waits-Ripe q p l l' r w))

-- A callback on `p` leaves the other structures as they are.
pub safe-reclaim :
    (u : Updater) (g n p : ℕ) (f : ℕ → Bool) (l l' : List (ℕ × Bool))
    → Ripe l p l'
    → f g ≡ true
    → AllLive f l
    → UpdaterHas u g n f l
    → (put f p false g ≡ true) × UpdaterHas u g n (put f p false) l' × AllLive (put f p false) l'
unfolding UpdaterHas
safe-reclaim idle g n p f l l' r e v w =
    let h = Ripe-lt g p l l' r w in
    (put-false f p g (omega arith) e, Ripe-Below g p l l' r w, Ripe-AllLive f g p l l' r w v)
safe-reclaim (prepared old new) g n p f l l' r e v (a, b, c, d, w) =
    let h = Ripe-lt g p l l' r w in
    (
      put-false f p g (omega arith) e,
      (a, b, c, put-false f p new (omega arith) d, Ripe-Below g p l l' r w),
      Ripe-AllLive f g p l l' r w v,
    )
safe-reclaim (assigned old) g n p f l l' r e v (a, b, w) =
    let h = Ripe-lt old p l l' r w in
    (
      put-false f p g (omega arith) e,
      (a, put-false f p old (omega arith) b, Ripe-Below old p l l' r w),
      Ripe-AllLive f old p l l' r w v,
    )

-- What holds of an idle updater, when the equation is given.
pub at_idle :
    {u : Updater} (g n : ℕ) (f : ℕ → Bool) (l : List (ℕ × Bool))
    → u ≡ idle
    → UpdaterHas u g n f l
    → UpdaterHas idle g n f l
at_idle g n f l e h = subst (λ u. UpdaterHas u g n f l) e h

pub at_prepared :
    {u : Updater} (old new g n : ℕ) (f : ℕ → Bool) (l : List (ℕ × Bool))
    → u ≡ prepared old new
    → UpdaterHas u g n f l
    → (old ≡ g) × (g < new) × (new < n) × (f new ≡ true) × Below g l
unfolding UpdaterHas
at_prepared old new g n f l e h = subst (λ u. UpdaterHas u g n f l) e h

pub at_assigned :
    {u : Updater} (old g n : ℕ) (f : ℕ → Bool) (l : List (ℕ × Bool))
    → u ≡ assigned old
    → UpdaterHas u g n f l
    → (old < g) × (f old ≡ true) × Below old l
unfolding UpdaterHas
at_assigned old g n f l e h = subst (λ u. UpdaterHas u g n f l) e h

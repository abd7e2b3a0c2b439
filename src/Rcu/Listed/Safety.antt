-- ===== src/Rcu/Listed/Safety.antt =====
-- RCU/simple.c: no structure of the list is freed while it is listed or read.
use lkm.Prelude.{
  ℕ, ◌<◌, ◌≡◌, ◌≢◌, refl, sym, subst, ◌∙◌, ap, ◌⊎◌, inl, inr, Bool, true, false, put, arith,
}
use lkm.Rcu.Listed.{
  ListReader, away, entered, past, at_entry, after_entry, reading, ListUpdater, looking, faulted,
  copied, replaced, synchronizing, ListState, sections_end, ListStep, list_add_rcu, rcu_read_lock,
  no_entry, list_for_each_entry_rcu, pr_info, next_entry, rcu_read_unlock, kzalloc_fails, no_first,
  prepare, list_replace_rcu, synchronize_rcu, kfree, ListRun, at_list_start, then_step,
}

-- What is allocated: the listed structure, and what the updater has.
unfoldable pub Owned : ListUpdater → ℕ → ℕ → (ℕ → Bool) → Type 0
Owned looking g n f = (m : ℕ) → f m ≡ true → m ≡ g
Owned faulted g n f = Unit {0}
Owned (copied p q) g n f =
    (p ≡ g) × (g < q) × (q < n) × (f q ≡ true) × ((m : ℕ) → f m ≡ true → (m ≡ g) ⊎ (m ≡ q))
Owned (replaced p) g n f = (p < g) × (f p ≡ true) × ((m : ℕ) → f m ≡ true → (m ≡ g) ⊎ (m ≡ p))
Owned (synchronizing p b) g n f =
    (p < g) × (f p ≡ true) × ((m : ℕ) → f m ≡ true → (m ≡ g) ⊎ (m ≡ p))

-- What the reader has in hand is listed, or the updater has not come to free it.
unfoldable pub Held : ListReader → ℕ → ListUpdater → Type 0
Held away g u = (p : ℕ) → u ≢ synchronizing p true
Held entered g u = Unit {0}
Held past g u = Unit {0}
Held (at_entry r) g u = (r ≡ g) ⊎ ((u ≡ replaced r) ⊎ (u ≡ synchronizing r true))
Held (after_entry r) g u = (r ≡ g) ⊎ ((u ≡ replaced r) ⊎ (u ≡ synchronizing r true))

unfoldable pub ListSafe : ListState → Type 0
ListSafe s =
    (s.live s.first ≡ true)
    × (s.first < s.allocated)
    × Owned s.updater s.first s.allocated s.live
    × Held s.reader s.first s.updater

Owned-sections_end :
    (u : ListUpdater) (g n : ℕ) (f : ℕ → Bool) → Owned u g n f → Owned (sections_end u) g n f
unfolding Owned sections_end
Owned-sections_end looking g n f h = h
Owned-sections_end faulted g n f h = h
Owned-sections_end (copied p q) g n f h = h
Owned-sections_end (replaced p) g n f h = h
Owned-sections_end (synchronizing p b) g n f h = h

sections_end_ne : (u : ListUpdater) (p : ℕ) → sections_end u ≢ synchronizing p true
unfolding sections_end
sections_end_ne looking p e = cc e
sections_end_ne faulted p e = cc e
sections_end_ne (copied q r) p e = cc e
sections_end_ne (replaced q) p e = cc e
sections_end_ne (synchronizing q b) p e = cc e

-- A step of the updater from `u` to `u'`, for each place of the reader.
Held-faulted : (r : ListReader) (g : ℕ) → Held r g looking → Held r g faulted
unfolding Held
Held-faulted away g h = λ m e. cc e
Held-faulted entered g h = tt
Held-faulted past g h = tt
Held-faulted (at_entry m) g (inl e) = inl e
Held-faulted (at_entry m) g (inr (inl e)) = cc e
Held-faulted (at_entry m) g (inr (inr e)) = cc e
Held-faulted (after_entry m) g (inl e) = inl e
Held-faulted (after_entry m) g (inr (inl e)) = cc e
Held-faulted (after_entry m) g (inr (inr e)) = cc e

Held-prepare : (r : ListReader) (g p q : ℕ) → Held r g looking → Held r g (copied p q)
unfolding Held
Held-prepare away g p q h = λ m e. cc e
Held-prepare entered g p q h = tt
Held-prepare past g p q h = tt
Held-prepare (at_entry m) g p q (inl e) = inl e
Held-prepare (at_entry m) g p q (inr (inl e)) = cc e
Held-prepare (at_entry m) g p q (inr (inr e)) = cc e
Held-prepare (after_entry m) g p q (inl e) = inl e
Held-prepare (after_entry m) g p q (inr (inl e)) = cc e
Held-prepare (after_entry m) g p q (inr (inr e)) = cc e

Held-replace : (r : ListReader) (g p q : ℕ) → p ≡ g → Held r g (copied p q) → Held r q (replaced p)
unfolding Held
Held-replace away g p q s h = λ m e. cc e
Held-replace entered g p q s h = tt
Held-replace past g p q s h = tt
Held-replace (at_entry m) g p q s (inl e) = inr (inl (ap replaced (s ∙ sym e)))
Held-replace (at_entry m) g p q s (inr (inl e)) = cc e
Held-replace (at_entry m) g p q s (inr (inr e)) = cc e
Held-replace (after_entry m) g p q s (inl e) = inr (inl (ap replaced (s ∙ sym e)))
Held-replace (after_entry m) g p q s (inr (inl e)) = cc e
Held-replace (after_entry m) g p q s (inr (inr e)) = cc e

Held-synchronize :
    (r : ListReader) (g p : ℕ) → Held r g (replaced p) → Held r g (synchronizing p (reading r))
unfolding Held reading
Held-synchronize away g p h = λ m e. cc e
Held-synchronize entered g p h = tt
Held-synchronize past g p h = tt
Held-synchronize (at_entry m) g p (inl e) = inl e
Held-synchronize (at_entry m) g p (inr (inl e)) =
    let q : p ≡ m = cc e in inr (inr (ap (λ p. synchronizing p true) q))
Held-synchronize (at_entry m) g p (inr (inr e)) = cc e
Held-synchronize (after_entry m) g p (inl e) = inl e
Held-synchronize (after_entry m) g p (inr (inl e)) =
    let q : p ≡ m = cc e in inr (inr (ap (λ p. synchronizing p true) q))
Held-synchronize (after_entry m) g p (inr (inr e)) = cc e

Held-kfree : (r : ListReader) (g p : ℕ) → Held r g (synchronizing p false) → Held r g looking
unfolding Held
Held-kfree away g p h = λ m e. cc e
Held-kfree entered g p h = tt
Held-kfree past g p h = tt
Held-kfree (at_entry m) g p (inl e) = inl e
Held-kfree (at_entry m) g p (inr (inl e)) = cc e
Held-kfree (at_entry m) g p (inr (inr e)) = cc e
Held-kfree (after_entry m) g p (inl e) = inl e
Held-kfree (after_entry m) g p (inr (inl e)) = cc e
Held-kfree (after_entry m) g p (inr (inr e)) = cc e

put-true_inv : (f : ℕ → Bool) (n m : ℕ) → put f n true m ≡ true → (f m ≡ true) ⊎ (m ≡ n)
put-true_inv f n m h = ground arith

put-false_inv : (f : ℕ → Bool) (n m : ℕ) → put f n false m ≡ true → (m ≢ n) × (f m ≡ true)
put-false_inv f n m h = (λ e. ground arith, ground arith)

pub ListStep-ListSafe : (s t : ListState) → ListStep s t → ListSafe s → ListSafe t
unfolding ListSafe Owned
ListStep-ListSafe s _ (list_add_rcu l) (a, b, o, h) = (a, b, o, h)
ListStep-ListSafe s _ (rcu_read_lock c e k) (a, b, o, h) = (a, b, o, unfold Held in tt)
ListStep-ListSafe s _ (no_entry e l) (a, b, o, h) = (a, b, o, unfold Held in tt)
ListStep-ListSafe s _ (list_for_each_entry_rcu e l) (a, b, o, h) =
    (a, b, o, unfold Held in inl refl)
ListStep-ListSafe s _ (pr_info p e) (a, b, o, h) =
    (a, b, o, unfold Held in subst (λ r. Held r s.first s.updater) e h)
ListStep-ListSafe s _ (next_entry p e) (a, b, o, h) = (a, b, o, unfold Held in tt)
ListStep-ListSafe s _ (kzalloc_fails c e k) (a, b, o, h) =
    (a, b, tt, Held-faulted s.reader s.first (subst (Held s.reader s.first) e h))
ListStep-ListSafe s _ (no_first c e k l) (a, b, o, h) = (
  ground arith,
  omega arith,
  tt,
  Held-faulted s.reader s.first (subst (Held s.reader s.first) e h),
)
ListStep-ListSafe s _ (rcu_read_unlock e) (a, b, o, h) = (
  a,
  b,
  Owned-sections_end s.updater s.first s.allocated s.live o,
  unfold Held in sections_end_ne s.updater,
)
ListStep-ListSafe s _ (prepare c e k l) (a, b, o, h) =
    let o' : (m : ℕ) → s.live m ≡ true → m ≡ s.first =
      subst (λ u. Owned u s.first s.allocated s.live) e o in
    (
      ground arith,
      omega arith,
      (
        refl,
        b,
        omega arith,
        ground arith,
        λ m l. elim (put-true_inv s.live s.allocated m l) [
          | inl l' ↦ inl (o' m l')
          | inr e ↦ inr e
        ],
      ),
      Held-prepare s.reader s.first s.first s.allocated (subst (Held s.reader s.first) e h),
    )
ListStep-ListSafe s _ (list_replace_rcu p q e) (a, b, o, h) =
    let (p_g, lt, small, l, only) = subst (λ u. Owned u s.first s.allocated s.live) e o in
    (
      l,
      small,
      (
        omega arith,
        subst (λ m. s.live m ≡ true) (sym p_g) a,
        λ m l. elim (only m l) [ inl e ↦ inr (e ∙ sym p_g) | inr e ↦ inl e ],
      ),
      Held-replace s.reader s.first p q p_g (subst (Held s.reader s.first) e h),
    )
ListStep-ListSafe s _ (synchronize_rcu p e) (a, b, o, h) = (
  a,
  b,
  subst (λ u. Owned u s.first s.allocated s.live) e o,
  Held-synchronize s.reader s.first p (subst (Held s.reader s.first) e h),
)
ListStep-ListSafe s _ (kfree p e) (a, b, o, h) =
    let (lt, l, only) = subst (λ u. Owned u s.first s.allocated s.live) e o in
    (
      ground arith,
      b,
      λ m l.
          let (d, l') = put-false_inv s.live p m l in
          elim (only m l') [ inl e ↦ e | inr e ↦ absurd (d e) ],
      Held-kfree s.reader s.first p (subst (Held s.reader s.first) e h),
    )

pub ListRun-ListSafe : (n : ℕ) (s : ListState) → ListRun n s → ListSafe s
unfolding ListSafe Owned Held
ListRun-ListSafe _ _ at_list_start = (refl, omega arith, λ m l. ground arith, λ p e. cc e)
ListRun-ListSafe _ t (then_step {n} {s} run step) =
    ListStep-ListSafe s t step (ListRun-ListSafe n s run)

-- The reader has structure `p`, whose field it prints, or whose `next` it reads.
unfoldable pub InHand : ListReader → ℕ → Type 0
InHand r p = (r ≡ at_entry p) ⊎ (r ≡ after_entry p)

Held-InHand :
    (r : ListReader) (p g : ℕ) (u : ListUpdater)
    → InHand r p
    → Held r g u
    → (p ≡ g) ⊎ ((u ≡ replaced p) ⊎ (u ≡ synchronizing p true))
unfolding InHand Held
Held-InHand r p g u (inl e) h = subst (λ r. Held r g u) e h
Held-InHand r p g u (inr e) h = subst (λ r. Held r g u) e h

Held-live :
    (r : ListReader) (p g n : ℕ) (u : ListUpdater) (f : ℕ → Bool)
    → InHand r p
    → f g ≡ true
    → Owned u g n f
    → Held r g u
    → f p ≡ true
unfolding Held Owned
Held-live r p g n u f e a o h = by_place (Held-InHand r p g u e h)
  where
    by_place : (p ≡ g) ⊎ ((u ≡ replaced p) ⊎ (u ≡ synchronizing p true)) → f p ≡ true
    by_place (inl q) = subst (λ g. f g ≡ true) (sym q) a
    by_place (inr (inl q)) = (subst (λ u. Owned u g n f) q o).1
    by_place (inr (inr q)) = (subst (λ u. Owned u g n f) q o).1

not_freed :
    (r : ListReader) (p g n : ℕ) (u : ListUpdater) (f : ℕ → Bool)
    → InHand r p
    → Owned u g n f
    → Held r g u
    → (u ≢ synchronizing g false) × (u ≢ synchronizing p false)
unfolding Held Owned
not_freed r p g n u f e o h = (listed, in_hand (Held-InHand r p g u e h))
  where
    listed : u ≢ synchronizing g false
    listed w = let (lt, l, only) = subst (λ u. Owned u g n f) w o in omega arith

    in_hand : (p ≡ g) ⊎ ((u ≡ replaced p) ⊎ (u ≡ synchronizing p true)) → u ≢ synchronizing p false
    in_hand (inl q) w = listed (w ∙ ap (λ p. synchronizing p false) q)
    in_hand (inr (inl q)) w = cc (q, w)
    in_hand (inr (inr q)) w = cc (q, w)

-- In every order of the steps of `rcu_test_init` and of the two threads that it starts, whichever
-- allocations fail: while the reader has a structure in hand, up to its last read of the structure's
-- `next`, this one and the one in the list are allocated, and `kfree` is about to free neither.
pub list_no_use_after_free :
    (n : ℕ) (s : ListState) (p : ℕ)
    → ListRun n s
    → InHand s.reader p
    → (s.live s.first ≡ true)
      × (s.live p ≡ true)
      × (s.updater ≢ synchronizing s.first false)
      × (s.updater ≢ synchronizing p false)
unfolding ListSafe
list_no_use_after_free n s p run e =
    let (a, b, o, h) = ListRun-ListSafe n s run in
    let (x, y) = not_freed s.reader p s.first s.allocated s.updater s.live e o h in
    (a, Held-live s.reader p s.first s.allocated s.updater s.live e a o h, x, y)

-- ===== src/Idr.antt =====
-- idr/simple.c: two pointers in a map from numbers, which the exit function empties.

mod Tests
use lkm.Prelude.{
  ℕ, ◌≡◌, ◌≢◌, refl, sym, ap, ◌∙◌, ◌⊎◌, inl, inr, Bool, true, false, Option, none, some, List, [],
  ◌∷◌, map, Option-cases, Bool-cases, ◌==◌, ==→eq, arith,
}

-- A number is in a list.
pub data In (i : ℕ) : List ℕ → Type 0 where
  here : {l : List ℕ} → In i (i ∷ l)
  there : {j : ℕ} {l : List ℕ} → In i l → In i (j ∷ l)

-- `struct idr` and its functions, as their documentation has them. `ids` are the numbers that
-- `idr_for_each` goes through; the entry that is visited may be removed.
pub record IdrOps : Type 1 where
  pub Idr : Type 0
  pub idr_init : Idr
  pub idr_alloc : Idr → ℕ → Option (ℕ × Idr)
  pub idr_find : Idr → ℕ → Option ℕ
  pub idr_remove : Idr → ℕ → Idr
  pub ids : Idr → List ℕ
  pub find-init : (i : ℕ) → idr_find idr_init i ≡ none
  pub alloc_free : (m m' : Idr) (p i : ℕ) → idr_alloc m p ≡ some (i, m') → idr_find m i ≡ none
  pub find-alloc : (m m' : Idr) (p i : ℕ) → idr_alloc m p ≡ some (i, m') → idr_find m' i ≡ some p
  pub find-alloc_ne :
      (m m' : Idr) (p i j : ℕ) → idr_alloc m p ≡ some (i, m') → j ≢ i → idr_find m' j ≡ idr_find m j
  pub find-remove : (m : Idr) (i : ℕ) → idr_find (idr_remove m i) i ≡ none
  pub find-remove_ne : (m : Idr) (i j : ℕ) → j ≢ i → idr_find (idr_remove m i) j ≡ idr_find m j
  pub ids_all : (m : Idr) (i p : ℕ) → idr_find m i ≡ some p → In i (ids m)

-- The strings by their addresses.
abbrev pub ptr1 : ℕ
ptr1 = 0xa0

abbrev pub ptr2 : ℕ
ptr2 = 0xb0

module _ (O : IdrOps) where
  -- What `mod_init` has: the map, the numbers that it got, if any, and what it found.
  pub record Inited : Type 0 where
    pub idr_map : O.Idr
    pub id0 : Option ℕ
    pub id1 : Option ℕ
    pub ptr : Option ℕ

  -- A failed `idr_alloc` leaves the map alone, and gives a number that no map has.
  unfoldable pub alloc_in : O.Idr → ℕ → Option ℕ × O.Idr
  alloc_in m p = elim (O.idr_alloc m p) [ none ↦ (none, m) | some x ↦ (some (x.0), x.1) ]

  unfoldable pub find_id : O.Idr → Option ℕ → Option ℕ
  find_id m none = none
  find_id m (some i) = O.idr_find m i

  unfoldable pub mod_init : Inited
  mod_init =
      let a = alloc_in O.idr_init ptr1 in
      let b = alloc_in (a.1) ptr2 in
      record { idr_map = b.1; id0 = a.0; id1 = b.0; ptr = find_id (b.1) (a.0) }

  -- `deleter` on each entry.
  unfoldable pub delete_all : O.Idr → List ℕ → O.Idr
  delete_all m [] = m
  delete_all m (i ∷ l) = delete_all (O.idr_remove m i) l

  unfoldable pub mod_exit : O.Idr → O.Idr
  mod_exit m = delete_all m (O.ids m)

  -- What is removed stays so.
  deleted_none :
      (m : O.Idr) (l : List ℕ) (i : ℕ)
      → O.idr_find m i ≡ none
      → O.idr_find (delete_all m l) i ≡ none
  unfolding delete_all
  deleted_none m [] i e = e
  deleted_none m (j ∷ l) i e = deleted_none (O.idr_remove m j) l i (elim (Bool-cases (i == j)) [
    | inl same ↦ ap (O.idr_find (O.idr_remove m j)) (==→eq i j same) ∙ O.find-remove m j
    | inr other ↦ O.find-remove_ne m j i (λ q. ground arith) ∙ e
  ])

  deleted-In : (i : ℕ) (m : O.Idr) (l : List ℕ) → In i l → O.idr_find (delete_all m l) i ≡ none
  unfolding delete_all
  deleted-In i m _ (here {l}) = deleted_none (O.idr_remove m i) l i (O.find-remove m i)
  deleted-In i m (j ∷ l) (there h) = deleted-In i (O.idr_remove m j) l h

  -- After the exit function no number finds anything.
  find-mod_exit : (m : O.Idr) (i : ℕ) → O.idr_find (mod_exit m) i ≡ none
  unfolding mod_exit
  find-mod_exit m i = elim (Option-cases (O.idr_find m i)) [
    | inl e ↦ deleted_none m (O.ids m) i e
    | inr (p, e) ↦ deleted-In i m (O.ids m) (O.ids_all m i p e)
  ]

  alloc_in-some :
      (m m' : O.Idr) (p i : ℕ) → O.idr_alloc m p ≡ some (i, m') → alloc_in m p ≡ (some i, m')
  unfolding alloc_in
  alloc_in-some m m' p i e = rw (e, alloc_in) refl

  -- When `idr_alloc` gives both numbers, they are different, the first finds the first string, the
  -- second the second, and the init function found the first; after the exit function no number finds
  -- anything.
  pub find-mod_init :
      (i j : ℕ) (m m' : O.Idr)
      → O.idr_alloc O.idr_init ptr1 ≡ some (i, m)
      → O.idr_alloc m ptr2 ≡ some (j, m')
      → (i ≢ j)
        × (mod_init.ptr ≡ some ptr1)
        × (O.idr_find mod_init.idr_map i ≡ some ptr1)
        × (O.idr_find mod_init.idr_map j ≡ some ptr2)
        × ((k : ℕ) → O.idr_find (mod_exit mod_init.idr_map) k ≡ none)
  unfolding mod_init alloc_in find_id
  find-mod_init i j m m' a b =
      let first = O.find-alloc O.idr_init m ptr1 i a in
      let d : i ≢ j = λ q. cc (O.alloc_free m m' ptr2 j b, first, ap (O.idr_find m) q) in
      let kept = O.find-alloc_ne m m' ptr2 j i b d ∙ first in
      let e = alloc_in-some O.idr_init m ptr1 i a in
      let f = alloc_in-some m m' ptr2 j b in
      let whole : mod_init.idr_map ≡ m' = ap (λ a. (alloc_in (a.1) ptr2).1) e ∙ ap (λ b. b.1) f in
      (
        d,
        ap (λ a. find_id ((alloc_in (a.1) ptr2).1) (a.0)) e
            ∙ ap (λ b. find_id (b.1) (some i)) f
            ∙ kept,
        ap (λ m. O.idr_find m i) whole ∙ kept,
        ap (λ m. O.idr_find m j) whole ∙ O.find-alloc m m' ptr2 j b,
        λ k. find-mod_exit mod_init.idr_map k,
      )

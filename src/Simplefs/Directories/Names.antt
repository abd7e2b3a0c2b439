-- ===== src/Simplefs/Directories/Names.antt =====
-- simplefs/simple.c: names as `strcpy` writes them and `strcmp` compares them.
use lkm.Prelude.{
  NoNul, ℕ, ◌+◌, ◌≤◌, ◌≡◌, ◌≢◌, refl, ap, ap₂, ◌∙◌, inl, inr, true, false, List, [], ◌∷◌, ◌++◌,
  ◌&&◌, arith, ◌==◌, Bool-cases, length, ==-refl, ==→eq,
}
use lkm.Prelude.Bytes.{Mem, store_head, store-cons}
use lkm.Simplefs.Directories.{str_eq, strcpy}

-- The comparison reads the name's bytes and the one behind them.
pub str_eq_congr :
    (m m' : Mem) (p : ℕ) (name : List ℕ)
    → ((a : ℕ) → p ≤ a → a ≤ p + length name → m a ≡ m' a)
    → str_eq m p name ≡ str_eq m' p name
unfolding str_eq
str_eq_congr m m' p [] h = ap (λ c. c == 0) (h p (omega arith) (omega arith))
str_eq_congr m m' p (c ∷ cs) h =
    ap₂ (λ x y. x == c && y) (h p (omega arith) (omega arith))
      (str_eq_congr m m' (p + 1) cs (λ a lo hi. h a (omega arith) (omega arith)))

-- A name that was copied is found equal.
pub str_eq-strcpy : (m : Mem) (p : ℕ) (name : List ℕ) → str_eq (strcpy m p name) p name ≡ true
unfolding str_eq
str_eq-strcpy m p [] = rw (store_head m p 0 [])
str_eq-strcpy m p (c ∷ cs) =
    ap₂ (λ x y. x == c && y) (store_head m p c (cs ++ 0 ∷ []))
      (str_eq_congr _ (strcpy m (p + 1) cs) (p + 1) cs
          (λ a lo hi. store-cons m p c (cs ++ 0 ∷ []) a lo)
        ∙ str_eq-strcpy m (p + 1) cs)
    ∙ rw (==-refl c)

str_eq-strcpy_cons :
    (m : Mem) (p c d : ℕ) (cs ds : List ℕ)
    → str_eq (strcpy m p (c ∷ cs)) p (d ∷ ds) ≡ (c == d && str_eq (strcpy m (p + 1) cs) (p + 1) ds)
unfolding str_eq
str_eq-strcpy_cons m p c d cs ds =
    ap₂ (λ x y. x == d && y) (store_head m p c (cs ++ 0 ∷ []))
      (str_eq_congr _ (strcpy m (p + 1) cs) (p + 1) ds
        (λ a lo hi. store-cons m p c (cs ++ 0 ∷ []) a lo))

-- A copied name equals no other.
pub str_eq-strcpy_ne :
    (m : Mem) (p : ℕ) (name other : List ℕ)
    → NoNul name
    → NoNul other
    → name ≢ other
    → str_eq (strcpy m p name) p other ≡ false
unfolding str_eq
str_eq-strcpy_ne m p [] [] h k ne = absurd (ne refl)
str_eq-strcpy_ne m p [] (d ∷ ds) h k ne = rw (store_head m p 0 []) (ground arith)
str_eq-strcpy_ne m p (c ∷ cs) [] h k ne = rw (store_head m p c (cs ++ 0 ∷ [])) (ground arith)
str_eq-strcpy_ne m p (c ∷ cs) (d ∷ ds) h k ne = elim (Bool-cases (c == d)) [
  | inl same ↦
      str_eq-strcpy_cons m p c d cs ds
      ∙ rw same (str_eq-strcpy_ne m (p + 1) cs ds h.1 k.1 (λ e. ne (ap₂ ◌∷◌ (==→eq c d same) e)))
  | inr other_head ↦ str_eq-strcpy_cons m p c d cs ds ∙ rw other_head
]

-- ===== src/Sysfs/Decimal.antt =====
-- sysfs/simple.c: the numbers that `sprintf` writes, `sscanf` reads.
use lkm.Prelude.{
  ℕ, zero, suc, ◌+◌, ◌-◌, ◌*◌, ◌/◌, ◌%◌, ◌^◌, ◌<◌, ◌≡◌, refl, sym, ap, ◌∙◌, inl, inr, true, false,
  some, List, [], ◌∷◌, ltb, ltb→lt, lt→ltb, le→ltb, Bool-cases, arith,
}
use native.Mathlib.Nat.{pow-suc}
use lkm.Sysfs.{ℤ, pos, negsuc, digits, print_int, scan_digits, to_int, starts_digit, scan_int}

-- A digit at the head is read.
scan_digit :
    (acc d v : ℕ) (s : List ℕ)
    → d < 10
    → acc < 2 ^ 59
    → acc * 10 + d ≡ v
    → scan_digits acc ((48 + d) ∷ s) ≡ scan_digits v s
unfolding scan_digits
scan_digit acc d v s h b q =
    let e : (acc * 10 + (48 + d - 48)) % 2 ^ 64 ≡ v = omega arith in
    ground (arith, ap (λ a. scan_digits a s) e)

scan_digits-digits :
    (f n : ℕ) (rest : List ℕ)
    → n < 10 ^ suc f
    → n < 2 ^ 32
    → scan_digits 0 (digits (suc f) n rest) ≡ scan_digits n rest
unfolding digits
scan_digits-digits zero n rest h b =
    let lt : n < 10 = omega arith in
    rw (lt→ltb n 10 lt) (scan_digit 0 n n rest lt (omega arith) (omega arith))
scan_digits-digits (suc f) n rest h b = elim (Bool-cases (ltb n 10)) [
  | inl small ↦ rw small (scan_digit 0 n n rest (ltb→lt n 10 small) (omega arith) (omega arith))
  | inr large ↦
      let q : n / 10 < 10 ^ suc f = omega (arith, pow-suc 10 (suc f)) in
      rw large (
        scan_digits-digits f (n / 10) ((48 + n % 10) ∷ rest) q (omega arith)
        ∙ scan_digit (n / 10) (n % 10) n rest (omega arith) (omega arith) (omega arith))
]

-- A text that does not start with a digit.
scan_end : (acc : ℕ) (rest : List ℕ) → starts_digit rest ≡ false → scan_digits acc rest ≡ acc
unfolding scan_digits
scan_end acc [] h = refl
scan_end acc (c ∷ s) h = rw h refl

-- What is written starts with a digit.
digits_head :
    (f n : ℕ) (rest : List ℕ)
    → (d : ℕ) × (s : List ℕ) × (digits (suc f) n rest ≡ (48 + d) ∷ s) × (d < 10)
unfolding digits
digits_head zero n rest = elim (Bool-cases (ltb n 10)) [
  | inl small ↦ (n, rest, rw small refl, ltb→lt n 10 small)
  | inr large ↦ (n % 10, rest, rw large refl, omega arith)
]
digits_head (suc f) n rest = elim (Bool-cases (ltb n 10)) [
  | inl small ↦ (n, rest, rw small refl, ltb→lt n 10 small)
  | inr large ↦
      let (d, s, e, h) = digits_head f (n / 10) ((48 + n % 10) ∷ rest) in (d, s, rw large e, h)
]

scan_int_digit :
    (d : ℕ) (s : List ℕ)
    → d < 10
    → scan_int ((48 + d) ∷ s) ≡ some (to_int (scan_digits 0 ((48 + d) ∷ s)))
unfolding scan_int
scan_int_digit d s h = ground arith

scan_int_minus :
    (s : List ℕ)
    → starts_digit s ≡ true
    → scan_int (45 ∷ s) ≡ some (to_int ((2 ^ 64 - scan_digits 0 s) % 2 ^ 64))
unfolding scan_int
scan_int_minus s h = rw h refl

to_int_pos : (n : ℕ) → n < 2 ^ 31 → to_int n ≡ pos n
unfolding to_int
to_int_pos n h = let e : n % 2 ^ 32 ≡ n = omega arith in rw (e, lt→ltb n (2 ^ 31) h) refl

to_int_neg : (n : ℕ) → n < 2 ^ 31 → to_int ((2 ^ 64 - suc n) % 2 ^ 64) ≡ negsuc n
unfolding to_int
to_int_neg n h =
    let e : (2 ^ 64 - suc n) % 2 ^ 64 % 2 ^ 32 ≡ 2 ^ 32 - suc n = omega arith in
    let g : 2 ^ 32 - (2 ^ 32 - suc n) - 1 ≡ n = omega arith in
    rw (e, le→ltb (2 ^ 32 - suc n) (2 ^ 31) (omega arith)) (ap negsuc g)

-- The ints.
unfoldable pub Fits : ℤ → Type 0
Fits (pos n) = n < 2 ^ 31
Fits (negsuc n) = n < 2 ^ 31

-- What "%d" writes, in front of anything but a digit, "%d" reads.
pub scan_int-print_int :
    (v : ℤ) (rest : List ℕ)
    → Fits v
    → starts_digit rest ≡ false
    → scan_int (print_int v rest) ≡ some v
unfolding Fits print_int
scan_int-print_int (pos n) rest h w =
    let (d, s, e, lt) = digits_head 9 n rest in
    let value : scan_digits 0 ((48 + d) ∷ s) ≡ n =
      ap (scan_digits 0) (sym e)
      ∙ scan_digits-digits 9 n rest (omega arith) (omega arith)
      ∙ scan_end n rest w in
    ap scan_int e
    ∙ scan_int_digit d s lt
    ∙ ap (λ v. some (to_int v)) value
    ∙ ap some (to_int_pos n h)
scan_int-print_int (negsuc n) rest h w =
    let (d, s, e, lt) = digits_head 9 (suc n) rest in
    let value : scan_digits 0 ((48 + d) ∷ s) ≡ suc n =
      ap (scan_digits 0) (sym e)
      ∙ scan_digits-digits 9 (suc n) rest (omega arith) (omega arith)
      ∙ scan_end (suc n) rest w in
    ap (λ t. scan_int (45 ∷ t)) e
    ∙ scan_int_minus ((48 + d) ∷ s) (ground arith)
    ∙ ap (λ v. some (to_int ((2 ^ 64 - v) % 2 ^ 64))) value
    ∙ ap some (to_int_neg n h)

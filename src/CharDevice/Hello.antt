-- ===== src/CharDevice/Hello.antt =====
-- char_device/version1/my_dev.c: the read function of a device with a constant text.
use lkm.Prelude.{
  ℕ, ◌+◌, ◌-◌, ◌%◌, ◌^◌, ◌<◌, ◌≤◌, ◌≡◌, refl, ◌⊎◌, inl, inr, Bool, false, List, [], ◌∷◌, ltb,
  ltb→lt, ltb→le, le→ltb, lt→ltb, Bool-cases, if◌then◌else◌, get_or, arith,
}
use lkm.Prelude.Bytes.{Mem, load}

-- "Hello world!\n" with its NUL.
abbrev pub hello_text : List ℕ
hello_text = 72 ∷ 101 ∷ 108 ∷ 108 ∷ 111 ∷ 32 ∷ 119 ∷ 111 ∷ 114 ∷ 108 ∷ 100 ∷ 33 ∷ 10 ∷ 0 ∷ []

abbrev pub hello : Mem
hello i = get_or hello_text i 0

-- `sizeof(hello)`
abbrev pub sizeof_hello : ℕ
sizeof_hello = 14

-- How a read ends: with 0, with the bytes it gives and the new position, with -EFAULT, or with a copy
-- of what lies beyond the text.
pub data Reading : Type 0 where
  nothing efault beyond : Reading
  gave : List ℕ → ℕ → Reading

-- `copy_to_user` refuses more than INT_MAX bytes, and what the caller's memory refuses.
unfoldable pub copy_out : (ℕ → Bool) → ℕ → ℕ → Reading
copy_out refused position count =
    if ltb 0x7fffffff count
    then efault
    else (if refused count
        then efault
        else (if ltb sizeof_hello (position + count)
            then beyond
            else gave (load hello position count) (position + count)))

-- The sum and the difference are words of 64 bits.
unfoldable pub my_read : (ℕ → Bool) → ℕ → ℕ → Reading
my_read refused position count =
    if ltb sizeof_hello ((position + count) % 2 ^ 64)
    then copy_out refused position ((2 ^ 64 + sizeof_hello - position) % 2 ^ 64)
    else nothing

unfoldable pub ReadingEnds : (ℕ → Bool) → ℕ → ℕ → Type 0
ReadingEnds refused position count =
    ((position + count ≤ 14) × (my_read refused position count ≡ nothing))
    ⊎ (((14 < position) × (my_read refused position count ≡ efault))
        ⊎ ((position ≤ 14)
            × (14 < position + count)
            × (my_read refused position count ≡ gave (load hello position (14 - position)) 14)))

copied_rest :
    (refused : ℕ → Bool) (position : ℕ)
    → position ≤ 14
    → refused (14 - position) ≡ false
    → copy_out refused position (14 - position) ≡ gave (load hello position (14 - position)) 14
unfolding copy_out
copied_rest refused position h w =
    let e : position + (14 - position) ≡ 14 = omega arith in
    rw (w, e, le→ltb 0x7fffffff (14 - position) (omega arith)) refl

refused_rest :
    (refused : ℕ → Bool) (position : ℕ)
    → 14 < position
    → position < 2 ^ 63
    → copy_out refused position ((2 ^ 64 + sizeof_hello - position) % 2 ^ 64) ≡ efault
unfolding copy_out
refused_rest refused position h b =
    rw (lt→ltb 0x7fffffff ((2 ^ 64 + sizeof_hello - position) % 2 ^ 64) (omega arith)) refl

-- A read whose bytes all lie within the text gives nothing; one that would run over its end gives the
-- rest of the text and moves the position behind it; and one from behind the end is refused.
pub my_read-ReadingEnds :
    (refused : ℕ → Bool) (position count : ℕ)
    → position < 2 ^ 63
    → position + count < 2 ^ 64
    → ((n : ℕ) → refused n ≡ false)
    → ReadingEnds refused position count
unfolding ReadingEnds my_read
my_read-ReadingEnds refused position count b c h =
    let m : (position + count) % 2 ^ 64 ≡ position + count = omega arith in
    elim (Bool-cases (ltb sizeof_hello (position + count))) [
      | inr short ↦ inl (ltb→le 14 (position + count) short, rw (m, short) refl)
      | inl long ↦ elim (Bool-cases (ltb sizeof_hello position)) [
        | inl above ↦
            let lt = ltb→lt 14 position above in
            inr (inl (lt, rw (m, long) (refused_rest refused position lt b)))
        | inr below ↦
            let le = ltb→le 14 position below in
            let e : (2 ^ 64 + sizeof_hello - position) % 2 ^ 64 ≡ 14 - position = omega arith in
            inr (
              inr (
                le,
                ltb→lt 14 (position + count) long,
                rw (m, long, e) (copied_rest refused position le (h (14 - position))),
              ))
      ]
    ]

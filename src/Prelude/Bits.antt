-- ===== src/Prelude/Bits.antt =====
-- Bits of an unsigned word, as C's `w & (1 << i)` and `w & ~(1 << i)` read and clear them.
use Prim.Native.Nat.{ℕ, zero, suc, ◌+◌, ◌*◌, ◌/◌, ◌%◌, ◌^◌, ◌≤◌, ◌<◌}
use mathlib.Core.Path.{◌≡◌, ap, sym, ◌∙◌}
use mathlib.Core.Logic.{◌≢◌}
use mathlib.Core.Bool.{Bool, false}
use native.Mathlib.Omega.{arith}
use lkm.Prelude.Tests.{◌==◌}

-- Is bit `i` of `w` set?
unfoldable pub test_bit : ℕ → ℕ → Bool
test_bit w zero = w % 2 == 1
test_bit w (suc i) = test_bit (w / 2) i

-- `w` with bit `i` cleared.
unfoldable pub clear_bit : ℕ → ℕ → ℕ
clear_bit w zero = 2 * (w / 2)
clear_bit w (suc i) = 2 * clear_bit (w / 2) i + w % 2

clear_bit-half : (w i : ℕ) → clear_bit w (suc i) / 2 ≡ clear_bit (w / 2) i
unfolding clear_bit
clear_bit-half w i = omega arith

pub test_bit-clear_bit_self : (w i : ℕ) → test_bit (clear_bit w i) i ≡ false
unfolding test_bit clear_bit
test_bit-clear_bit_self w zero = ground arith
test_bit-clear_bit_self w (suc i) =
    ap (λ k. test_bit k i) (clear_bit-half w i) ∙ test_bit-clear_bit_self (w / 2) i

pub test_bit-clear_bit_ne : (w i j : ℕ) → i ≢ j → test_bit (clear_bit w i) j ≡ test_bit w j
unfolding test_bit
test_bit-clear_bit_ne w zero zero h = absurd (h (omega arith))
test_bit-clear_bit_ne w zero (suc j) h =
    ap (λ k. test_bit k j)
      (unfold clear_bit in (let e : 2 * (w / 2) / 2 ≡ w / 2 = omega arith in e))
test_bit-clear_bit_ne w (suc i) zero h =
    unfold clear_bit in
    (let e : (2 * clear_bit (w / 2) i + w % 2) % 2 ≡ w % 2 = omega arith in ground (arith, e))
test_bit-clear_bit_ne w (suc i) (suc j) h =
    ap (λ k. test_bit k j) (clear_bit-half w i)
    ∙ test_bit-clear_bit_ne (w / 2) i j (λ e. h (ap suc e))

pub clear_bit-le : (w i : ℕ) → clear_bit w i ≤ w
unfolding clear_bit
clear_bit-le w zero = omega arith
clear_bit-le w (suc i) = omega (arith, clear_bit-le (w / 2) i)

-- `q` doubled `k` times, which has no bit below `k`.
doubled : ℕ → ℕ → ℕ
doubled q zero = q
doubled q (suc k) = 2 * doubled q k

test_bit-add-doubled : (w q k j : ℕ) → j < k → test_bit (w + doubled q k) j ≡ test_bit w j
unfolding test_bit doubled
test_bit-add-doubled w q zero j h = absurd (omega arith)
test_bit-add-doubled w q (suc k) zero h =
    let e : (w + 2 * doubled q k) % 2 ≡ w % 2 = omega arith in ap (λ r. r == 1) e
test_bit-add-doubled w q (suc k) (suc j) h =
    let e : (w + 2 * doubled q k) / 2 ≡ w / 2 + doubled q k = omega arith in
    ap (λ v. test_bit v j) e ∙ test_bit-add-doubled (w / 2) q k j (omega arith)

-- The bits above are cut off, the others stay.
pub test_bit-mod31 : (w j : ℕ) → j < 31 → test_bit (w % 2 ^ 31) j ≡ test_bit w j
unfolding doubled
test_bit-mod31 w j h =
    sym (test_bit-add-doubled (w % 2 ^ 31) (w / 2 ^ 31) 31 j h) ∙ ap (λ v. test_bit v j) whole
  where
    whole : w % 2 ^ 31 + doubled (w / 2 ^ 31) 31 ≡ w
    whole = omega arith

-- ===== src/Prelude/Bytes.antt =====
-- Memory as bytes, and the little-endian words of the x86-64 structs that lie in it.
use Prim.Native.Nat.{ℕ, zero, suc, ◌+◌, ◌-◌, ◌*◌, ◌/◌, ◌%◌, ◌^◌, ◌≤◌, ◌<◌}
use mathlib.Core.Path.{◌≡◌, refl, sym, ap₂, ap, ◌∙◌, fun_ext}
use mathlib.Core.Logic.{◌⊎◌, inl, inr}
use mathlib.Core.List.{List, [], ◌∷◌, ◌++◌}
use native.Mathlib.Omega.{arith}
use native.Mathlib.Nat.{pow-suc}
use lkm.Prelude.Tests.{Bool-cases, ltb, ltb→lt, ltb→le, leb, if◌then◌else◌}
use lkm.Prelude.Lists.{length, get_or, get_or_beyond, get_or-cons}

-- The bytes of a buffer by their offset. A pointer into a buffer is such an offset.
abbrev pub Mem : Type 0
Mem = ℕ → ℕ

-- `memcpy(m + off, bs, length bs)`.
unfoldable pub store : Mem → ℕ → List ℕ → Mem
store m off bs a = if leb off a then get_or bs (a - off) (m a) else m a

-- The `n` bytes at `m + off`.
unfoldable pub load : Mem → ℕ → ℕ → List ℕ
load m off zero = []
load m off (suc n) = m off ∷ load m (off + 1) n

pub store_out :
    (m : Mem) (off : ℕ) (bs : List ℕ) (a : ℕ)
    → (a < off) ⊎ (off + length bs ≤ a)
    → store m off bs a ≡ m a
unfolding store
store_out m off bs a (inl h) = ground arith
store_out m off bs a (inr h) = ground (arith, get_or_beyond bs (a - off) (m a) (omega arith))

pub store_in :
    (m : Mem) (off : ℕ) (bs : List ℕ) (k : ℕ) → store m off bs (off + k) ≡ get_or bs k (m (off + k))
unfolding store
store_in m off bs k =
    let e : off + k - off ≡ k = omega arith in ground (arith, ap (λ i. get_or bs i (m (off + k))) e)

pub load_congr :
    (m m' : Mem) (off n : ℕ)
    → ((a : ℕ) → off ≤ a → a < off + n → m a ≡ m' a)
    → load m off n ≡ load m' off n
unfolding load
load_congr m m' off zero h = refl
load_congr m m' off (suc n) h =
    ap₂ ◌∷◌ (h off (omega arith) (omega arith))
      (load_congr m m' (off + 1) n (λ a p q. h a (omega arith) (omega arith)))

pub length-load : (m : Mem) (off n : ℕ) → length (load m off n) ≡ n
unfolding load
length-load m off zero = refl
length-load m off (suc n) = ap suc (length-load m (off + 1) n)

-- Behind its first byte a copy is the copy of the rest.
pub store-cons :
    (m : Mem) (off b : ℕ) (bs : List ℕ) (a : ℕ)
    → off + 1 ≤ a
    → store m off (b ∷ bs) a ≡ store m (off + 1) bs a
unfolding store
store-cons m off b bs a p =
    let e : a - off - 1 ≡ a - (off + 1) = omega arith in
    ground (arith, get_or-cons b bs (a - off) (m a) (omega arith), ap (λ k. get_or bs k (m a)) e)

pub store_head : (m : Mem) (off b : ℕ) (bs : List ℕ) → store m off (b ∷ bs) off ≡ b
unfolding store
store_head m off b bs =
    let e : off - off ≡ 0 = omega arith in ground (arith, ap (λ k. get_or (b ∷ bs) k (m off)) e)

-- What is copied in is read back.
pub load-store_self : (m : Mem) (off : ℕ) (bs : List ℕ) → load (store m off bs) off (length bs) ≡ bs
unfolding load
load-store_self m off [] = refl
load-store_self m off (b ∷ bs) = ap₂ ◌∷◌ (store_head m off b bs) (
    load_congr (store m off (b ∷ bs)) (store m (off + 1) bs) (off + 1) (length bs)
      (λ a p q. store-cons m off b bs a p)
    ∙ load-store_self m (off + 1) bs)

-- A copy elsewhere leaves what is read alone.
pub load-store_ne :
    (m : Mem) (off : ℕ) (bs : List ℕ) (at n : ℕ)
    → (at + n ≤ off) ⊎ (off + length bs ≤ at)
    → load (store m off bs) at n ≡ load m at n
load-store_ne m off bs at n (inl h) =
    load_congr _ _ at n (λ a p q. store_out m off bs a (inl (omega arith)))
load-store_ne m off bs at n (inr h) =
    load_congr _ _ at n (λ a p q. store_out m off bs a (inr (omega arith)))

-- The low `n` bytes of a number, the lowest first.
unfoldable pub to_le : ℕ → ℕ → List ℕ
to_le zero v = []
to_le (suc n) v = v % 256 ∷ to_le n (v / 256)

unfoldable pub from_le : List ℕ → ℕ
from_le [] = 0
from_le (b ∷ bs) = b + 256 * from_le bs

pub length-to_le : (n v : ℕ) → length (to_le n v) ≡ n
unfolding to_le
length-to_le zero v = refl
length-to_le (suc n) v = ap suc (length-to_le n (v / 256))

pub from_le-to_le : (n v : ℕ) → v < 256 ^ n → from_le (to_le n v) ≡ v
unfolding to_le from_le
from_le-to_le zero v h = omega arith
from_le-to_le (suc n) v h = omega (arith, from_le-to_le n (v / 256) small)
  where
    small : v / 256 < 256 ^ n
    small = omega (arith, pow-suc 256 n)

-- A `uint64_t` field at an offset, and an `unsigned int` one.
unfoldable pub load64 : Mem → ℕ → ℕ
load64 m off = from_le (load m off 8)

unfoldable pub store64 : Mem → ℕ → ℕ → Mem
store64 m off v = store m off (to_le 8 v)

pub load64-store64_self : (m : Mem) (off v : ℕ) → v < 2 ^ 64 → load64 (store64 m off v) off ≡ v
unfolding load64 store64
load64-store64_self m off v h =
    ap from_le (
      ap (load (store m off (to_le 8 v)) off) (sym (length-to_le 8 v))
      ∙ load-store_self m off (to_le 8 v))
    ∙ from_le-to_le 8 v h

pub load64-store64_ne :
    (m : Mem) (off v at : ℕ)
    → (at + 8 ≤ off) ⊎ (off + 8 ≤ at)
    → load64 (store64 m off v) at ≡ load64 m at
unfolding load64 store64
load64-store64_ne m off v at (inl h) = ap from_le (load-store_ne m off (to_le 8 v) at 8 (inl h))
load64-store64_ne m off v at (inr h) =
    ap from_le (load-store_ne m off (to_le 8 v) at 8 (inr (omega (arith, length-to_le 8 v))))

pub load64-store_ne :
    (m : Mem) (off : ℕ) (bs : List ℕ) (at : ℕ)
    → (at + 8 ≤ off) ⊎ (off + length bs ≤ at)
    → load64 (store m off bs) at ≡ load64 m at
unfolding load64
load64-store_ne m off bs at h = ap from_le (load-store_ne m off bs at 8 h)

get_or-append_left :
    (xs ys : List ℕ) (i d : ℕ) → i < length xs → get_or (xs ++ ys) i d ≡ get_or xs i d
get_or-append_left [] ys i d h = elim h [ ]
get_or-append_left (x ∷ xs) ys zero d h = refl
get_or-append_left (x ∷ xs) ys (suc i) d h = get_or-append_left xs ys i d (omega arith)

get_or-append_right :
    (xs ys : List ℕ) (i d : ℕ) → length xs ≤ i → get_or (xs ++ ys) i d ≡ get_or ys (i - length xs) d
get_or-append_right [] ys i d h = ap (λ k. get_or ys k d) (omega arith)
get_or-append_right (x ∷ xs) ys zero d h = absurd (omega arith)
get_or-append_right (x ∷ xs) ys (suc i) d h =
    get_or-append_right xs ys i d (omega arith) ∙ ap (λ k. get_or ys k d) (omega arith)

store_at :
    (m : Mem) (off : ℕ) (bs : List ℕ) (a : ℕ)
    → off ≤ a
    → store m off bs a ≡ get_or bs (a - off) (m a)
unfolding store
store_at m off bs a h = ground arith

-- Two copies side by side are one.
pub store-append :
    (m : Mem) (p q : ℕ) (xs ys : List ℕ)
    → p + length xs ≡ q
    → store (store m p xs) q ys ≡ store m p (xs ++ ys)
store-append m p q xs ys e = fun_ext λ a. at a
  where
    at : (a : ℕ) → store (store m p xs) q ys a ≡ store m p (xs ++ ys) a
    at a = elim (Bool-cases (ltb a p)) [
      | inl below ↦
          let lt = ltb→lt a p below in
          store_out (store m p xs) q ys a (inl (omega arith))
          ∙ store_out m p xs a (inl lt)
          ∙ sym (store_out m p (xs ++ ys) a (inl lt))
      | inr above ↦ elim (Bool-cases (ltb a q)) [
        | inl first ↦
            let le = ltb→le a p above in
            let lt = ltb→lt a q first in
            store_out (store m p xs) q ys a (inl lt)
            ∙ store_at m p xs a le
            ∙ sym (
                store_at m p (xs ++ ys) a le ∙ get_or-append_left xs ys (a - p) (m a) (omega arith))
        | inr second ↦
            let le = ltb→le a p above in
            let le' = ltb→le a q second in
            store_at (store m p xs) q ys a le'
            ∙ ap (get_or ys (a - q)) (store_out m p xs a (inr (omega arith)))
            ∙ ap (λ k. get_or ys k (m a)) (let f : a - q ≡ a - p - length xs = omega arith in f)
            ∙ sym (
                store_at m p (xs ++ ys) a le
                ∙ get_or-append_right xs ys (a - p) (m a) (omega arith))
      ]
    ]

-- A read is the read of its two parts.
pub load-append : (m : Mem) (p n k : ℕ) → load m p (n + k) ≡ load m p n ++ load m (p + n) k
unfolding load
load-append m p zero k =
    ap₂ (load m) (let e : p ≡ p + 0 = omega arith in e) (let e : 0 + k ≡ k = omega arith in e)
load-append m p (suc n) k =
    ap (load m p) (let e : suc n + k ≡ suc (n + k) = omega arith in e)
    ∙ ap (λ l. m p ∷ l)
        (load-append m (p + 1) n k
          ∙ ap (λ q. load m (p + 1) n ++ load m q k)
              (let e : p + 1 + n ≡ p + suc n = omega arith in e))

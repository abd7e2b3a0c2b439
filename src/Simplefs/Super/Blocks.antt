-- ===== src/Simplefs/Super/Blocks.antt =====
-- simplefs/simple.c, `simplefs_sb_get_a_freeblock`: which block is taken, what is marked, and how the
-- function ends where none is free.
use lkm.Prelude.{
  ℕ, zero, suc, ◌+◌, ◌^◌, ◌≤◌, ◌<◌, ◌≡◌, ◌≢◌, refl, inl, inr, true, false, arith, leb, ◌==◌,
  Bool-cases, ==→eq,
}
use lkm.Prelude.Bits.{test_bit-clear_bit_self, test_bit-clear_bit_ne, test_bit-mod31, clear_bit-le}
use lkm.Prelude.Bytes.{load64, store64, load64-store64_self, load64-store64_ne}
use lkm.Simplefs.State.{
  Fs, wide_shift, Run, done, fault, Result, ok, err, freeblock_lock, sync_bread, Env, free_blocks,
  inodes_count, update,
}
use lkm.Simplefs.Super.{
  masked, unmasked, Scan, found, exhausted, wide, scan_from, scan, get_a_freeblock,
}

-- What the loop from `i` has found out about the word when it ends.
abbrev pub Scanned : ℕ → ℕ → Scan → Type 0
Scanned w i (found k) =
    (i ≤ k) × (k ≤ 31) × (masked w k ≡ true) × ((j : ℕ) → i ≤ j → j < k → masked w j ≡ false)
Scanned w i exhausted = ⊥
Scanned w i wide = (j : ℕ) → i ≤ j → j < 32 → masked w j ≡ false

-- One more bit that is not set, in front.
Scanned-cons : (w i : ℕ) (r : Scan) → masked w i ≡ false → Scanned w (i + 1) r → Scanned w i r
Scanned-cons w i (found k) e h = (
  omega arith,
  h.1,
  h.2,
  λ j p q. elim (Bool-cases (i == j)) [
    | inl same ↦ ground (arith, e)
    | inr other ↦ h.3 j (ground arith) q
  ],
)
Scanned-cons w i exhausted e h = h
Scanned-cons w i wide e h = λ j p q. elim (Bool-cases (i == j)) [
  | inl same ↦ ground (arith, e)
  | inr other ↦ h j (ground arith) q
]

scan_from-Scanned : (w i n : ℕ) → i + n ≡ 64 → i ≤ 32 → Scanned w i (scan_from w i n)
unfolding scan_from
scan_from-Scanned w i zero e h = absurd (omega arith)
scan_from-Scanned w i (suc n) e h = elim (Bool-cases (leb 32 i)) [
  | inl big ↦ rw big (λ j p q. absurd (ground arith))
  | inr small ↦ elim (Bool-cases (masked w i)) [
    | inl set ↦ rw (small, set) (ground arith, ground arith, set, λ j p q. absurd (omega arith))
    | inr unset ↦
        rw (small, unset)
          (Scanned-cons w i _ unset (scan_from-Scanned w (i + 1) n (omega arith) (ground arith)))
  ]
]

pub scan-Scanned : (w : ℕ) → Scanned w 2 (scan w)
unfolding scan
scan-Scanned w = scan_from-Scanned w 2 62 (omega arith) (omega arith)

-- Marking a block leaves its own bit clear.
pub masked-unmasked : (w i : ℕ) → masked (unmasked w i) i ≡ false
masked-unmasked w i = elim (Bool-cases (i == 31)) [
  | inl last ↦ rw last (ground arith)
  | inr other ↦ rw other (test_bit-clear_bit_self w i)
]

pub unmasked-le : (w i : ℕ) → unmasked w i ≤ w
unmasked-le w i = elim (Bool-cases (i == 31)) [
  | inl last ↦ rw last (omega arith)
  | inr other ↦ rw other (clear_bit-le w i)
]

-- A block that is marked stays so when another one is.
pub masked-unmasked-false :
    (w i j : ℕ) → j ≤ 31 → masked w j ≡ false → masked (unmasked w i) j ≡ false
masked-unmasked-false w i j le h = elim (Bool-cases (i == j)) [
  | inl same ↦ rw (==→eq i j same) (masked-unmasked w j)
  | inr other ↦ elim (Bool-cases (j == 31)) [
    | inl top ↦ ground (arith, unmasked-le w i, h)
    | inr below ↦ elim (Bool-cases (i == 31)) [
      | inl last ↦ ground (arith, last, h, test_bit-mod31 w j)
      | inr inner ↦ ground (arith, h, test_bit-clear_bit_ne w i j)
    ]
  ]
]

-- The state after a block has been marked: the superblock is on the device, nothing else changes.
pub record Marked (s : Fs) (i : ℕ) (s' : Fs) : Type 0 where
  pub in_range : (2 ≤ i) × (i ≤ 31)
  pub was_free : masked (free_blocks s) i ≡ true
  pub is_least : (j : ℕ) → 2 ≤ j → j < i → masked (free_blocks s) j ≡ false
  pub is_taken : masked (free_blocks s') i ≡ false
  pub word : free_blocks s' ≡ unmasked (free_blocks s) i
  pub count : inodes_count s' ≡ inodes_count s
  pub synced : s'.disk 0 ≡ s'.cache 0
  pub blocks : (b : ℕ) → b ≢ 0 → (s'.cache b ≡ s.cache b) × (s'.disk b ≡ s.disk b)
  pub locks : s'.locks ≡ s.locks

abbrev pub marked_state : Fs → ℕ → Fs
marked_state s i =
    let m = store64 (s.cache 0) 24 (unmasked (free_blocks s) i) in
    record s { cache = update s.cache 0 m; disk = update s.disk 0 m }

pub marked_state-Marked :
    (s : Fs) (i : ℕ)
    → free_blocks s < 2 ^ 64
    → Scanned (free_blocks s) 2 (found i)
    → Marked s i (marked_state s i)
marked_state-Marked s i small h = record {
  in_range = (h.0, h.1);
  was_free = h.2;
  is_least = h.3;
  is_taken = rw word (masked-unmasked (free_blocks s) i);
  word = word;
  count = load64-store64_ne (s.cache 0) 24 (unmasked (free_blocks s) i) 16 (omega arith);
  synced = refl;
  blocks = λ b ne. (ground arith, ground arith);
  locks = refl;
}
  where
    word :
        load64 (store64 (s.cache 0) 24 (unmasked (free_blocks s) i)) 24 ≡ unmasked (free_blocks s) i
    word = load64-store64_self (s.cache 0) 24 _ (omega (arith, unmasked-le (free_blocks s) i))

-- How a call ends that is not interrupted, with the mutex free and the superblock at hand: it takes
-- the least free block, or it reaches `1 << 32`.
pub Ends : Fs → Run (Result ℕ) → Type 0
Ends s (done (ok i) s') = Marked s i s'
Ends s (done (err e) s') = ⊥
Ends s (fault e) = (e ≡ wide_shift) × ((j : ℕ) → 2 ≤ j → j < 32 → masked (free_blocks s) j ≡ false)

module _ (env : Env) (s : Fs) where
  pub taken :
      (i : ℕ)
      → env.fails freeblock_lock ≡ false
      → env.fails sync_bread ≡ false
      → s.locks.holds_sb ≡ false
      → scan (free_blocks s) ≡ found i
      → get_a_freeblock env s ≡ done (ok i) (marked_state s i)
  unfolding get_a_freeblock
  taken i quiet reads unheld e = ground arith

  not_taken :
      env.fails freeblock_lock ≡ false
      → s.locks.holds_sb ≡ false
      → scan (free_blocks s) ≡ wide
      → get_a_freeblock env s ≡ fault wide_shift
  unfolding get_a_freeblock
  not_taken quiet unheld e = ground arith

-- With no signal and no failing read, the mutex free, and a word of 64 bits: the function returns
-- the least number from 2 on whose bit is set in the word, clears the bit in the cached superblock and
-- on the device, and changes nothing else; or, when no bit from 2 to 31 is set, it ends in a shift
-- that is wider than an `int`.
pub get_a_freeblock-Ends :
    (env : Env) (s : Fs)
    → env.fails freeblock_lock ≡ false
    → env.fails sync_bread ≡ false
    → s.locks.holds_sb ≡ false
    → free_blocks s < 2 ^ 64
    → Ends s (get_a_freeblock env s)
unfolding Ends
get_a_freeblock-Ends env s quiet reads unheld small =
    by_scan (scan (free_blocks s)) refl (scan-Scanned (free_blocks s))
  where
    by_scan :
        (r : Scan)
        → scan (free_blocks s) ≡ r
        → Scanned (free_blocks s) 2 r
        → Ends s (get_a_freeblock env s)
    by_scan (found i) e h =
        rw (taken env s i quiet reads unheld e) (marked_state-Marked s i small h)
    by_scan exhausted e h = absurd h
    by_scan wide e h = rw (not_taken env s quiet unheld e) (refl, h)

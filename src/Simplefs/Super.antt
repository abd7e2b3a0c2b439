-- ===== src/Simplefs/Super.antt =====
-- simplefs/simple.c: the functions on the superblock.
pub mod Blocks
use lkm.Prelude.{ℕ, zero, suc, ◌+◌, ◌-◌, ◌%◌, ◌^◌, Bool, leb, ◌==◌, if◌then◌else◌}
use lkm.Prelude.Bits.{test_bit, clear_bit}
use lkm.Simplefs.State.{
  branch, fail, wide_shift, fault, M, pure, ◌>>=◌, ◌>>◌, eintr, enospc, Result, ok, err,
  freeblock_lock, sync_bread, count_lock, Env, sb_lock, inodes_mgmt, lock_interruptible, unlock,
  bread_or_bug, sync_block, gets, inodes_count, free_blocks, set_free_blocks,
}
use lkm.Simplefs.Layout.{max_objects}

-- `bh->b_data = sb` changes nothing: `sb` points to that buffer.
unfoldable pub sb_sync : Env → M (Unit {0})
sb_sync env = do bread_or_bug env sync_bread; sync_block 0

-- `w & (1 << i)` for `i < 32`: `1 << 31` is the least `int`, which becomes a mask of bits 31 to 63.
abbrev pub masked : ℕ → ℕ → Bool
masked w i = if i == 31 then leb (2 ^ 31) w else test_bit w i

-- `w & ~(1 << i)`
abbrev pub unmasked : ℕ → ℕ → ℕ
unmasked w i = if i == 31 then w % 2 ^ 31 else clear_bit w i

-- How the loop over `i` ends: by `break`, by its bound, or by `1 << i` with `32 <= i`.
pub data Scan : Type 0 where
  found : ℕ → Scan
  exhausted wide : Scan

-- The loop from `i` with `n` rounds before its bound.
unfoldable pub scan_from : ℕ → ℕ → ℕ → Scan
scan_from w i zero = exhausted
scan_from w i (suc n) =
    let rest = scan_from w (i + 1) n in
    if leb 32 i then wide else (if masked w i then found i else rest)

unfoldable pub scan : ℕ → Scan
unfolding scan_from
scan w = scan_from w 2 (max_objects - 2)

-- The code behind the loop, up to the label.
unfoldable pub take_block : Env → Scan → M (Result ℕ)
unfolding sb_sync
take_block env (found i) = do
  w ← gets free_blocks
  set_free_blocks (unmasked w i)
  sb_sync env
  pure (ok i)
take_block env exhausted = pure (err enospc)
take_block env wide = fail wide_shift

-- The number of a free block that is no longer free. After an interrupted lock the label is reached too.
unfoldable pub get_a_freeblock : Env → M (Result ℕ)
unfolding take_block
get_a_freeblock env = do
  interrupted ← lock_interruptible env freeblock_lock sb_lock
  branch interrupted (do unlock sb_lock; pure (err eintr))
      (do w ← gets free_blocks; r ← take_block env (scan w); unlock sb_lock; pure r)

unfoldable pub get_objects_count : Env → M (Result ℕ)
get_objects_count env = do
  interrupted ← lock_interruptible env count_lock inodes_mgmt
  branch interrupted (pure (err eintr)) (do n ← gets inodes_count; unlock inodes_mgmt; pure (ok n))

-- ===== src/BlockDevice.antt =====
-- block_device/simple.c: a disk in memory behind the multi-queue block layer.
pub mod Transfer
pub mod Driver
pub mod Requests
mod Tests
use lkm.Prelude.{
  ℕ, zero, suc, ◌+◌, ◌-◌, ◌*◌, ◌%◌, ◌^◌, Bool, true, false, Option, none, some, List, [], ◌∷◌, ◌++◌,
  length, take, drop, ltb, if◌then◌else◌,
}
use lkm.Prelude.Bytes.{Mem, load, store}

-- `struct block_dev`: the capacity in sectors, and the buffer behind it.
pub record BlockDev : Type 0 where
  pub capacity : ℕ
  pub bytes : Mem

-- `rq_data_dir(rq)`
pub data Direction : Type 0 where
  read write : Direction

-- A request: the sector where it starts, and the bytes of each segment's page at its offset.
pub record Request : Type 0 where
  pub pos : ℕ
  pub dir : Direction
  pub segments : List (List ℕ)

-- `<< SECTOR_SHIFT`, on 64 bits
abbrev pub bytes_of_sectors : ℕ → ℕ
bytes_of_sectors n = n * 512 % 2 ^ 64

-- The variables of the loop: the device's bytes, `pos`, `*nr_bytes`, and the segments that are done.
pub record Progress : Type 0 where
  pub bytes : Mem
  pub pos : ℕ
  pub nr_bytes : ℕ
  pub moved : List (List ℕ)

-- `b_len` behind the check: `pos + b_len` and `dev_size` are compared as unsigned, and the
-- difference becomes an `unsigned long`.
unfoldable pub clip : ℕ → ℕ → ℕ → ℕ
clip dev_size pos b_len =
    if ltb dev_size ((pos + b_len) % 2 ^ 64) then (dev_size + 2 ^ 64 - pos) % 2 ^ 64 else b_len

-- One `memcpy`, in the direction of the request; the segment has its new bytes.
unfoldable pub copy_segment : Direction → Mem → ℕ → ℕ → List ℕ → Mem × List ℕ
copy_segment write m pos b_len buf = (store m pos (take b_len buf), buf)
copy_segment read m pos b_len buf = (m, load m pos b_len ++ drop b_len buf)

-- The loop over the segments; none if a `memcpy` runs over the end of a segment.
unfoldable pub serve : ℕ → Direction → List (List ℕ) → Progress → Option Progress
serve dev_size dir [] p = some p
serve dev_size dir (buf ∷ bufs) p =
    let b_len = clip dev_size p.pos (length buf) in
    let (m, buf') = copy_segment dir p.bytes p.pos b_len buf in
    let rest = serve dev_size dir bufs (record {
      bytes = m;
      pos = p.pos + b_len;
      nr_bytes = (p.nr_bytes + b_len) % 2 ^ 32;
      moved = p.moved ++ buf' ∷ [];
    }) in
    if ltb (length buf) b_len then none else rest

unfoldable pub do_request : BlockDev → Request → Option Progress
do_request dev rq =
    serve (bytes_of_sectors dev.capacity) rq.dir rq.segments
      (record { bytes = dev.bytes; pos = bytes_of_sectors rq.pos; nr_bytes = 0; moved = [] })

-- How `queue_rq` ends: BLK_STS_OK with the device and the segments as they are then, a BUG, or a
-- `memcpy` that runs over a segment.
pub data Queued : Type 0 where
  sts_ok : BlockDev → List (List ℕ) → Queued
  bug overrun : Queued

-- `blk_update_request` tells whether bytes of the request are left, by the number that was moved.
abbrev finish : (ℕ → Bool) → BlockDev → Option Progress → Queued
finish update_request dev none = overrun
finish update_request dev (some p) =
    if update_request p.nr_bytes then bug else sts_ok (record dev { bytes = p.bytes }) p.moved

-- `do_request` always returns 0.
unfoldable pub queue_rq : (ℕ → Bool) → BlockDev → Request → Queued
queue_rq update_request dev rq = finish update_request dev (do_request dev rq)

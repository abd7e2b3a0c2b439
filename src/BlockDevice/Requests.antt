-- ===== src/BlockDevice/Requests.antt =====
-- block_device/simple.c, whole requests: what is written is read back, and how `queue_rq` answers.
use lkm.Prelude.{
  ◌⊎◌, inl, inr, Bool-cases, ltb→lt, ltb→le, ℕ, ◌+◌, ◌-◌, ◌%◌, ◌^◌, ◌≤◌, ◌<◌, ◌≡◌, ap₂, ◌∙◌, Bool,
  true, false, some, List, ◌∷◌, ◌++◌, length, take, drop, ltb, min, arith, take-all, le→ltb, lt→ltb,
  Bool-cases, drop-all,
}
use mathlib.Core.List.{append-nil}
use lkm.Prelude.Bytes.{load, store, load-store_self}
use lkm.BlockDevice.{
  BlockDev, Direction, read, write, Request, bytes_of_sectors, Progress, clip, serve, do_request,
  sts_ok, bug, overrun, queue_rq,
}
use lkm.BlockDevice.Transfer.{joined, Short, serve-write, serve-read}

-- The bytes of a device.
abbrev pub size_of : BlockDev → ℕ
size_of dev = bytes_of_sectors dev.capacity

module _ (dev : BlockDev) (sector : ℕ) (bufs : List (List ℕ)) (small : size_of dev < 2 ^ 63)
    (short : Short bufs) (starts : bytes_of_sectors sector ≤ size_of dev) where
  do_request-write :
      do_request dev (record { pos = sector; dir = write; segments = bufs })
      ≡ some (record {
        bytes =
            store dev.bytes
              (bytes_of_sectors sector)
              (take (size_of dev - bytes_of_sectors sector) (joined bufs));
        pos =
            bytes_of_sectors sector
            + min (length (joined bufs)) (size_of dev - bytes_of_sectors sector);
        nr_bytes =
            (0 + min (length (joined bufs)) (size_of dev - bytes_of_sectors sector)) % 2 ^ 32;
        moved = bufs;
      })
  unfolding do_request
  do_request-write = serve-write (size_of dev) bufs _ starts small (omega arith) short

  do_request-read :
      (out : List (List ℕ)) × (do_request dev (record { pos = sector; dir = read; segments = bufs })
        ≡ some (record {
          bytes = dev.bytes;
          pos =
              bytes_of_sectors sector
              + min (length (joined bufs)) (size_of dev - bytes_of_sectors sector);
          nr_bytes =
              (0 + min (length (joined bufs)) (size_of dev - bytes_of_sectors sector)) % 2 ^ 32;
          moved = out;
        }))
      × (joined out
          ≡ load dev.bytes
              (bytes_of_sectors sector)
              (min (length (joined bufs)) (size_of dev - bytes_of_sectors sector))
            ++ drop
                (min (length (joined bufs)) (size_of dev - bytes_of_sectors sector))
                (joined bufs))
  unfolding do_request
  do_request-read = serve-read (size_of dev) bufs _ starts small (omega arith) short

-- On a device of fewer than 2 ^ 63 bytes, with segments that are `Short`: what a request writes within
-- the device, a request of as many bytes at the same sector reads back, however the two are cut into
-- segments.
pub do_request-write-read :
    (dev : BlockDev) (sector : ℕ) (bufs bufs' : List (List ℕ))
    → size_of dev < 2 ^ 63
    → Short bufs
    → Short bufs'
    → bytes_of_sectors sector + length (joined bufs) ≤ size_of dev
    → length (joined bufs') ≡ length (joined bufs)
    → (p q : Progress) × (do_request dev (record { pos = sector; dir = write; segments = bufs })
        ≡ some p)
      × (do_request
            (record dev { bytes = p.bytes })
            (record { pos = sector; dir = read; segments = bufs' })
          ≡ some q)
      × (joined q.moved ≡ joined bufs)
do_request-write-read dev sector bufs bufs' small short short' fits same =
    let starts : bytes_of_sectors sector ≤ size_of dev = omega (arith, fits) in
    let start = bytes_of_sectors sector in
    let n = min (length (joined bufs')) (size_of dev - start) in
    let m = store dev.bytes start (take (size_of dev - start) (joined bufs)) in
    let (out, run, bytes) =
      do_request-read (record dev { bytes = m }) sector bufs' small short' starts in
    let whole : n ≡ length (joined bufs) = omega (arith, fits, same) in
    (
      _,
      _,
      do_request-write dev sector bufs small short starts,
      run,
      bytes
          ∙ ap₂ ◌++◌
              (ap₂ (λ k xs. load (store dev.bytes start xs) start k) whole
                  (take-all (size_of dev - start) (joined bufs) (omega (arith, fits)))
                ∙ load-store_self dev.bytes start (joined bufs))
              (drop-all n (joined bufs') (omega (arith, whole, same)))
          ∙ append-nil (joined bufs),
    )

-- A request that starts on the device moves the bytes that lie on it, and counts them.
request_counts :
    (dev : BlockDev) (sector : ℕ) (dir : Direction) (bufs : List (List ℕ))
    → size_of dev < 2 ^ 63
    → Short bufs
    → bytes_of_sectors sector ≤ size_of dev
    → length (joined bufs) < 2 ^ 32
    → (p : Progress) × (do_request dev (record { pos = sector; dir = dir; segments = bufs })
        ≡ some p)
      × (p.nr_bytes ≡ min (length (joined bufs)) (size_of dev - bytes_of_sectors sector))
request_counts dev sector read bufs small short starts fits =
    let (out, run, bytes) = do_request-read dev sector bufs small short starts in
    (_, run, omega arith)
request_counts dev sector write bufs small short starts fits =
    (_, do_request-write dev sector bufs small short starts, omega arith)

-- Where `blk_update_request` tells whether bytes of the request are left: a request that starts on
-- the device, which is shorter than 2 ^ 63 bytes, with segments that are `Short` and fewer than
-- 2 ^ 32 bytes in all, either lies on the device and ends in BLK_STS_OK, or runs over its end and
-- ends in a BUG.
pub queue_rq-answers :
    (update_request : ℕ → Bool) (dev : BlockDev) (sector : ℕ) (dir : Direction)
    (bufs : List (List ℕ))
    → size_of dev < 2 ^ 63
    → Short bufs
    → bytes_of_sectors sector ≤ size_of dev
    → length (joined bufs) < 2 ^ 32
    → ((n : ℕ) → update_request n ≡ ltb n (length (joined bufs)))
    → let rq : Request = record { pos = sector; dir = dir; segments = bufs } in
      ((bytes_of_sectors sector + length (joined bufs) ≤ size_of dev)
        × (dev' : BlockDev) × (out : List (List ℕ)) × (queue_rq update_request dev rq
            ≡ sts_ok dev' out))
      ⊎ ((size_of dev < bytes_of_sectors sector + length (joined bufs))
          × (queue_rq update_request dev rq ≡ bug))
unfolding queue_rq
queue_rq-answers update_request dev sector dir bufs small short starts fits tells =
    let (p, run, count) = request_counts dev sector dir bufs small short starts fits in
    elim (Bool-cases (ltb (size_of dev) (bytes_of_sectors sector + length (joined bufs)))) [
      | inl over ↦
          let left : update_request p.nr_bytes ≡ true =
            tells p.nr_bytes ∙ lt→ltb _ _ (omega (arith, count, ltb→lt _ _ over)) in
          inr (ltb→lt _ _ over, rw (run, left))
      | inr inside ↦
          let all : update_request p.nr_bytes ≡ false =
            tells p.nr_bytes ∙ le→ltb _ _ (omega (arith, count, ltb→le _ _ inside)) in
          inl (ltb→le _ _ inside, record dev { bytes = p.bytes }, p.moved, rw (run, all))
    ]

-- On a device of fewer than 2 ^ 63 bytes, a request that starts behind its end, with a first segment
-- of fewer than 2 ^ 32 bytes, copies out of bounds.
pub queue_rq-overruns :
    (update_request : ℕ → Bool) (dev : BlockDev) (sector : ℕ) (dir : Direction) (buf : List ℕ)
    (bufs : List (List ℕ))
    → size_of dev < 2 ^ 63
    → size_of dev < bytes_of_sectors sector
    → bytes_of_sectors sector < 2 ^ 63
    → length buf < 2 ^ 32
    → queue_rq update_request dev (record { pos = sector; dir = dir; segments = buf ∷ bufs })
      ≡ overrun
unfolding queue_rq do_request serve
queue_rq-overruns update_request dev sector dir buf bufs small behind fits short =
    let start = bytes_of_sectors sector in
    let past : ltb (size_of dev) ((start + length buf) % 2 ^ 64) ≡ true =
      lt→ltb _ _ (omega arith) in
    let far : ltb (length buf) (clip (size_of dev) start (length buf)) ≡ true =
      unfold clip in rw past (lt→ltb _ _ (omega arith)) in
    rw far

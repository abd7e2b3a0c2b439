-- ===== src/BlockDevice/Tests.antt =====
-- Runs of block_device/simple.c on a disk of two sectors.
use lkm.Prelude.{ℕ, ◌≡◌, refl, some, [], ◌∷◌, List, arith, true, false}
use lkm.Prelude.Bytes.{load, store}
use lkm.BlockDevice.{BlockDev, read, write, Progress, do_request, serve, clip, copy_segment}
use lkm.BlockDevice.Transfer.{joined}
use lkm.BlockDevice.Driver.{Env}
use lkm.BlockDevice.Requests.{do_request-write-read}

abbrev two_sectors : BlockDev
two_sectors = record { capacity = 2; bytes = λ a. 0 }

abbrev segments : List (List ℕ)
segments = (1 ∷ 2 ∷ []) ∷ (3 ∷ []) ∷ []

abbrev blanks : List (List ℕ)
blanks = (0 ∷ []) ∷ (0 ∷ 0 ∷ []) ∷ []

-- The second request of the pair fills its own segments.
read_back :
    do_request
      (record two_sectors { bytes = store two_sectors.bytes 512 (1 ∷ 2 ∷ 3 ∷ []) })
      (record { pos = 1; dir = read; segments = blanks })
    ≡ some (record {
      bytes = store two_sectors.bytes 512 (1 ∷ 2 ∷ 3 ∷ []);
      pos = 515;
      nr_bytes = 3;
      moved = (1 ∷ []) ∷ (2 ∷ 3 ∷ []) ∷ [];
    })
unfolding do_request serve clip copy_segment load store
read_back = refl

do_request-write-read_example :
    (p q : Progress) × (do_request two_sectors
        (record { pos = 1; dir = write; segments = segments })
      ≡ some p)
    × (do_request
          (record two_sectors { bytes = p.bytes })
          (record { pos = 1; dir = read; segments = blanks })
        ≡ some q)
    × (joined q.moved ≡ joined segments)
unfolding joined
do_request-write-read_example =
    do_request-write-read two_sectors 1 segments blanks (omega arith) (omega arith) (omega arith)
      (omega arith) refl

-- The request queue cannot be set up.
abbrev no_queue : Env
no_queue = record {
  register_blkdev = false;
  kmalloc_dev = false;
  kmalloc_data = false;
  init_sq_queue = true;
  alloc_disk = false;
}

-- ===== src/IoctlMmap/Access.antt =====
-- ioctl_mmap/simple.c: what is read back, and which accesses leave the page.
use lkm.Prelude.{
  ℕ, ◌+◌, ◌*◌, ◌^◌, ◌≤◌, ◌<◌, ◌≡◌, refl, ap, ◌∙◌, true, false, ◌&&◌, List, length, ltb, leb, arith,
}
use lkm.Prelude.Bytes.{load, store, load-store_self}
use lkm.IoctlMmap.{
  data_size, MmapDev, copied, out_of_bounds, byte_offset, on_page, next_pos, mmap_read, mmap_write,
  seek_set, at, mmap_lseek,
}

pub read_here :
    (d : MmapDev) (count : ℕ)
    → 4 * d.f_pos + count ≤ 4096
    → mmap_read d count
      ≡ copied count (load d.page_data (4 * d.f_pos) count) (record d { f_pos = d.f_pos + 1 })
unfolding mmap_read
read_here d count fits =
    let z : (ltb data_size d.f_pos && ltb d.f_pos (2 ^ 63)) ≡ false = ground arith in
    let b : byte_offset d.f_pos ≡ 4 * d.f_pos = omega arith in
    let n : next_pos d.f_pos ≡ d.f_pos + 1 = omega arith in
    let o : leb (4 * d.f_pos + count) 4096 ≡ true = ground arith in rw (z, b, o, n)

pub write_here :
    (d : MmapDev) (buf : List ℕ)
    → 4 * d.f_pos + length buf ≤ 4096
    → mmap_write d buf
      ≡ copied
          (length buf)
          buf
          (record d { page_data = store d.page_data (4 * d.f_pos) buf; f_pos = d.f_pos + 1 })
unfolding mmap_write
write_here d buf fits =
    let b : byte_offset d.f_pos ≡ 4 * d.f_pos = omega arith in
    let n : next_pos d.f_pos ≡ d.f_pos + 1 = omega arith in
    let o : leb (4 * d.f_pos + length buf) 4096 ≡ true = ground arith in rw (b, o, n)

-- Bytes that are written within the page, with a position in ints, are read back after a seek to
-- the same position; each of the calls moves the position by one.
pub mmap_read-mmap_write :
    (d : MmapDev) (buf : List ℕ)
    → 4 * d.f_pos + length buf ≤ 4096
    → (w s r : MmapDev) × (mmap_write d buf ≡ copied (length buf) buf w)
      × (mmap_lseek w d.f_pos seek_set ≡ at d.f_pos s)
      × (mmap_read s (length buf) ≡ copied (length buf) buf r)
      × (r.f_pos ≡ d.f_pos + 1)
unfolding mmap_lseek
mmap_read-mmap_write d buf fits =
    let m = store d.page_data (4 * d.f_pos) buf in
    let s : MmapDev = record d { page_data = m } in
    (
      _,
      s,
      record d { page_data = m; f_pos = d.f_pos + 1 },
      write_here d buf fits,
      refl,
      read_here s (length buf) fits
          ∙ ap (λ x. copied (length buf) x (record s { f_pos = s.f_pos + 1 }))
              (load-store_self d.page_data (4 * d.f_pos) buf),
      refl,
    )

-- A read of at least one byte at a position from 1024 to 4096 passes the test of the position and
-- copies what lies behind the page.
pub mmap_read_beyond :
    (d : MmapDev) (count : ℕ)
    → 1024 ≤ d.f_pos
    → d.f_pos ≤ 4096
    → 0 < count
    → mmap_read d count ≡ out_of_bounds
unfolding mmap_read
mmap_read_beyond d count low high some_bytes =
    let z : (ltb data_size d.f_pos && ltb d.f_pos (2 ^ 63)) ≡ false = ground arith in
    let o : on_page d.f_pos count ≡ false = ground arith in rw (z, o)

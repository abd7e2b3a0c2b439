-- ===== src/IoctlMmap.antt =====
-- ioctl_mmap/simple.c: a page of memory behind a character device, read, written, sought in and mapped.
pub mod Access
pub mod Setup
pub mod Program
mod Tests
use lkm.Prelude.{
  ℕ, ◌+◌, ◌-◌, ◌*◌, ◌/◌, ◌%◌, ◌^◌, Bool, true, false, ◌&&◌, List, length, ltb, leb, if◌then◌else◌,
}
use lkm.Prelude.Bytes.{Mem, load, store}

abbrev pub data_size : ℕ
data_size = 4096

-- The page at `data`, here `page_data`, byte by byte; the position of the file, a `loff_t` as a word of 64 bits; and the
-- counter of the mappings, a word of 32 bits.
pub record MmapDev : Type 0 where
  pub page_data : Mem
  pub f_pos : ℕ
  pub counter : ℕ

-- How a call ends: with a count and the bytes copied, with an error, or with a copy beyond the page.
-- The code does not look at what `copy_to_user` and `copy_from_user` return; here they succeed.
pub data Copy : Type 0 where
  copied : ℕ → List ℕ → MmapDev → Copy
  eio : Copy
  out_of_bounds : Copy

-- `data + offset` for an `int *data`, in bytes from `data`
abbrev pub byte_offset : ℕ → ℕ
byte_offset offset = 4 * offset % 2 ^ 64

abbrev pub on_page : ℕ → ℕ → Bool
on_page offset count = leb (byte_offset offset + count) data_size

abbrev pub next_pos : ℕ → ℕ
next_pos offset = (offset + 1) % 2 ^ 64

-- `*offset` is the file's position. The test is of signed numbers.
unfoldable pub mmap_read : MmapDev → ℕ → Copy
mmap_read d count =
    let offset = d.f_pos in
    if ltb data_size offset && ltb offset (2 ^ 63)
    then eio
    else (if on_page offset count
        then copied count (load d.page_data (byte_offset offset) count)
            (record d { f_pos = next_pos offset })
        else out_of_bounds)

unfoldable pub mmap_write : MmapDev → List ℕ → Copy
mmap_write d buf =
    let offset = d.f_pos in
    if on_page offset (length buf)
    then copied (length buf) buf (record d {
      page_data = store d.page_data (byte_offset offset) buf;
      f_pos = next_pos offset;
    })
    else out_of_bounds

pub data Whence : Type 0 where
  seek_set seek_cur other : Whence

pub data Sought : Type 0 where
  at : ℕ → MmapDev → Sought
  einval : Sought

unfoldable pub mmap_lseek : MmapDev → ℕ → Whence → Sought
mmap_lseek d offset seek_set = at offset (record d { f_pos = offset })
mmap_lseek d offset seek_cur =
    let pos = (d.f_pos + offset) % 2 ^ 64 in at pos (record d { f_pos = pos })
mmap_lseek d offset other = einval

unfoldable pub mmap_vma_open : MmapDev → MmapDev
mmap_vma_open d = record d { counter = (d.counter + 1) % 2 ^ 32 }

unfoldable pub mmap_vma_close : MmapDev → MmapDev
mmap_vma_close d = record d { counter = (d.counter + (2 ^ 32 - 1)) % 2 ^ 32 }

-- What a fault gives: the page that has a byte of `data`, by its number, or SIGBUS.
pub data Fault : Type 0 where
  page : ℕ → Fault
  sigbus : Fault

unfoldable pub mmap_vm_fault : ℕ → ℕ → Fault
mmap_vm_fault address vm_start =
    let offset = (address + (2 ^ 64 - vm_start)) % 2 ^ 64 in
    if leb data_size offset then sigbus else page (byte_offset offset / 4096)

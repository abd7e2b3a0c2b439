-- ===== src/Simplefs/Image.antt =====
-- The file system that simplefs/mkfs.c writes, mounted by simplefs/simple.c.
use lkm.Prelude.{◌≡◌, refl, some, [], ◌∷◌, ◌++◌}
use lkm.Prelude.Bytes.{Mem, from_le, load, load64}
use lkm.Simplefs.Layout.{read_inode, simplefs_magic}
use lkm.Simplefs.State.{Fs, done, calm, ok, free_blocks}
use lkm.Simplefs.Inodes.{get_inode, get_from}
use lkm.Simplefs.Super.Blocks.{taken, marked_state}
use lkm.Prelude.Bits.{test_bit}
use lkm.Simplefs.Super.{get_a_freeblock, found, scan, scan_from}
use lkm.Simplefs.Directories.{as_int, lookup, find_record, str_eq, iget}
use lkm.Simplefs.Directories.Creation.{vfs_of}
use lkm.Simplefs.Files.{read}
use lkm.Simplefs.Mount.{attach, fill_super}
use lkm.Simplefs.Mkfs.{format, b_root, root_inode, d1_inode, d2_inode, name1, name2, text1, text2}

-- What the mount of a device finds: the root directory, and under each name of the formatter a file
-- that holds its text, NUL included.
pub record Mounts (s : Fs) : Type 0 where
  pub root :
      fill_super calm s
      ≡ done (record { s_magic = simplefs_magic; s_maxbytes = 4096; s_root = vfs_of root_inode }) s
  pub file1 : lookup calm root_inode name1 s ≡ done (some (vfs_of d1_inode)) s
  pub file2 : lookup calm root_inode name2 s ≡ done (some (vfs_of d2_inode)) s
  pub content1 :
      read calm d1_inode 4096 0 s
      ≡ done (record { ret = ok 13; bytes = text1 ++ (0 ∷ []); pos = 13 }) s
  pub content2 :
      read calm d2_inode 4096 0 s
      ≡ done (record { ret = ok 13; bytes = text2 ++ (0 ∷ []); pos = 13 }) s

-- Whatever the device held before, a new file system mounts, and its files are found and read.
pub format-Mounts : (dev : Mem) → Mounts (attach (format dev))
unfolding fill_super lookup read iget as_int find_record str_eq get_inode get_from read_inode format
    from_le load load64
format-Mounts dev = record {
  root = refl;
  file1 = refl;
  file2 = refl;
  content1 = refl;
  content2 = refl;
}

scan-format : (dev : Mem) → scan (free_blocks (attach (format dev))) ≡ found 2
unfolding scan scan_from test_bit format from_le load load64
scan-format dev = refl

-- Whatever the device held before, the first block that is handed out on a new file system is the
-- block of its root directory.
pub get_a_freeblock-format :
    (dev : Mem)
    → (s : Fs) × (get_a_freeblock calm (attach (format dev))
        ≡ done (ok (root_inode.data_block_number)) s)
      × (s.cache b_root ≡ (attach (format dev)).cache b_root)
get_a_freeblock-format dev = (
  marked_state (attach (format dev)) 2,
  taken calm (attach (format dev)) 2 refl refl refl (scan-format dev),
  refl,
)

-- ===== src/Simplefs/Volume/Clash.antt =====
-- simplefs/mkfs.c with simplefs/simple.c: the word of free blocks that the formatter writes, and the
-- first file that is made.
use lkm.Prelude.{
  ℕ, ◌+◌, ◌^◌, ◌≤◌, ◌<◌, ◌≡◌, refl, ap, sym, ◌∙◌, true, none, some, List, ◌||◌, length, arith,
}
use lkm.Prelude.Bits.{test_bit}
use lkm.Prelude.Bytes.{Mem, from_le, load, load64, store}
use lkm.Simplefs.Layout.{Inode, read_inode, s_isdir, s_isreg}
use lkm.Simplefs.Layout.Laws.{Fits}
use lkm.Simplefs.State.{Fs, done, Env, write_bread, write_copy, write_lock, save_bread, save_lock}
use lkm.Simplefs.Super.{scan, scan_from}
use lkm.Simplefs.Inodes.Table.{
  table, slots, find_inode, find_inode-append_new, find_inode-replace_ne,
}
use lkm.Simplefs.Directories.{Created, create_fs_object, find_record}
use lkm.Simplefs.Directories.Creation.{Quiet, vfs_of}
use lkm.Simplefs.Directories.Contract.{CanCreate, CreateEnds, file_inode}
use lkm.Simplefs.Directories.Lookup.{create_fs_object-CreateEnds}
use lkm.Simplefs.Files.{Wrote, write}
use lkm.Simplefs.Files.Contents.{write-WriteEnds}
use lkm.Simplefs.Mount.{attach}
use lkm.Simplefs.Mkfs.{format, root_inode, b_root}
use lkm.Simplefs.Volume.Invariant.{parent-ne-new}

module _ (dev : Mem) (name : List ℕ) (mode : ℕ) (kind : (s_isdir mode || s_isreg mode) ≡ true)
    (mode_fits : mode < 2 ^ 32) (short : length name < 248)
    (new : find_record ((attach (format dev)).cache b_root) 0 name 2 ≡ none) where
  CanCreate-format : CanCreate (attach (format dev)) root_inode name mode b_root
  unfolding find_inode slots read_inode format load64 load from_le scan scan_from test_bit
  CanCreate-format = record {
    unlocked = refl;
    room = omega arith;
    kind = kind;
    mode_fits = mode_fits;
    block_free = refl;
    word_fits = omega arith;
    parent_fits = omega arith;
    child_fits = omega arith;
    on_block = omega arith;
    data_block = omega arith;
    listed = λ e. cc e;
    number_free = refl;
    name_short = short;
    name_new = new;
  }

  abbrev new_file : Inode
  new_file = file_inode (attach (format dev)) mode b_root

  listed :
      (env : Env) (r : Created) (s : Fs)
      → CreateEnds env (attach (format dev)) root_inode name mode b_root r s
      → find_inode new_file.inode_no (table s) ≡ some new_file
  listed env r s ends =
      let can = CanCreate-format in
      ap (find_inode new_file.inode_no) ends.stored
      ∙ find_inode-replace_ne _ r.parent new_file.inode_no (λ q.
        parent-ne-new (attach (format dev)) root_inode name mode b_root can
          (sym (q ∙ ap (λ p. p.inode_no) ends.grown)))
      ∙ find_inode-append_new (table (attach (format dev))) new_file can.number_free

  -- On a file system that the formatter has just made, whatever the device held: with no signal and no
  -- failure, the first file that is made in the root directory, of a new name of fewer than 248 bytes and
  -- a mode of a file or a directory, goes through; the inode that its name's dentry is given is in the store and has the block of the
  -- root directory, and what is written to it within the block goes over the records of the directory.
  pub write-create-format :
      (env : Env) (buf : List ℕ) (ppos : ℕ)
      → Quiet env
      → ppos + length buf ≤ 4096
      → (r : Created) × (s : Fs) × (create_fs_object env root_inode name mode (attach (format dev))
          ≡ done r s)
        × (i : Inode) × (r.dentry ≡ some (vfs_of i))
        × (find_inode i.inode_no (table s) ≡ some i)
        × (i.data_block_number ≡ root_inode.data_block_number)
        × (w : Wrote) × (t : Fs) × (write env i buf ppos s ≡ done w t)
        × (t.cache root_inode.data_block_number
            ≡ store (s.cache root_inode.data_block_number) ppos buf)
        × (t.disk root_inode.data_block_number ≡ t.cache root_inode.data_block_number)
  write-create-format env buf ppos quiet small =
      let can = CanCreate-format in
      let (r, s, run, ends) =
        create_fs_object-CreateEnds env (attach (format dev)) root_inode name mode b_root quiet
          can in
      let (w, t, wrote, v) =
        write-WriteEnds env s new_file buf ppos fits small (omega arith) (listed env r s ends)
          (quiet write_bread) (quiet write_copy) (quiet write_lock) (quiet save_bread)
          (quiet save_lock) (ap (λ l. l.holds_inodes_mgmt) ends.locks)
          (ap (λ l. l.holds_sb) ends.locks) in
      (
        r,
        s,
        run,
        new_file,
        ends.dentry,
        listed env r s ends,
        refl,
        w,
        t,
        wrote,
        v.contents,
        v.synced,
      )
    where
      fits : Fits new_file
      fits = record {
        mode_fits = mode_fits;
        no_fits = omega (arith, CanCreate-format.room);
        block_fits = omega arith;
        size_fits = omega arith;
      }

-- ===== src/Simplefs/Volume/Tests.antt =====
-- A file system in use: a new one whose free blocks begin behind those that the formatter used.
use lkm.Prelude.{ℕ, ◌≡◌, ◌≢◌, refl, some, List, [], ◌∷◌, arith}
use lkm.Prelude.Bytes.{from_le, load, load64, store, store64, to_le}
use lkm.Simplefs.Layout.{Inode, read_inode}
use lkm.Simplefs.State.{Fs, done, calm, ok, err, enotdir}
use lkm.Simplefs.Inodes.{get_inode}
use lkm.Simplefs.Inodes.Table.{table, slots, find_inode}
use lkm.Simplefs.Directories.{
  Listing, iterate, Created, create_fs_object, find_record, lookup, str_eq,
}
use lkm.Simplefs.Files.{Read, read, Wrote, write}
use lkm.Simplefs.Files.Contents.{write-WriteEnds}
use lkm.Simplefs.Mount.{attach}
use lkm.Simplefs.Mkfs.{name1, name2, format, root_inode, d1_inode, d2_inode}
use lkm.Simplefs.Volume.{writes, Runs, begins, steps, mounts, Sound, remount}
use lkm.Simplefs.Volume.Invariant.{Runs-Sound}
use lkm.Simplefs.Directories.Creation.{vfs_of}
use lkm.Simplefs.Volume.Names.{Same, lookup-Runs}
use lkm.Simplefs.Volume.Clash.{write-create-format}
use lkm.Simplefs.Volume.Refinement.Reads.{Small, Answers, reads-tree}
use lkm.Simplefs.Volume.Refinement.Lookups.{same_name, number_of, of_number, lookup-tree}
use lkm.Simplefs.Volume.Tree.{
  dir, up_to_nul, entries, entry_at, node_of, writing, TreeRuns, call_of, calls_of, tree,
}
use lkm.Simplefs.Volume.Refinement.{Runs-TreeRuns}
use lkm.Simplefs.Volume.Persistence.{Runs-same, read-write-Runs}
use lkm.Simplefs.Volume.Sample.{blank, in_use, in_use-Sound, known, other_known, root_known}

abbrev text : List ℕ
text = b'h' ∷ b'i' ∷ []

-- A write to the second file, and a mount.
used : (t : Fs) × Runs (λ n. n ≢ 2) in_use (remount t)
used =
    let (w, t, run, ends) =
      write-WriteEnds calm in_use d2_inode text 0 (omega arith) (omega arith) (omega arith)
        other_known refl refl refl refl refl refl refl in
    (
      t,
      mounts (
          steps begins (omega arith) (
            writes calm d2_inode text 0 w t (λ c. refl) other_known refl (omega arith) (omega arith)
              run)),
    )

Runs-Sound_example : Sound (remount used.0)
Runs-Sound_example = Runs-Sound used.1 in_use-Sound

-- The read of the first file, and the refusal to list it.
abbrev text1_read : Read
text1_read = record { ret = ok 2; bytes = b'I' ∷ b' ' ∷ []; pos = 2 }

abbrev no_listing : Listing
no_listing = record { ret = err enotdir; entries = []; pos = 0 }

reads_1 : read calm d1_inode 2 0 in_use ≡ done text1_read in_use
unfolding read format load store to_le store64
reads_1 = refl

lists_1 : iterate calm d1_inode 0 in_use ≡ done no_listing in_use
unfolding iterate
lists_1 = refl

Runs-same_example :
    (get_inode calm 2 (remount used.0) ≡ done (some d1_inode) (remount used.0))
    × (read calm d1_inode 2 0 (remount used.0) ≡ done text1_read (remount used.0))
    × (iterate calm d1_inode 0 (remount used.0) ≡ done no_listing (remount used.0))
Runs-same_example =
    Runs-same in_use (remount used.0) 2 d1_inode calm calm 2 0 0 text1_read no_listing used.1
      in_use-Sound known refl refl reads_1 lists_1

wrote_1 : (w : Wrote) × (t : Fs) × (write calm d1_inode text 0 in_use ≡ done w t)
wrote_1 =
    let (w, t, run, ends) =
      write-WriteEnds calm in_use d1_inode text 0 (omega arith) (omega arith) (omega arith) known
        refl refl refl refl refl refl refl in
    (w, t, run)

read-write-Runs_example :
    (get_inode calm 2 (remount wrote_1.1) ≡ done (some wrote_1.0.inode) (remount wrote_1.1))
    × (read calm wrote_1.0.inode 2 0 (remount wrote_1.1)
        ≡ done (record { ret = ok 2; bytes = text; pos = 2 }) (remount wrote_1.1))
read-write-Runs_example =
    read-write-Runs calm in_use wrote_1.1 (remount wrote_1.1) 2 d1_inode text wrote_1.0 (λ c. refl)
      in_use-Sound known refl (omega arith) (omega arith) (omega arith) wrote_1.2 (mounts begins)

name1_found : find_record (in_use.cache 2) 0 name1 2 ≡ some 2
unfolding find_record str_eq format load64 store64 load from_le store to_le
name1_found = refl

lookup-Runs_example :
    (dir' i' : Inode) × (find_inode 1 (table (remount used.0)) ≡ some dir')
    × (lookup calm dir' name1 (remount used.0) ≡ done (some (vfs_of i')) (remount used.0))
    × Same d1_inode i'
lookup-Runs_example =
    lookup-Runs calm in_use (remount used.0) 1 root_inode d1_inode name1 (λ c. refl) used.1
      in_use-Sound (omega arith) root_known refl (omega arith) (omega arith) name1_found known

-- "log"
abbrev log_name : List ℕ
log_name = b'l' ∷ b'o' ∷ b'g' ∷ []

write-create-format_example :
    (r : Created) × (s : Fs) × (create_fs_object calm root_inode log_name 0o100644
        (attach (format blank))
      ≡ done r s)
    × (i : Inode) × (r.dentry ≡ some (vfs_of i))
    × (find_inode i.inode_no (table s) ≡ some i)
    × (i.data_block_number ≡ root_inode.data_block_number)
    × (w : Wrote) × (t : Fs) × (write calm i text 0 s ≡ done w t)
    × (t.cache root_inode.data_block_number ≡ store (s.cache root_inode.data_block_number) 0 text)
    × (t.disk root_inode.data_block_number ≡ t.cache root_inode.data_block_number)
unfolding find_record str_eq format load64 load from_le store to_le
write-create-format_example =
    write-create-format blank log_name 0o100644 refl (omega arith) (omega arith) refl calm text 0
      (λ c. refl) (omega arith)

Runs-TreeRuns_example : TreeRuns (tree in_use) (writing 3 0 text ∷ []) (tree (remount used.0))
unfolding calls_of call_of used
Runs-TreeRuns_example = Runs-TreeRuns used.1 in_use-Sound

-- The root directory of the new file system.
abbrev root_names : List (List ℕ × ℕ)
root_names = (name1, 2) ∷ (name2, 3) ∷ []

root_node : tree in_use 1 ≡ some (dir root_names)
unfolding node_of up_to_nul entries entry_at find_inode slots read_inode format load64 store64 load
    from_le store to_le
root_node = refl

reads-tree_example : Answers calm in_use root_inode 10 0 (dir root_names)
unfolding Small
reads-tree_example =
    reads-tree calm in_use 1 root_inode (dir root_names) 10 0 root_known root_node (omega arith)
      refl refl refl

lookup-tree_example : lookup calm root_inode name1 in_use ≡ of_number in_use (some 2)
unfolding number_of same_name
lookup-tree_example =
    lookup-tree calm in_use 1 root_inode root_names name1 (λ c. refl) root_known refl root_node
      (omega arith) (omega arith) (omega arith)

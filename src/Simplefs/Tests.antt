-- ===== src/Simplefs/Tests.antt =====
-- Runs of simplefs/ on small inputs, and its theorems at a freshly formatted device.
use lkm.Prelude.{ℕ, ◌+◌, ◌-◌, ◌^◌, ◌≡◌, refl, some, [], ◌∷◌, List, replicate, true, false, arith}
use lkm.Prelude.Bits.{test_bit}
use lkm.Prelude.Bytes.{Mem, from_le, load, load64, store, store64, to_le}
use lkm.Simplefs.Layout.{Inode, read_inode}
use lkm.Simplefs.State.{
  create_mgmt_lock, Fs, done, fault, calm, Env, ok, out_of_block, update, add_sb_lock,
}
use lkm.Simplefs.Super.{get_a_freeblock, scan, scan_from}
use lkm.Simplefs.Super.Blocks.{Ends, get_a_freeblock-Ends}
use lkm.Simplefs.Inodes.Table.{table, slots, find_inode}
use lkm.Simplefs.Files.{Read, read, Wrote, write}
use lkm.Simplefs.Files.Contents.{WriteEnds, write-WriteEnds}
use lkm.Simplefs.Directories.{Created, create_fs_object, find_record, str_eq}
use lkm.Simplefs.Directories.Contract.{CanCreate, CreateEnds}
use lkm.Simplefs.Directories.Lookup.{create_fs_object-CreateEnds}
use lkm.Simplefs.Overruns.{create_fs_object_overruns}
use lkm.Simplefs.Mount.{attach}
use lkm.Simplefs.Image.{Mounts, format-Mounts}
use lkm.Simplefs.Mkfs.{format, root_inode, d1_inode}

abbrev blank : Mem
blank a = 0

-- A new file system whose free blocks begin behind those that the formatter used.
abbrev fresh : Fs
fresh =
    let s = attach (format blank) in
    record s { cache = update s.cache 0 (store64 (s.cache 0) 24 (2 ^ 64 - 2 ^ 5)) }

-- "log"
abbrev log_name : List ℕ
log_name = b'l' ∷ b'o' ∷ b'g' ∷ []

abbrev text : List ℕ
text = b'h' ∷ b'i' ∷ []

abbrev long_name : List ℕ
long_name = replicate 248 b'x'

get_a_freeblock-Ends_example : Ends fresh (get_a_freeblock calm fresh)
unfolding format load64 store64 load from_le
get_a_freeblock-Ends_example = get_a_freeblock-Ends calm fresh refl refl refl (omega arith)

known : find_inode 2 (table fresh) ≡ some d1_inode
unfolding find_inode slots read_inode format load64 store64 load from_le store to_le
known = refl

write-WriteEnds_example :
    (w : Wrote) × (s' : Fs) × (write calm d1_inode text 4 fresh ≡ done w s')
    × WriteEnds fresh d1_inode text 4 w s'
write-WriteEnds_example =
    write-WriteEnds calm fresh d1_inode text 4 (omega arith) (omega arith) (omega arith) known refl
      refl refl refl refl refl refl

abbrev read_from : ℕ → Read
read_from p = record { ret = ok 2; bytes = b'I' ∷ b' ' ∷ []; pos = p + 2 }

read_at_0 : read calm d1_inode 2 0 fresh ≡ done (read_from 0) fresh
unfolding read format load store to_le store64
read_at_0 = refl

read_at_5 : read calm d1_inode 2 5 fresh ≡ done (read_from 5) fresh
unfolding read format load store to_le store64
read_at_5 = refl

can_create : CanCreate fresh root_inode log_name 0o100644 5
unfolding find_inode slots read_inode format load64 store64 load from_le store to_le scan scan_from
    test_bit find_record str_eq
can_create = record {
  unlocked = refl;
  room = omega arith;
  kind = refl;
  mode_fits = omega arith;
  block_free = refl;
  word_fits = omega arith;
  parent_fits = omega arith;
  child_fits = omega arith;
  on_block = omega arith;
  data_block = omega arith;
  listed = λ e. cc e;
  number_free = refl;
  name_short = omega arith;
  name_new = refl;
}

create_fs_object-CreateEnds_example :
    (r : Created) × (s' : Fs) × (create_fs_object calm root_inode log_name 0o100644 fresh
      ≡ done r s')
    × CreateEnds calm fresh root_inode log_name 0o100644 5 r s'
create_fs_object-CreateEnds_example =
    create_fs_object-CreateEnds calm fresh root_inode log_name 0o100644 5 (λ c. refl) can_create

-- The root directory with 16 children.
abbrev full_root : Inode
full_root = record root_inode { file_size = 16 }

create_fs_object_overruns_example :
    create_fs_object calm full_root log_name 0o100644 fresh ≡ fault out_of_block
create_fs_object_overruns_example =
    create_fs_object_overruns calm (λ c. refl) full_root log_name (omega arith) fresh 0o100644 5
      refl can_create.room refl can_create.block_free

-- A signal that comes at the second mutex of the addition, and stays.
abbrev signalled : Env
signalled = record {
  fails = λ c. elim c [ add_sb_lock ↦ true | create_mgmt_lock ↦ true | _ ↦ false ];
  copied = 0;
}

format-Mounts_example : Mounts (attach (format blank))
format-Mounts_example = format-Mounts blank

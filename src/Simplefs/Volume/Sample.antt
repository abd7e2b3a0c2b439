-- ===== src/Simplefs/Volume/Sample.antt =====
-- A new file system whose free blocks begin behind those that the formatter used.
use lkm.Prelude.{ℕ, ◌-◌, ◌^◌, ◌≡◌, refl, some, arith}
use lkm.Prelude.Bytes.{Mem, from_le, load, load64, store, store64, to_le}
use lkm.Prelude.Bits.{test_bit}
use lkm.Simplefs.Layout.{read_inode}
use lkm.Simplefs.State.{Fs, update}
use lkm.Simplefs.Inodes.Table.{table, slots, find_inode}
use lkm.Simplefs.Numbers.{numbers, Unique, NotIn, AllBelow}
use lkm.Simplefs.Mount.{attach}
use lkm.Simplefs.Mkfs.{format, root_inode, d1_inode, d2_inode}
use lkm.Simplefs.Volume.{Sound, Taken, blocks_of}

abbrev pub blank : Mem
blank a = 0

abbrev word_set : (ℕ → Mem) → ℕ → Mem
word_set c = update c 0 (store64 (c 0) 24 (2 ^ 64 - 2 ^ 5))

abbrev pub in_use : Fs
in_use =
    let s = attach (format blank) in record s { cache = word_set s.cache; disk = word_set s.disk }

pub in_use-Sound : Sound in_use
unfolding numbers Unique NotIn AllBelow slots read_inode format from_le load load64 store64 store
    to_le blocks_of Taken test_bit
in_use-Sound = record {
  numbered = (
    ((omega arith, (omega arith, tt)), ((omega arith, tt), (tt, tt))),
    (omega arith, (omega arith, (omega arith, tt))),
  );
  apart = ((omega arith, (omega arith, tt)), ((omega arith, tt), (tt, tt)));
  taken = (
    omega arith,
    omega arith,
    refl,
    (omega arith, omega arith, refl, (omega arith, omega arith, refl, tt)),
  );
  word_fits = omega arith;
  synced = λ b. refl;
  unlocked = refl;
}

pub known : find_inode 2 (table in_use) ≡ some d1_inode
unfolding find_inode slots read_inode format load64 store64 load from_le store to_le
known = refl

pub other_known : find_inode 3 (table in_use) ≡ some d2_inode
unfolding find_inode slots read_inode format load64 store64 load from_le store to_le
other_known = refl

pub root_known : find_inode 1 (table in_use) ≡ some root_inode
unfolding find_inode slots read_inode format load64 store64 load from_le store to_le
root_known = refl

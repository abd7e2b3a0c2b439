-- ===== src/Simplefs/Mkfs.antt =====
-- simplefs/mkfs.c: the formatter, on a device that is opened and written without an error (the code
-- looks at no result of `lseek` or `write`).
use lkm.Prelude.{ℕ, ◌+◌, ◌-◌, ◌*◌, ◌^◌, List, [], ◌∷◌, ◌++◌, length, replicate}
use lkm.Prelude.Bytes.{Mem, store, to_le}
use lkm.Simplefs.Layout.{Inode, simplefs_magic, block_size, filename_maxlen, inode_bytes}

-- `block_id` and `inode_id`
abbrev pub b_super_block : ℕ
b_super_block = 0

abbrev pub b_inode : ℕ
b_inode = 1

abbrev pub b_root : ℕ
b_root = 2

abbrev pub b_data1 : ℕ
b_data1 = 3

abbrev pub b_data2 : ℕ
b_data2 = 4

abbrev pub nr_block : ℕ
nr_block = 5

abbrev pub i_root : ℕ
i_root = 1

abbrev pub i_data1 : ℕ
i_data1 = 2

abbrev pub i_data2 : ℕ
i_data2 = 3

abbrev pub nr_inode : ℕ
nr_inode = 4

-- `(~0) & ~(1 << NR_BLOCK)`, an `int` that is extended to 64 bits.
abbrev pub initial_free_blocks : ℕ
initial_free_blocks = 2 ^ 64 - 1 - 2 ^ nr_block

-- The struct, 4064 bytes of zero padding included, at the head of the device.
unfoldable pub write_superblock : Mem → Mem
unfolding store to_le
write_superblock dev = store dev 0 (
    to_le 8 simplefs_magic
    ++ (to_le 8 block_size
        ++ (to_le 8 (nr_inode - 1) ++ (to_le 8 initial_free_blocks ++ replicate 4064 0))))

-- The bytes of an inode struct, whose padding the compiler's initialisers leave at zero.
abbrev pub inode_struct : Inode → List ℕ
inode_struct i =
    to_le 4 i.mode
    ++ (replicate 4 0
        ++ (to_le 8 i.inode_no ++ (to_le 8 i.data_block_number ++ to_le 8 i.file_size)))

unfoldable pub write_inode : Mem → Inode → ℕ → Mem
unfolding store to_le
write_inode dev ino b =
    store dev (b * block_size + (ino.inode_no - 1) * inode_bytes) (inode_struct ino)

unfoldable pub write_block : Mem → List ℕ → ℕ → Mem
unfolding store
write_block dev content b = store dev (b * block_size) content

-- An array of `n` bytes that begins with a text; the rest is zero.
abbrev padded : ℕ → List ℕ → List ℕ
padded n text = text ++ replicate (n - length text) 0

abbrev dir_record : List ℕ → ℕ → List ℕ
dir_record name ino = padded filename_maxlen name ++ to_le 8 ino

-- "Data1" and "Data2"
abbrev pub name1 : List ℕ
name1 = b'D' ∷ b'a' ∷ b't' ∷ b'a' ∷ b'1' ∷ []

abbrev pub name2 : List ℕ
name2 = b'D' ∷ b'a' ∷ b't' ∷ b'a' ∷ b'2' ∷ []

-- "I am Data 1\n" and "I am Data 2\n"
abbrev pub text1 : List ℕ
text1 = b'I' ∷ b' ' ∷ b'a' ∷ b'm' ∷ b' ' ∷ b'D' ∷ b'a' ∷ b't' ∷ b'a' ∷ b' ' ∷ b'1' ∷ 10 ∷ []

abbrev pub text2 : List ℕ
text2 = b'I' ∷ b' ' ∷ b'a' ∷ b'm' ∷ b' ' ∷ b'D' ∷ b'a' ∷ b't' ∷ b'a' ∷ b' ' ∷ b'2' ∷ 10 ∷ []

abbrev pub root_inode : Inode
root_inode = record { mode = 0o40000; inode_no = i_root; data_block_number = b_root; file_size = 2 }

abbrev pub d1_inode : Inode
d1_inode = record {
  mode = 0o100000;
  inode_no = i_data1;
  data_block_number = b_data1;
  file_size = length text1 + 1;
}

abbrev pub d2_inode : Inode
d2_inode = record {
  mode = 0o100000;
  inode_no = i_data2;
  data_block_number = b_data2;
  file_size = length text2 + 1;
}

abbrev pub root_block : List ℕ
root_block = padded block_size (dir_record name1 i_data1 ++ dir_record name2 i_data2)

-- The device after the writes of `main`, in their order.
unfoldable pub format : Mem → Mem
unfolding write_superblock write_inode write_block
format dev =
    let dev = write_superblock dev in
    let dev = write_inode dev root_inode b_inode in
    let dev = write_inode dev d1_inode b_inode in
    let dev = write_inode dev d2_inode b_inode in
    let dev = write_block dev root_block b_root in
    let dev = write_block dev (padded block_size text1) b_data1 in
    write_block dev (padded block_size text2) b_data2

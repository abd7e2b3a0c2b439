-- ===== src/Simplefs/Volume/Refinement/Reads.antt =====
-- simplefs/simple.c: what a read and a listing give, against the tree.
use lkm.Prelude.{
  ℕ, zero, suc, ◌+◌, ◌*◌, ◌≤◌, ◌≡◌, refl, ap, sym, subst, inl, inr, Bool, true, false, some, List,
  [], map, take, min, length, leb, ltb, le→ltb, if◌then◌else◌, Bool-cases, arith,
}
use lkm.Prelude.Bytes.{Mem, load, length-load}
use lkm.Simplefs.Layout.{Inode, s_isdir}
use lkm.Simplefs.State.{Fs, done, ok, Env, read_bread, read_copy, iterate_bread}
use lkm.Simplefs.Inodes.Table.{table, find_inode}
use lkm.Simplefs.Directories.{Listing, iterate, emit_from}
use lkm.Simplefs.Files.{Read, read}
use lkm.Simplefs.Volume.Tree.{Node, file, dir, entries, node_of, node_at, tree}
use lkm.Simplefs.Volume.Refinement.Nodes.{take-load, entry_of, emit_from-entries}

-- A read of `len` bytes at a position: nothing from the end of the file on, and before it as many bytes as
-- there are, from the head of the file.
abbrev pub file_read : List ℕ → ℕ → ℕ → Read
file_read bytes len pos =
    if leb (length bytes) pos
    then record { ret = ok 0; bytes = []; pos = pos }
    else (let n = min (length bytes) len in
        record { ret = ok n; bytes = take n bytes; pos = pos + n })

-- The node is within a block.
unfoldable pub Small : Node → Type 0
Small (file bytes) = length bytes ≤ 4096
Small (dir es) = length es ≤ 16

-- What an inode with this node gives.
unfoldable pub Answers : Env → Fs → Inode → ℕ → ℕ → Node → Type 0
Answers env s i len pos (file bytes) = read env i len pos s ≡ done (file_read bytes len pos) s
Answers env s i len pos (dir es) =
    (l : Listing) × (iterate env i 0 s ≡ done l s)
    × (l.ret ≡ ok tt)
    × (map entry_of l.entries ≡ es)
    × (l.pos ≡ 256 * length es)

pub length-entries : (m : Mem) (k n : ℕ) → length (entries m k n) ≡ n
unfolding entries
length-entries m k zero = refl
length-entries m k (suc n) = omega (arith, length-entries m (k + 1) n)

module _ (env : Env) (s : Fs) (i : Inode) (len pos : ℕ) (q₁ : env.fails read_bread ≡ false)
    (q₂ : env.fails read_copy ≡ false) (q₃ : env.fails iterate_bread ≡ false) where
  abbrev block : Mem
  block = s.cache i.data_block_number

  reads_file :
      i.file_size ≤ 4096
      → read env i len pos s ≡ done (file_read (load block 0 i.file_size) len pos) s
  unfolding read
  reads_file small =
      let n = length-load block 0 i.file_size in
      let w : ltb 4096 (min i.file_size len) ≡ false = le→ltb 4096 _ (omega arith) in
      elim (Bool-cases (leb i.file_size pos)) [
        | inl beyond ↦ rw (n, beyond) refl
        | inr before ↦
            rw
              (
                n,
                before,
                q₁,
                q₂,
                w,
                take-load block 0 i.file_size (min i.file_size len) (omega arith),
              )
              refl
      ]

  lists_dir :
      s_isdir i.mode ≡ true
      → i.file_size ≤ 16
      → iterate env i 0 s
        ≡ done
            (record {
              ret = ok tt;
              entries = emit_from block 0 i.file_size;
              pos = 0 + 256 * i.file_size;
            })
            s
  unfolding iterate
  lists_dir d small =
      let w : ltb 4096 (256 * i.file_size) ≡ false = le→ltb 4096 _ (omega arith) in ground arith

  answers :
      (b : Bool)
      → s_isdir i.mode ≡ b
      → Small (if b then dir (entries block 0 i.file_size) else file (load block 0 i.file_size))
      → Answers env s i len pos
          (if b then dir (entries block 0 i.file_size) else file (load block 0 i.file_size))
  unfolding Small Answers
  answers true d small =
      let n = length-entries block 0 i.file_size in
      (
        _,
        lists_dir d (omega (arith, n)),
        refl,
        emit_from-entries block i.file_size,
        omega (arith, n),
      )
  answers false d small = reads_file (omega (arith, length-load block 0 i.file_size))

-- With no failing read or copy, in every state, what an inode of the store gives is a function of
-- its node in the tree of files and directories, when the node is within a block: a file gives
-- nothing from its end on, and before it, at every position, the bytes at its head, as many as
-- were asked for and as there are; a directory gives, for each of its slots of 256 bytes in
-- order, the name up to its NUL and the number in the last 8 bytes, and moves the position behind
-- the last slot.
pub reads-tree :
    (env : Env) (s : Fs) (n : ℕ) (i : Inode) (node : Node) (len pos : ℕ)
    → find_inode n (table s) ≡ some i
    → tree s n ≡ some node
    → Small node
    → env.fails read_bread ≡ false
    → env.fails read_copy ≡ false
    → env.fails iterate_bread ≡ false
    → Answers env s i len pos node
unfolding node_of
reads-tree env s n i node len pos known e small q₁ q₂ q₃ =
    let at : node_of (s.cache i.data_block_number) i ≡ node = cc (e, ap (node_at s) known) in
    subst (Answers env s i len pos) at
      (answers env s i len pos q₁ q₂ q₃ (s_isdir i.mode) refl (subst Small (sym at) small))

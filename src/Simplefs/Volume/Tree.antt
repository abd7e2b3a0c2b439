-- ===== src/Simplefs/Volume/Tree.antt =====
-- simplefs/: what a file system is to its users, and what a creation and a write do to it.
use lkm.Prelude.{
  zero, suc, ◌*◌, ℕ, ◌+◌, ◌≤◌, ◌≡◌, Bool, Option, none, some, List, [], ◌∷◌, ◌++◌, take, length,
  put, ◌==◌, if◌then◌else◌,
}
use lkm.Prelude.Bytes.{Mem, load, load64}
use lkm.Simplefs.Layout.{Inode, s_isdir}
use lkm.Simplefs.State.{Fs}
use lkm.Simplefs.Inodes.Table.{table, find_inode}
use lkm.Simplefs.Volume.{Step, creates, writes, Runs, begins, steps, mounts}

-- A file is its bytes; a directory has names with their numbers, in the order of their creation.
pub data Node : Type 0 where
  file : List ℕ → Node
  dir : List (List ℕ × ℕ) → Node

-- The nodes by their numbers.
abbrev pub Tree : Type 0
Tree = ℕ → Option Node

abbrev pub empty : Bool → Node
empty is_dir = if is_dir then dir [] else file []

-- A creation in the directory of a number, of a name, as a directory or a file; and a write to the file
-- of a number, at a position.
pub data Call : Type 0 where
  creation : ℕ → List ℕ → Bool → Call
  writing : ℕ → ℕ → List ℕ → Call

-- A creation makes an empty file or directory of a new number, and puts its name behind the others of
-- the directory. A write keeps what stands before its position, and ends the file with its bytes; where
-- it begins behind the end, the values of the bytes that come between are not said.
pub data TreeStep (f : Tree) : Call → Tree → Type 0 where
  makes :
      (d new : ℕ) (es : List (List ℕ × ℕ)) (name : List ℕ) (is_dir : Bool)
      → f d ≡ some (dir es)
      → f new ≡ none
      → TreeStep f
          (creation d name is_dir)
          (put (put f new (some (empty is_dir))) d (some (dir (es ++ ((name, new) ∷ [])))))
  overwrites :
      (n pos : ℕ) (bytes buf : List ℕ)
      → f n ≡ some (file bytes)
      → pos ≤ length bytes
      → TreeStep f (writing n pos buf) (put f n (some (file (take pos bytes ++ buf))))
  extends :
      (n pos : ℕ) (bytes gap buf : List ℕ)
      → f n ≡ some (file bytes)
      → length bytes + length gap ≡ pos
      → TreeStep f (writing n pos buf) (put f n (some (file (bytes ++ (gap ++ buf)))))

-- Any number of calls, the last one first.
pub data TreeRuns (f : Tree) : List Call → Tree → Type 0 where
  same : TreeRuns f [] f
  then_step :
      {cs : List Call} {c : Call} {g h : Tree}
      → TreeRuns f cs g
      → TreeStep g c h
      → TreeRuns f (c ∷ cs) h

-- A name without its NUL and what stands behind it.
unfoldable pub up_to_nul : List ℕ → List ℕ
up_to_nul [] = []
up_to_nul (c ∷ cs) = let rest = up_to_nul cs in if c == 0 then [] else c ∷ rest

-- The entry in a slot of a directory's block: 248 bytes of the name, and the number behind them.
unfoldable pub entry_at : Mem → ℕ → List ℕ × ℕ
unfolding up_to_nul
entry_at m k = (up_to_nul (load m (256 * k) 248), load64 m (256 * k + 248))

-- The entries of `n` slots from one on.
unfoldable pub entries : Mem → ℕ → ℕ → List (List ℕ × ℕ)
entries m k zero = []
entries m k (suc n) = entry_at m k ∷ entries m (k + 1) n

-- The node of an inode with this block.
unfoldable pub node_of : Mem → Inode → Node
node_of m i = if s_isdir i.mode then dir (entries m 0 i.file_size) else file (load m 0 i.file_size)

abbrev pub node_at : Fs → Option Inode → Option Node
node_at s none = none
node_at s (some i) = some (node_of (s.cache i.data_block_number) i)

-- The tree that a file system stands for.
abbrev pub tree : Fs → Tree
tree s n = node_at s (find_inode n (table s))

-- The calls of a file system in use, the last one first. A mount is none.
unfoldable pub call_of : {s t : Fs} {n : ℕ} → Step s n t → Call
call_of {n = n} (creates env parent name mode k r t quiet known d nul can e) =
    creation n name (s_isdir mode)
call_of {n = n} (writes env inode buf ppos w t quiet known f fits small e) = writing n ppos buf

unfoldable pub calls_of : {Allowed : ℕ → Type 0} {s t : Fs} → Runs Allowed s t → List Call
calls_of begins = []
calls_of (steps run a st) = call_of st ∷ calls_of run
calls_of (mounts run) = calls_of run

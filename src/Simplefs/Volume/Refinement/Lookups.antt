-- ===== src/Simplefs/Volume/Refinement/Lookups.antt =====
-- simplefs/simple.c, `simplefs_lookup`: a name, against the tree.
use lkm.Prelude.{
  ℕ, zero, suc, ◌+◌, ◌<◌, ◌≤◌, min, ◌≡◌, refl, ap, ◌∙◌, Bool, true, false, ◌&&◌, Option, none, some,
  List, [], ◌∷◌, map, length, NoNul, ◌==◌, if◌then◌else◌, inl, inr, Bool-cases, Option-cases, arith,
}
use lkm.Prelude.Bytes.{Mem, load}
use lkm.Simplefs.Layout.{Inode, s_isdir}
use lkm.Simplefs.State.{
  Fs, Run, done, fault, null_pointer, Env, get_bread, get_alloc, lookup_bread, iget_new_inode,
}
use lkm.Simplefs.Inodes.Table.{table, find_inode}
use lkm.Simplefs.Inodes.Effects.{get_inode-eq-find}
use lkm.Simplefs.Directories.{VfsInode, str_eq, find_record, emit_from, as_int, iget, lookup}
use lkm.Simplefs.Directories.Creation.{Quiet, vfs_of}
use lkm.Simplefs.Directories.Lookup.{lookup-first}
use lkm.Simplefs.Volume.Blocks.{find_inode-number}
use lkm.Simplefs.Volume.Refinement.Nodes.{entry_of, emit_from-entries}
use lkm.Simplefs.Volume.Refinement.Reads.{length-entries}
use lkm.Simplefs.Volume.Tree.{dir, entries, up_to_nul, node_of, node_at, tree}

unfoldable pub same_name : List ℕ → List ℕ → Bool
same_name [] [] = true
same_name [] (c ∷ cs) = false
same_name (x ∷ xs) [] = false
same_name (x ∷ xs) (c ∷ cs) = x == c && same_name xs cs

-- The number of the first entry with the name.
unfoldable pub number_of : List ℕ → List (List ℕ × ℕ) → Option ℕ
number_of name [] = none
number_of name (x ∷ xs) =
    let rest = number_of name xs in if same_name (x.0) name then some (x.1) else rest

-- What a lookup gives of a number: without one the dentry is given no inode, and a number that the
-- store does not have is the NULL that `simplefs_iget` follows.
abbrev of_stored : Fs → Option Inode → Run (Option VfsInode)
of_stored s none = fault null_pointer
of_stored s (some j) = done (some (vfs_of j)) s

abbrev pub of_number : Fs → Option ℕ → Run (Option VfsInode)
of_number s none = done none s
of_number s (some k) = of_stored s (find_inode (as_int k) (table s))

str_eq-same_name :
    (m : Mem) (p k : ℕ) (name : List ℕ)
    → NoNul name
    → length name < k
    → str_eq m p name ≡ same_name (up_to_nul (load m p k)) name
unfolding str_eq same_name up_to_nul load
str_eq-same_name m p zero name h short = absurd (omega arith)
str_eq-same_name m p (suc k) [] h short = elim (Bool-cases (m p == 0)) [
  | inl nul ↦ rw nul refl
  | inr other ↦ rw other refl
]
str_eq-same_name m p (suc k) (c ∷ cs) (d, h) short = elim (Bool-cases (m p == 0)) [
  | inl nul ↦ let e : m p == c ≡ false = ground arith in rw (nul, e) refl
  | inr other ↦ rw other (ap (λ b. m p == c && b) (str_eq-same_name m (p + 1) k cs h (omega arith)))
]

find_record-number_of :
    (m : Mem) (p n : ℕ) (name : List ℕ)
    → NoNul name
    → length name < 248
    → find_record m p name n ≡ number_of name (map entry_of (emit_from m p n))
unfolding find_record number_of emit_from
find_record-number_of m p zero name h short = refl
find_record-number_of m p (suc n) name h short =
    rw (str_eq-same_name m p 248 name h short, find_record-number_of m (p + 256) n name h short)
      refl

module _ (env : Env) (quiet : Quiet env) (s : Fs) (i : Inode) (name : List ℕ) where
  lookup-of_number :
      (x : Option ℕ)
      → find_record (s.cache i.data_block_number) 0 name i.file_size ≡ x
      → i.file_size ≤ 16
      → lookup env i name s ≡ of_number s x
  unfolding lookup iget
  lookup-of_number none e small =
      let whole : min i.file_size 16 ≡ i.file_size = omega arith in
      ground (arith, quiet lookup_bread, e)
  lookup-of_number (some k) e small =
      let whole : min i.file_size 16 ≡ i.file_size = omega arith in
      let first = ap (find_record (s.cache i.data_block_number) 0 name) whole ∙ e in
      elim (Option-cases (find_inode (as_int k) (table s))) [
        | inl missing ↦ rw missing (
            ground (
              arith,
              quiet lookup_bread,
              quiet iget_new_inode,
              get_inode-eq-find env s (as_int k) (quiet get_bread) (quiet get_alloc),
            ))
        | inr (j, e') ↦ rw e' (
            lookup-first env quiet s i name k j first e'
              (find_inode-number (as_int k) (table s) j e'))
      ]

-- In every state, an undisturbed lookup in a directory of the store with at most 16 children, of
-- a name of fewer than 248 bytes without a NUL, gives the inode of the number of the first entry
-- with this name in the tree, the number taken as an int; the dentry gets none when there is no
-- such entry, and a NULL pointer is followed when the store has no inode of that number.
pub lookup-tree :
    (env : Env) (s : Fs) (n : ℕ) (i : Inode) (es : List (List ℕ × ℕ)) (name : List ℕ)
    → Quiet env
    → find_inode n (table s) ≡ some i
    → s_isdir i.mode ≡ true
    → tree s n ≡ some (dir es)
    → length es ≤ 16
    → NoNul name
    → length name < 248
    → lookup env i name s ≡ of_number s (number_of name es)
unfolding node_of
lookup-tree env s n i es name quiet known is_dir e few h short =
    let at : node_of (s.cache i.data_block_number) i ≡ dir es = cc (e, ap (node_at s) known) in
    let listed = entries (s.cache i.data_block_number) 0 i.file_size in
    let is_list : node_of (s.cache i.data_block_number) i ≡ dir listed = rw is_dir refl in
    let es_eq : listed ≡ es = cc (at, is_list) in
    lookup-of_number env quiet s i name (number_of name es)
      (find_record-number_of (s.cache i.data_block_number) 0 i.file_size name h short
        ∙ ap (number_of name) (emit_from-entries (s.cache i.data_block_number) i.file_size ∙ es_eq))
      (omega (arith, length-entries (s.cache i.data_block_number) 0 i.file_size, ap length es_eq))

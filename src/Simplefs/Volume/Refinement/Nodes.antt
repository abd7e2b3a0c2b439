-- ===== src/Simplefs/Volume/Refinement/Nodes.antt =====
-- simplefs/simple.c: the node of an inode, as its block changes.
use lkm.Prelude.{
  NoNul, ℕ, zero, suc, ◌+◌, ◌*◌, ◌^◌, ◌≤◌, ◌<◌, ◌≡◌, refl, ap, ap₂, sym, ◌∙◌, inl, inr, true, false,
  some, List, [], ◌∷◌, ◌++◌, map, take, length, Option-cases, arith,
}
use lkm.Prelude.Bytes.{Mem, load, load64, store, load-append, load-store_self, load-store_ne}
use mathlib.Core.List.{map-append}
use lkm.Simplefs.Layout.{Inode, s_isdir, s_isreg}
use lkm.Simplefs.State.{Fs}
use lkm.Simplefs.Inodes.Table.{table, find_inode}
use lkm.Simplefs.Directories.{emit_from}
use lkm.Simplefs.Directories.Entries.{emit_from-with_record}
use lkm.Simplefs.Directories.Records.{with_record}
use lkm.Simplefs.Files.Contents.{resize}
use lkm.Simplefs.Volume.Tree.{file, dir, up_to_nul, entry_at, entries, node_of, node_at, tree}

up_to_nul-append : (name rest : List ℕ) → NoNul name → up_to_nul ((name ++ 0 ∷ []) ++ rest) ≡ name
unfolding up_to_nul
up_to_nul-append [] rest h = refl
up_to_nul-append (c ∷ cs) rest (d, h) = ground (arith, up_to_nul-append cs rest h)

pub take-load : (m : Mem) (p n k : ℕ) → k ≤ n → take k (load m p n) ≡ load m p k
unfolding load
take-load m p n zero h = refl
take-load m p zero (suc k) h = absurd (omega arith)
take-load m p (suc n) (suc k) h = ap (λ l. m p ∷ l) (take-load m (p + 1) n k (omega arith))

-- What a listing emits, with its names up to their NULs.
abbrev pub entry_of : List ℕ × ℕ → List ℕ × ℕ
entry_of x = (up_to_nul (x.0), x.1)

emit_from-entries_at :
    (m : Mem) (k n p : ℕ) → p ≡ 256 * k → map entry_of (emit_from m p n) ≡ entries m k n
unfolding emit_from entries entry_at
emit_from-entries_at m k zero p e = refl
emit_from-entries_at m k (suc n) p e =
    ap₂ ◌∷◌ (ap (λ q. (up_to_nul (load m q 248), load64 m (q + 248))) e)
      (emit_from-entries_at m (k + 1) n (p + 256) (omega (arith, e)))

pub emit_from-entries : (m : Mem) (n : ℕ) → map entry_of (emit_from m 0 n) ≡ entries m 0 n
emit_from-entries m n = emit_from-entries_at m 0 n 0 (omega arith)

-- A directory with one more record.
pub node_of-with_record :
    (m : Mem) (i : Inode) (ino : ℕ) (name : List ℕ)
    → s_isdir i.mode ≡ true
    → NoNul name
    → length name < 248
    → ino < 2 ^ 64
    → node_of
        (with_record m (256 * i.file_size) ino name)
        (record i { file_size = i.file_size + 1 })
      ≡ dir (entries m 0 i.file_size ++ ((name, ino) ∷ []))
unfolding node_of
node_of-with_record m i ino name d h short small =
    let (rest, e) =
      emit_from-with_record m 0 i.file_size (256 * i.file_size) ino name (omega arith) short
        small in
    let one : i.file_size + 1 ≡ suc i.file_size = omega arith in
    rw d (
      ap dir
        (sym (emit_from-entries (with_record m (256 * i.file_size) ino name) (i.file_size + 1)))
      ∙ ap (λ es. dir (map entry_of es))
          (ap (emit_from (with_record m (256 * i.file_size) ino name) 0) one ∙ e)
      ∙ ap dir (map-append entry_of (emit_from m 0 i.file_size) _)
      ∙ ap (λ x. dir (map entry_of (emit_from m 0 i.file_size) ++ ((x, ino) ∷ [])))
          (up_to_nul-append name rest h)
      ∙ ap (λ es. dir (es ++ ((name, ino) ∷ []))) (emit_from-entries m i.file_size))

-- A file that has been written.
pub node_of-store :
    (m : Mem) (i : Inode) (pos : ℕ) (buf : List ℕ)
    → s_isdir i.mode ≡ false
    → node_of (store m pos buf) (resize i (pos + length buf)) ≡ file (load m 0 pos ++ buf)
unfolding node_of
node_of-store m i pos buf d =
    let z : 0 + pos ≡ pos = omega arith in
    rw d (
      ap file (
        load-append (store m pos buf) 0 pos (length buf)
        ∙ ap₂ ◌++◌ (load-store_ne m pos buf 0 pos (inl (omega arith)))
            (ap (λ p. load (store m pos buf) p (length buf)) z ∙ load-store_self m pos buf)))

pub not_dir : (mode : ℕ) → s_isreg mode ≡ true → s_isdir mode ≡ false
not_dir mode f = ground arith

-- The node of an inode that a step leaves alone.
pub node_kept :
    (s t : Fs) (m : ℕ)
    → find_inode m (table t) ≡ find_inode m (table s)
    → ((i : Inode)
        → find_inode m (table s) ≡ some i
        → t.cache i.data_block_number ≡ s.cache i.data_block_number)
    → tree t m ≡ tree s m
node_kept s t m e h = elim (Option-cases (find_inode m (table s))) [
  | inl z ↦ ap (node_at t) (e ∙ z) ∙ sym (ap (node_at s) z)
  | inr (i, z) ↦
      ap (node_at t) (e ∙ z) ∙ ap (λ c. some (node_of c i)) (h i z) ∙ sym (ap (node_at s) z)
]

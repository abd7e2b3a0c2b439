-- ===== src/Simplefs/Directories/Lookup.antt =====
-- simplefs/simple.c: `simplefs_lookup` of a name that `simplefs_create_fs_object` has just made.
use lkm.Prelude.{
  min, ◌≤◌, ◌%◌, ℕ, suc, ◌+◌, ◌-◌, ◌*◌, ◌%◌, ◌^◌, ◌≡◌, ◌≢◌, refl, ap, ap₂, sym, ◌∙◌, ◌<◌, ◌⊎◌, inl,
  inr, true, false, ◌==◌, ==→eq, Bool-cases, subst, none, some, List, [], ◌∷◌, ◌++◌, arith,
}
use lkm.Prelude.Bytes.{load64}
use lkm.Simplefs.Layout.{Inode}
use lkm.Simplefs.Layout.Laws.{Fits}
use lkm.Simplefs.State.{
  Fs, Run, done, fault, Result, ok, err, Env, none_held, update_ne, update_self, inodes_count,
  free_blocks, get_bread, get_alloc, iget_new_inode, lookup_bread, save_bread, save_lock,
}
use lkm.Simplefs.Super.Blocks.{Marked, marked_state-Marked, Scanned, scan-Scanned}
use lkm.Simplefs.Inodes.{inode_save}
use lkm.Simplefs.Inodes.Table.{
  slots, table, find_inode, replace_inode, find_inode-append_new, find_inode-append_old,
  find_inode-replace_ne,
}
use lkm.Simplefs.Inodes.Effects.{
  Added, added_state, added_state-Added, Saved, SaveEnds, inode_save-SaveEnds, get_inode-eq-find,
}
use lkm.Simplefs.Directories.{Created, find_record, as_int, iget, lookup, create_fs_object}
use lkm.Simplefs.Directories.Records.{with_record, find_record-with_record}
use lkm.Simplefs.Directories.Creation.{
  Quiet, with_locks, one_more, vfs_of, named_state, new_inode, block_state, create_fs_object-done,
}
use lkm.Simplefs.Directories.Contract.{CanCreate, file_inode, CreateEnds}

pub as_int-small : (n : ℕ) → n < 2 ^ 31 → as_int n ≡ n
unfolding as_int
as_int-small n lt = ground arith

module _ (env : Env) (quiet : Quiet env) where
  -- A record with a number that is in the store, as an `int`, gives that inode.
  pub lookup-first :
      (s : Fs) (parent : Inode) (name : List ℕ) (ino : ℕ) (i : Inode)
      → find_record (s.cache parent.data_block_number) 0 name (min parent.file_size 16) ≡ some ino
      → find_inode (as_int ino) (table s) ≡ some i
      → i.inode_no ≡ as_int ino
      → lookup env parent name s ≡ done (some (vfs_of i)) s
  unfolding lookup iget
  lookup-first s parent name ino i e h same = ground (
    arith,
    quiet lookup_bread,
    quiet iget_new_inode,
    get_inode-eq-find env s (as_int ino) (quiet get_bread) (quiet get_alloc),
  )

  pub lookup-found :
      (s : Fs) (parent : Inode) (name : List ℕ) (ino : ℕ) (i : Inode)
      → parent.file_size ≤ 16
      → ino < 2 ^ 31
      → find_record (s.cache parent.data_block_number) 0 name parent.file_size ≡ some ino
      → find_inode ino (table s) ≡ some i
      → i.inode_no ≡ ino
      → lookup env parent name s ≡ done (some (vfs_of i)) s
  lookup-found s parent name ino i small int e h same =
      let whole : min parent.file_size 16 ≡ parent.file_size = omega arith in
      let number = as_int-small ino int in
      lookup-first s parent name ino i
        (ap (find_record (s.cache parent.data_block_number) 0 name) whole ∙ e)
        (ap (λ n. find_inode n (table s)) number ∙ h) (same ∙ sym number)

module _ (s : Fs) (parent : Inode) (name : List ℕ) (mode k : ℕ)
    (can : CanCreate s parent name mode k) where
  abbrev i : Inode
  i = file_inode s mode k

  abbrev s₂ : Fs
  s₂ = block_state s k

  abbrev s₃ : Fs
  s₃ = added_state s₂ i

  abbrev s₄ : Fs
  s₄ = named_state s₃ parent name i.inode_no

  new_inode-eq : new_inode mode (inodes_count s) k ≡ i
  new_inode-eq =
      let e : (inodes_count s + 10 - 3 + 1) % 2 ^ 64 ≡ inodes_count s + 8 =
        omega (arith, can.room) in
      ap (λ ino. record { mode = mode; inode_no = ino; data_block_number = k; file_size = 0 }) e

  parent-eq : one_more parent ≡ record parent { file_size = parent.file_size + 1 }
  parent-eq =
      let e : (parent.file_size + 1) % 2 ^ 64 ≡ parent.file_size + 1 =
        omega (arith, can.child_fits) in
      ap (λ n. record parent { file_size = n }) e

  marked : Marked (with_locks s (record none_held { holds_children = true })) k s₂
  marked =
      marked_state-Marked (with_locks s (record none_held { holds_children = true })) k
        can.word_fits
        (subst (Scanned (free_blocks s) 2) can.block_free (scan-Scanned (free_blocks s)))

  added : Added s₂ i s₃
  added =
      added_state-Added s₂ i
        (record {
          mode_fits = can.mode_fits;
          no_fits = omega (arith, can.room);
          block_fits = omega (arith, marked.in_range);
          size_fits = omega arith;
        })
        (omega (arith, can.room, marked.count))

  table-marked : table s₂ ≡ table s
  table-marked = ap₂ (λ m n. slots m 0 n) (marked.blocks 1 (omega arith)).0 marked.count

  table-named : table s₄ ≡ table s ++ (i ∷ [])
  table-named =
      ap₂ (λ store sb. slots store 0 (load64 sb 16))
        (update_ne s₃.cache parent.data_block_number _ 1 (omega (arith, can.data_block)))
        (update_ne s₃.cache parent.data_block_number _ 0 (omega (arith, can.data_block)))
      ∙ added.appended
      ∙ ap (λ t. t ++ (i ∷ [])) table-marked

  block-named :
      s₄.cache parent.data_block_number
      ≡ with_record (s.cache parent.data_block_number) (256 * parent.file_size) i.inode_no name
  block-named =
      update_self s₃.cache parent.data_block_number _
      ∙ ap (λ m. with_record m (256 * parent.file_size) i.inode_no name)
          ((added.blocks parent.data_block_number can.data_block).0
            ∙ (marked.blocks parent.data_block_number (omega (arith, can.data_block))).0)

  others_kept : (b : ℕ) → 1 < b → b ≢ parent.data_block_number → s₄.cache b ≡ s.cache b
  others_kept b above other =
      update_ne s₃.cache parent.data_block_number _ b (λ e. other (sym e))
      ∙ (added.blocks b above).0
      ∙ (marked.blocks b (omega arith)).0

  -- The inode store is not on the device before the directory's inode is saved.
  named_synced :
      ((b : ℕ) → s.disk b ≡ s.cache b)
      → (b : ℕ) → b ≢ 1
      → (b == parent.data_block_number ≡ true) ⊎ (b == parent.data_block_number ≡ false)
      → (b == 0 ≡ true) ⊎ (b == 0 ≡ false)
      → s₄.disk b ≡ s₄.cache b
  named_synced h b store (inl dir) z =
      subst (λ b. s₄.disk b ≡ s₄.cache b) (sym (==→eq b _ dir))
        (update_self s₃.disk parent.data_block_number _
          ∙ sym (update_self s₃.cache parent.data_block_number _))
  named_synced h b store (inr other) z =
      let ne : parent.data_block_number ≢ b = λ e. ground arith in
      update_ne s₃.disk parent.data_block_number _ b ne
      ∙ below z
      ∙ sym (update_ne s₃.cache parent.data_block_number _ b ne)
    where
      below : (b == 0 ≡ true) ⊎ (b == 0 ≡ false) → s₃.disk b ≡ s₃.cache b
      below (inl sb) = subst (λ b. s₃.disk b ≡ s₃.cache b) (sym (==→eq b 0 sb)) added.synced
      below (inr file) =
          let above : 1 < b = ground arith in
          let (c, d) = added.blocks b above in
          let (c', d') = marked.blocks b (omega arith) in d ∙ d' ∙ h b ∙ sym c' ∙ sym c

  abbrev parent' : Inode
  parent' = record parent { file_size = parent.file_size + 1 }

  number-ne : parent.inode_no ≢ i.inode_no
  number-ne e = can.listed (ap (λ ino. find_inode ino (table s)) e ∙ can.number_free)

  found_in_store : find_inode i.inode_no (replace_inode parent' (table s ++ (i ∷ []))) ≡ some i
  found_in_store =
      find_inode-replace_ne (table s ++ (i ∷ [])) parent' i.inode_no (λ e. number-ne (sym e))
      ∙ find_inode-append_new (table s) i can.number_free

  found_in_block :
      find_record (s₄.cache parent.data_block_number) 0 name (parent.file_size + 1)
      ≡ some i.inode_no
  found_in_block =
      let e : parent.file_size + 1 ≡ suc parent.file_size = omega arith in
      ap₂ (λ m n. find_record m 0 name n) block-named e
      ∙ find_record-with_record (s.cache parent.data_block_number) 0 name parent.file_size
          (256 * parent.file_size) i.inode_no (omega arith) can.name_short (omega (arith, can.room))
          can.name_new

  parent_in_store : find_inode parent.inode_no (table s₄) ≢ none
  parent_in_store e = can.listed (
      sym (
        ap (find_inode parent.inode_no) table-named
        ∙ find_inode-append_old (table s) i parent.inode_no number-ne)
      ∙ e)

  module _ (env : Env) (quiet : Quiet env) where
    finish_creation :
        (s₅ : Fs)
        → Saved s₄ parent' s₅
        → CreateEnds env s parent name mode k
            (record { ret = ok tt; parent = parent'; dentry = some (vfs_of i) })
            (with_locks s₅ none_held)
    finish_creation s₅ v = record {
      returned = refl;
      grown = refl;
      dentry = refl;
      stored = stored;
      looked_up =
          lookup-found env quiet (with_locks s₅ none_held) parent' name i.inode_no i
            (omega (arith, can.on_block)) (omega (arith, can.room))
            (ap (λ m. find_record m 0 name (parent.file_size + 1))
                (v.blocks parent.data_block_number (omega (arith, can.data_block))).0
              ∙ found_in_block)
            (ap (find_inode i.inode_no) stored ∙ found_in_store) refl;
      named = (v.blocks parent.data_block_number (omega (arith, can.data_block))).0 ∙ block-named;
      marks =
          ap (λ m. load64 m 24) (v.blocks 0 (omega arith)).0
          ∙ ap (λ m. load64 m 24)
              (update_ne s₃.cache parent.data_block_number _ 0 (omega (arith, can.data_block)))
          ∙ added.free_word
          ∙ marked.word;
      blocks = λ b above other. (v.blocks b (omega arith)).0 ∙ others_kept b above other;
      synced = λ h b.
          synced_at h b (Bool-cases (b == 1)) (Bool-cases (b == parent.data_block_number))
            (Bool-cases (b == 0));
      locks = refl;
    }
      where
        synced_at :
            ((b : ℕ) → s.disk b ≡ s.cache b)
            → (b : ℕ) → (b == 1 ≡ true) ⊎ (b == 1 ≡ false)
            → (b == parent.data_block_number ≡ true) ⊎ (b == parent.data_block_number ≡ false)
            → (b == 0 ≡ true) ⊎ (b == 0 ≡ false)
            → s₅.disk b ≡ s₅.cache b
        synced_at h b (inl store) y z =
            subst (λ b. s₅.disk b ≡ s₅.cache b) (sym (==→eq b 1 store)) v.synced
        synced_at h b (inr other) y z =
            let (c, d) = v.blocks b (λ e. ground arith) in
            d ∙ named_synced h b (λ e. ground arith) y z ∙ sym c

        stored : table (with_locks s₅ none_held) ≡ replace_inode parent' (table s ++ (i ∷ []))
        stored = v.replaced ∙ ap (replace_inode parent') table-named

    parent-Fits' : Fits parent'
    parent-Fits' = record {
      mode_fits = can.parent_fits.mode_fits;
      no_fits = can.parent_fits.no_fits;
      block_fits = can.parent_fits.block_fits;
      size_fits = can.child_fits;
    }

    created :
        (s₅ : Fs)
        → inode_save env parent' s₄ ≡ done (ok tt) s₅
        → s₅.locks ≡ record none_held { holds_children = true; holds_inodes_mgmt = true }
        → create_fs_object env parent name mode s
          ≡ done
              (record { ret = ok tt; parent = parent'; dentry = some (vfs_of i) })
              (with_locks s₅ none_held)
    created s₅ e l =
        create_fs_object-done env quiet parent name can.on_block s s₅ mode k can.unlocked can.room
          can.kind can.block_free
          (ap₂
              (λ p j.
                inode_save env p
                  (named_state (added_state (block_state s k) j) parent name j.inode_no))
              parent-eq new_inode-eq
            ∙ e)
          l
        ∙ ap₂
            (λ p j.
              done (record { ret = ok tt; parent = p; dentry = some (vfs_of j) })
                (with_locks s₅ none_held))
            parent-eq new_inode-eq

    by_save :
        (x : Run (Result (Unit {0})))
        → inode_save env parent' s₄ ≡ x
        → SaveEnds s₄ parent' x
        → (r : Created) × (s' : Fs) × (create_fs_object env parent name mode s ≡ done r s')
          × CreateEnds env s parent name mode k r s'
    unfolding SaveEnds
    by_save (done (ok _) s₅) e v = (_, _, created s₅ e v.locks, finish_creation s₅ v)
    by_save (done (err x) s₅) e v = absurd (parent_in_store v.1)
    by_save (fault x) e v = absurd v

    ends :
        (r : Created) × (s' : Fs) × (create_fs_object env parent name mode s ≡ done r s')
        × CreateEnds env s parent name mode k r s'
    ends =
        by_save (inode_save env parent' s₄) refl (
          inode_save-SaveEnds env s₄ parent' parent-Fits' (quiet save_bread) (quiet save_lock) refl)

-- A creation with no signal and no failure goes through when no mutex is held, an inode and a
-- block are free, the directory's inode is in the store and its block has room for a record, the
-- mode is one of a file or a directory, the number that comes next is not in use, and the name is
-- new in the directory and has fewer than 248 bytes: the directory has one more child, the new
-- inode is the last of the inode store and is given to the dentry, a lookup of the name finds it,
-- and no mutex is held.
pub create_fs_object-CreateEnds :
    (env : Env) (s : Fs) (parent : Inode) (name : List ℕ) (mode k : ℕ)
    → Quiet env
    → CanCreate s parent name mode k
    → (r : Created) × (s' : Fs) × (create_fs_object env parent name mode s ≡ done r s')
      × CreateEnds env s parent name mode k r s'
create_fs_object-CreateEnds env s parent name mode k quiet can =
    ends s parent name mode k can env quiet

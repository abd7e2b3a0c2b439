-- ===== src/Simplefs/Inodes/Effects.antt =====
-- simplefs/simple.c: `simplefs_get_inode`, `simplefs_inode_add` and `simplefs_inode_save` against the
-- list of inodes.
use lkm.Prelude.{
  ℕ, suc, ◌+◌, ◌*◌, ◌%◌, ◌^◌, ◌<◌, ◌≡◌, ◌≢◌, refl, ap, ◌∙◌, inl, inr, true, false, none, some, [],
  ◌∷◌, ◌++◌, arith, Option-cases,
}
use lkm.Prelude.Bytes.{store64, load64-store64_self, load64-store64_ne}
use lkm.Simplefs.Layout.{Inode, write_inode}
use lkm.Simplefs.Layout.Laws.{Fits}
use lkm.Simplefs.State.{
  Fs, Run, done, fault, eio, Result, ok, err, Env, update, inodes_count, free_blocks, sync_bread,
  add_mgmt_lock, add_bread, add_sb_lock, get_bread, get_alloc, save_bread, save_lock,
}
use lkm.Simplefs.Inodes.{inode_store, inode_search, inode_add, get_inode, inode_save}
use lkm.Simplefs.Inodes.Table.{
  slots, table, find_inode, replace_inode, slots-write_last, slots-write_found, get_from-eq-find,
  search_from-none,
}

-- With no failing read or allocation, a lookup by number gives the first inode of the list that has
-- the number, if any, and changes nothing.
pub get_inode-eq-find :
    (env : Env) (s : Fs) (ino : ℕ)
    → env.fails get_bread ≡ false
    → env.fails get_alloc ≡ false
    → get_inode env ino s ≡ done (find_inode ino (table s)) s
unfolding get_inode
get_inode-eq-find env s ino reads memory =
    ground (arith, get_from-eq-find (inode_store s) 0 ino (inodes_count s))

-- The state after an inode has been added: the list has one more, and the superblock on the device
-- counts it. The inode store is not written to the device.
pub record Added (s : Fs) (i : Inode) (s' : Fs) : Type 0 where
  pub appended : table s' ≡ table s ++ (i ∷ [])
  pub counted : inodes_count s' ≡ inodes_count s + 1
  pub free_word : free_blocks s' ≡ free_blocks s
  pub synced : s'.disk 0 ≡ s'.cache 0
  pub store_not_synced : s'.disk 1 ≡ s.disk 1
  pub blocks : (b : ℕ) → 1 < b → (s'.cache b ≡ s.cache b) × (s'.disk b ≡ s.disk b)
  pub locks : s'.locks ≡ s.locks

abbrev pub added_state : Fs → Inode → Fs
added_state s i =
    let store = write_inode (s.cache 1) (32 * inodes_count s) i in
    let sb = store64 (s.cache 0) 16 ((inodes_count s + 1) % 2 ^ 64) in
    record s { cache = update (update s.cache 1 store) 0 sb; disk = update s.disk 0 sb }

pub added_state-Added :
    (s : Fs) (i : Inode) → Fits i → inodes_count s + 1 < 2 ^ 64 → Added s i (added_state s i)
added_state-Added s i f room = record {
  appended =
      ap (slots (write_inode (s.cache 1) (32 * inodes_count s) i) 0) (count ∙ next)
      ∙ slots-write_last (s.cache 1) 0 (inodes_count s) (32 * inodes_count s) i f (omega arith);
  counted = count;
  free_word = load64-store64_ne (s.cache 0) 16 _ 24 (omega arith);
  synced = refl;
  store_not_synced = refl;
  blocks = λ b h. (ground arith, ground arith);
  locks = refl;
}
  where
    count : inodes_count (added_state s i) ≡ inodes_count s + 1
    count =
        load64-store64_self (s.cache 0) 16 ((inodes_count s + 1) % 2 ^ 64) (omega arith)
        ∙ (let e : (inodes_count s + 1) % 2 ^ 64 ≡ inodes_count s + 1 = omega arith in e)

    next : inodes_count s + 1 ≡ suc (inodes_count s)
    next = omega arith

pub inode_add-done :
    (env : Env) (s : Fs) (i : Inode)
    → env.fails add_mgmt_lock ≡ false
    → env.fails add_bread ≡ false
    → env.fails add_sb_lock ≡ false
    → env.fails sync_bread ≡ false
    → s.locks.holds_inodes_mgmt ≡ false
    → s.locks.holds_sb ≡ false
    → inode_add env i s ≡ done tt (added_state s i)
unfolding inode_add
inode_add-done env s i q₁ q₂ q₃ q₄ u₁ u₂ = ground arith

-- With no signal and no failing read, both mutexes free, and a count that does not wrap, an inode that
-- fits its fields goes behind the others in the list, which the superblock counts, on the device too.
pub inode_add-Added :
    (env : Env) (s : Fs) (i : Inode)
    → Fits i
    → inodes_count s + 1 < 2 ^ 64
    → env.fails add_mgmt_lock ≡ false
    → env.fails add_bread ≡ false
    → env.fails add_sb_lock ≡ false
    → env.fails sync_bread ≡ false
    → s.locks.holds_inodes_mgmt ≡ false
    → s.locks.holds_sb ≡ false
    → (s' : Fs) × (inode_add env i s ≡ done tt s') × Added s i s'
inode_add-Added env s i f room q₁ q₂ q₃ q₄ u₁ u₂ =
    (added_state s i, inode_add-done env s i q₁ q₂ q₃ q₄ u₁ u₂, added_state-Added s i f room)

-- A signal at the second lock leaves the first one held, and nothing else has happened.
pub inode_add_keeps_lock :
    (env : Env) (s : Fs) (i : Inode)
    → env.fails add_mgmt_lock ≡ false
    → env.fails add_bread ≡ false
    → env.fails add_sb_lock ≡ true
    → s.locks.holds_inodes_mgmt ≡ false
    → inode_add env i s
      ≡ done tt (record s { locks = record (s.locks) { holds_inodes_mgmt = true } })
unfolding inode_add
inode_add_keeps_lock env s i q₁ q₂ q₃ u = ground arith

-- The state after an inode has been saved: its slot has it, on the device too.
pub record Saved (s : Fs) (i : Inode) (s' : Fs) : Type 0 where
  pub replaced : table s' ≡ replace_inode i (table s)
  pub counted : inodes_count s' ≡ inodes_count s
  pub synced : s'.disk 1 ≡ s'.cache 1
  pub blocks : (b : ℕ) → b ≢ 1 → (s'.cache b ≡ s.cache b) × (s'.disk b ≡ s.disk b)
  pub locks : s'.locks ≡ s.locks

-- How a save ends that is not interrupted: the inode is in its slot, or no inode has its number and
-- nothing has changed.
unfoldable pub SaveEnds : Fs → Inode → Run (Result (Unit {0})) → Type 0
SaveEnds s i (done (ok _) s') = Saved s i s'
SaveEnds s i (done (err e) s') = (e ≡ eio) × (find_inode i.inode_no (table s) ≡ none) × (s' ≡ s)
SaveEnds s i (fault e) = ⊥

abbrev pub saved_state : Fs → Inode → ℕ → Fs
saved_state s i p =
    let store = write_inode (s.cache 1) p i in
    record s { cache = update s.cache 1 store; disk = update s.disk 1 store }

module _ (env : Env) (s : Fs) (i : Inode) where
  pub save_found :
      (p : ℕ)
      → env.fails save_bread ≡ false
      → env.fails save_lock ≡ false
      → s.locks.holds_sb ≡ false
      → inode_search s i ≡ some p
      → inode_save env i s ≡ done (ok tt) (saved_state s i p)
  unfolding inode_save inode_search
  save_found p reads quiet unheld e = ground arith

  save_missing :
      env.fails save_bread ≡ false
      → env.fails save_lock ≡ false
      → s.locks.holds_sb ≡ false
      → inode_search s i ≡ none
      → inode_save env i s ≡ done (err eio) s
  unfolding inode_save inode_search
  save_missing reads quiet unheld e = ground arith

pub saved_state-Saved :
    (s : Fs) (i : Inode) (p : ℕ)
    → Fits i
    → inode_search s i ≡ some p
    → Saved s i (saved_state s i p)
unfolding inode_search
saved_state-Saved s i p f e = record {
  replaced = slots-write_found (s.cache 1) 0 (inodes_count s) p i f e;
  counted = refl;
  synced = refl;
  blocks = λ b ne. (ground arith, ground arith);
  locks = refl;
}

-- With no signal and no failing read, and the mutex of the superblock free, a save of an inode that
-- fits its fields replaces the inode of its number in the list and on the device, and changes no other
-- block and no mutex; or it returns -EIO when no inode has its number, and changes nothing.
pub inode_save-SaveEnds :
    (env : Env) (s : Fs) (i : Inode)
    → Fits i
    → env.fails save_bread ≡ false
    → env.fails save_lock ≡ false
    → s.locks.holds_sb ≡ false
    → SaveEnds s i (inode_save env i s)
unfolding SaveEnds inode_search
inode_save-SaveEnds env s i f reads quiet unheld = elim (Option-cases (inode_search s i)) [
  | inl e ↦
      rw (save_missing env s i reads quiet unheld e)
        (refl, search_from-none (s.cache 1) 0 i.inode_no (inodes_count s) e, refl)
  | inr (p, e) ↦ rw (save_found env s i p reads quiet unheld e) (saved_state-Saved s i p f e)
]

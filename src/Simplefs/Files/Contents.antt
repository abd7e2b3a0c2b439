-- ===== src/Simplefs/Files/Contents.antt =====
-- simplefs/simple.c, `simplefs_write`: what a file holds after a write.
use lkm.Prelude.{
  ◌≤◌, ℕ, ◌+◌, ◌<◌, ◌≡◌, ◌≢◌, refl, ap, ap₂, sym, ◌∙◌, true, false, some, List, arith, length,
}
use lkm.Prelude.Bytes.{load64, store}
use lkm.Simplefs.Layout.{Inode}
use lkm.Simplefs.Layout.Laws.{Fits}
use lkm.Simplefs.State.{
  Fs, Run, done, fault, Result, ok, err, Env, set_lock, update, update_ne, update_self, write_bread,
  write_copy, write_lock, save_bread, save_lock, inodes_mgmt,
}
use lkm.Simplefs.Inodes.{inode_save}
use lkm.Simplefs.Inodes.Table.{slots, table, find_inode, replace_inode}
use lkm.Simplefs.Inodes.Effects.{Saved, SaveEnds, inode_save-SaveEnds}
use lkm.Simplefs.Files.{Wrote, write}

-- What a write has done that went through: `len` is returned, the block has the bytes at the
-- position, on the device too, and the size is the new position, in memory and in the inode store.
pub record WriteEnds (s : Fs) (inode : Inode) (buf : List ℕ) (ppos : ℕ) (w : Wrote) (s' : Fs)
    : Type 0 where
  pub returned : w.ret ≡ ok (length buf)
  pub resized : w.inode ≡ record inode { file_size = ppos + length buf }
  pub moved : w.pos ≡ ppos + length buf
  pub contents : s'.cache inode.data_block_number ≡ store (s.cache inode.data_block_number) ppos buf
  pub synced : s'.disk inode.data_block_number ≡ s'.cache inode.data_block_number
  pub stored : table s' ≡ replace_inode w.inode (table s)
  pub blocks :
      (b : ℕ)
      → b ≢ 1
      → b ≢ inode.data_block_number
      → (s'.cache b ≡ s.cache b) × (s'.disk b ≡ s.disk b)
  pub store_synced : s'.disk 1 ≡ s'.cache 1
  pub locks : s'.locks ≡ s.locks

abbrev pub resize : Inode → ℕ → Inode
resize i n = record i { file_size = n }

-- The state in which the size is saved.
abbrev filled_state : Fs → Inode → List ℕ → ℕ → Fs
filled_state s i buf ppos =
    let m = store (s.cache i.data_block_number) ppos buf in
    record s {
      cache = update s.cache i.data_block_number m;
      disk = update s.disk i.data_block_number m;
      locks = record (s.locks) { holds_inodes_mgmt = true };
    }

module _ (env : Env) (s : Fs) (inode : Inode) (buf : List ℕ) (ppos : ℕ) where
  abbrev size : ℕ
  size = ppos + length buf

  table-filled : 1 < inode.data_block_number → table (filled_state s inode buf ppos) ≡ table s
  table-filled above =
      ap₂ (λ store sb. slots store 0 (load64 sb 16))
        (update_ne s.cache inode.data_block_number _ 1 (omega arith))
        (update_ne s.cache inode.data_block_number _ 0 (omega arith))

  write-saved :
      (s₂ : Fs)
      → size ≤ 4096
      → env.fails write_bread ≡ false
      → env.fails write_copy ≡ false
      → env.fails write_lock ≡ false
      → s.locks.holds_inodes_mgmt ≡ false
      → inode_save env (resize inode size) (filled_state s inode buf ppos) ≡ done (ok tt) s₂
      → s₂.locks.holds_inodes_mgmt ≡ true
      → write env inode buf ppos s
        ≡ done
            (record { ret = ok (length buf); inode = resize inode size; pos = size })
            (record s₂ { locks = set_lock s₂.locks inodes_mgmt false })
  unfolding write
  write-saved s₂ le q₁ q₂ q₃ u e h = ground arith

  finish_write :
      (s₂ : Fs)
      → 1 < inode.data_block_number
      → s.locks.holds_inodes_mgmt ≡ false
      → Saved (filled_state s inode buf ppos) (resize inode size) s₂
      → WriteEnds s inode buf ppos
          (record { ret = ok (length buf); inode = resize inode size; pos = size })
          (record s₂ { locks = set_lock s₂.locks inodes_mgmt false })
  finish_write s₂ above u v = record {
    returned = refl;
    resized = refl;
    moved = refl;
    contents = (v.blocks block (omega arith)).0 ∙ update_self s.cache block _;
    synced =
        (v.blocks block (omega arith)).1
        ∙ update_self s.disk block _
        ∙ sym ((v.blocks block (omega arith)).0 ∙ update_self s.cache block _);
    stored = v.replaced ∙ ap (replace_inode (resize inode size)) (table-filled above);
    blocks = λ b h k. (
      (v.blocks b h).0 ∙ update_ne s.cache block _ b (λ e. k (sym e)),
      (v.blocks b h).1 ∙ update_ne s.disk block _ b (λ e. k (sym e)),
    );
    store_synced = v.synced;
    locks = ap (λ l. set_lock l inodes_mgmt false) v.locks ∙ restored;
  }
    where
      block : ℕ
      block = inode.data_block_number

      restored :
          set_lock (record (s.locks) { holds_inodes_mgmt = true }) inodes_mgmt false ≡ s.locks
      restored = ground arith

-- A write with no signal and no failing copy or read, of a file whose inode fits its fields and is in
-- the list, whose block is behind the first two, with bytes that fit into the block and both mutexes free: it returns `len`, the block has the bytes at the position, in memory and on the device, the
-- size is the new position, in memory and in the list, and no other block and no mutex changes.
pub write-WriteEnds :
    (env : Env) (s : Fs) (inode : Inode) (buf : List ℕ) (ppos : ℕ) {old : Inode}
    → Fits inode
    → ppos + length buf ≤ 4096
    → 1 < inode.data_block_number
    → find_inode inode.inode_no (table s) ≡ some old
    → env.fails write_bread ≡ false
    → env.fails write_copy ≡ false
    → env.fails write_lock ≡ false
    → env.fails save_bread ≡ false
    → env.fails save_lock ≡ false
    → s.locks.holds_inodes_mgmt ≡ false
    → s.locks.holds_sb ≡ false
    → (w : Wrote) × (s' : Fs) × (write env inode buf ppos s ≡ done w s')
      × WriteEnds s inode buf ppos w s'
unfolding SaveEnds
write-WriteEnds env s inode buf ppos {old} f small above known q₁ q₂ q₃ q₄ q₅ u₁ u₂ =
    by_save (inode_save env inode' s₁) refl
      (inode_save-SaveEnds env s₁ inode' (omega arith) q₄ q₅ u₂)
  where
    inode' : Inode
    inode' = resize inode (ppos + length buf)

    s₁ : Fs
    s₁ = filled_state s inode buf ppos

    by_save :
        (r : Run (Result (Unit {0})))
        → inode_save env inode' s₁ ≡ r
        → SaveEnds s₁ inode' r
        → (w : Wrote) × (s' : Fs) × (write env inode buf ppos s ≡ done w s')
          × WriteEnds s inode buf ppos w s'
    by_save (done (ok _) s₂) e h = (
      record { ret = ok (length buf); inode = inode'; pos = ppos + length buf },
      record s₂ { locks = set_lock s₂.locks inodes_mgmt false },
      write-saved env s inode buf ppos s₂ small q₁ q₂ q₃ u₁ e
          (ap (λ l. l.holds_inodes_mgmt) h.locks),
      finish_write env s inode buf ppos s₂ above u₁ h,
    )
    by_save (done (err x) s₂) e h =
        cc (known, h.1, ap (find_inode inode.inode_no) (table-filled env s inode buf ppos above))
    by_save (fault x) e h = absurd h

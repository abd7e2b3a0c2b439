-- ===== src/Simplefs/Directories/Entries.antt =====
-- simplefs/simple.c: what `simplefs_iterate` emits of a directory.
use lkm.Prelude.{
  ◌≤◌, ℕ, zero, suc, ◌+◌, ◌-◌, ◌*◌, ◌^◌, ◌<◌, ◌≡◌, refl, ap, ap₂, sym, ◌∙◌, inr, true, false, List,
  [], ◌∷◌, ◌++◌, arith, length, length-append,
}
use lkm.Prelude.Bytes.{
  Mem, load, load_congr, load64, from_le, store64, load-store_self, load-store_ne, load-append,
}
use lkm.Simplefs.Layout.{Inode, s_isdir}
use lkm.Simplefs.State.{Fs, done, ok, Env, iterate_bread}
use lkm.Simplefs.Directories.{Listing, emit_from, iterate, add_record, strcpy}
use lkm.Simplefs.Directories.Records.{
  with_record, with_record_below, number-with_record, block-add_record,
}

emit_from_congr :
    (m m' : Mem) (p n : ℕ)
    → ((a : ℕ) → a < p + 256 * n → m a ≡ m' a)
    → emit_from m p n ≡ emit_from m' p n
unfolding emit_from load64
emit_from_congr m m' p zero h = refl
emit_from_congr m m' p (suc n) h =
    ap₂ ◌∷◌
      (ap₂ (λ (bs : List ℕ) (cs : List ℕ). (bs, from_le cs))
        (load_congr m m' p 248 (λ a lo hi. h a (omega arith)))
        (load_congr m m' (p + 248) 8 (λ a lo hi. h a (omega arith))))
      (emit_from_congr m m' (p + 256) n (λ a hi. h a (omega arith)))

emit_from-snoc :
    (m : Mem) (p n q : ℕ)
    → p + 256 * n ≡ q
    → emit_from m p (suc n) ≡ emit_from m p n ++ ((load m q 248, load64 m (q + 248)) ∷ [])
unfolding emit_from
emit_from-snoc m p zero q e =
    ap (λ r. (load m r 248, load64 m (r + 248)) ∷ []) (let e' : p ≡ q = omega arith in e')
emit_from-snoc m p (suc n) q e =
    ap (λ r. (load m p 248, load64 m (p + 248)) ∷ r) (emit_from-snoc m (p + 256) n q (omega arith))

-- The bytes behind the name's NUL are those that were there.
name_bytes :
    (m : Mem) (q : ℕ) (name : List ℕ)
    → length name < 248
    → load (strcpy m q name) q 248
      ≡ (name ++ 0 ∷ []) ++ load m (q + length (name ++ 0 ∷ [])) (248 - length (name ++ 0 ∷ []))
name_bytes m q name short =
    let k = length (name ++ 0 ∷ []) in
    let l : k ≡ length name + 1 = length-append name (0 ∷ []) in
    let whole : 248 ≡ k + (248 - k) = omega arith in
    ap (load (strcpy m q name) q) whole
    ∙ load-append (strcpy m q name) q k (248 - k)
    ∙ ap₂ ◌++◌ (load-store_self m q (name ++ 0 ∷ []))
        (load-store_ne m q (name ++ 0 ∷ []) (q + k) (248 - k) (inr (omega arith)))

pub emit_from-with_record :
    (m : Mem) (p n q ino : ℕ) (name : List ℕ)
    → p + 256 * n ≡ q
    → length name < 248
    → ino < 2 ^ 64
    → (rest : List ℕ) × (emit_from (with_record m q ino name) p (suc n)
        ≡ emit_from m p n ++ (((name ++ 0 ∷ []) ++ rest, ino) ∷ []))
emit_from-with_record m p n q ino name e short small = (
  _,
  emit_from-snoc (with_record m q ino name) p n q e
      ∙ ap₂ ◌++◌
          (sym (
            emit_from_congr m (with_record m q ino name) p n
              (λ a lt. with_record_below m q ino name a (omega arith))))
          (ap₂ (λ (bs : List ℕ) i. (bs, i) ∷ []) (name_bytes (store64 m (q + 248) ino) q name short)
            (number-with_record m q ino name short small)),
)

listed :
    (env : Env) (s : Fs) (dir : Inode)
    → env.fails iterate_bread ≡ false
    → s_isdir dir.mode ≡ true
    → dir.file_size ≤ 16
    → iterate env dir 0 s
      ≡ done
          (record {
            ret = ok tt;
            entries = emit_from (s.cache dir.data_block_number) 0 dir.file_size;
            pos = 256 * dir.file_size;
          })
          s
unfolding iterate
listed env s dir q d room = ground arith

-- With no failing read, in a directory of fewer than 16 children: after a record with a name of fewer than 248 bytes has been
-- added, `simplefs_iterate` at position 0 emits what it emitted before, with the name, its NUL and
-- the number behind the others, and the position moves behind the last record.
pub iterate-add_record :
    (env : Env) (s s' : Fs) (parent : Inode) (ino : ℕ) (name : List ℕ)
    → env.fails iterate_bread ≡ false
    → s_isdir parent.mode ≡ true
    → parent.file_size < 16
    → length name < 248
    → ino < 2 ^ 64
    → add_record parent ino name s ≡ done tt s'
    → (before after : Listing) × (rest : List ℕ) × (iterate env parent 0 s ≡ done before s)
      × (iterate env (record parent { file_size = suc parent.file_size }) 0 s' ≡ done after s')
      × (after.entries ≡ before.entries ++ (((name ++ 0 ∷ []) ++ rest, ino) ∷ []))
      × (after.pos ≡ before.pos + 256)
iterate-add_record env s s' parent ino name q d room short small ran =
    let b = parent.data_block_number in
    let (rest, e) =
      emit_from-with_record (s.cache b) 0 parent.file_size (256 * parent.file_size) ino name
        (omega arith) short small in
    (
      _,
      _,
      rest,
      listed env s parent q d (omega arith),
      listed env s' (record parent { file_size = suc parent.file_size }) q d (omega arith),
      ap (λ m. emit_from m 0 (suc parent.file_size)) (block-add_record s s' parent ino name ran)
          ∙ e,
      omega arith,
    )

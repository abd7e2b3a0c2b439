-- ===== src/Simplefs/Files/Reads.antt =====
-- simplefs/simple.c, `simplefs_read`: what it gives of a file, after a write and elsewhere.
use lkm.Prelude.{
  ◌≤◌, ℕ, ◌+◌, ◌<◌, ◌≡◌, ap, sym, ◌∙◌, false, some, List, arith, leb, ltb, le→ltb, length, min,
}
use lkm.Prelude.Bytes.{load, load-store_self}
use lkm.Simplefs.Layout.{Inode}
use lkm.Simplefs.Layout.Laws.{Fits}
use lkm.Simplefs.State.{
  Fs, done, ok, Env, read_bread, read_copy, write_bread, write_copy, write_lock, save_bread,
  save_lock,
}
use lkm.Simplefs.Inodes.Table.{table, find_inode}
use lkm.Simplefs.Files.{Read, read, Wrote, write}
use lkm.Simplefs.Files.Contents.{WriteEnds, write-WriteEnds}

-- A read of as many bytes as the file has.
read_whole :
    (env : Env) (s : Fs) (i : Inode) (buf : List ℕ)
    → i.file_size ≡ length buf
    → load (s.cache i.data_block_number) 0 (length buf) ≡ buf
    → 0 < length buf
    → length buf ≤ 4096
    → env.fails read_bread ≡ false
    → env.fails read_copy ≡ false
    → read env i (length buf) 0 s
      ≡ done (record { ret = ok (length buf); bytes = buf; pos = length buf }) s
unfolding read
read_whole env s i buf n h some_bytes le q₁ q₂ =
    let m : min i.file_size (length buf) ≡ length buf = omega (arith, n) in
    let z : leb i.file_size 0 ≡ false = ground (arith, n) in
    let p : 0 + length buf ≡ length buf = omega arith in
    rw (z, q₁, q₂, m, le→ltb 4096 (length buf) le, h, p)

-- After a write at the head a read of as many bytes gives them.
pub read_written :
    (env : Env) (s s' : Fs) (inode : Inode) (buf : List ℕ) (w : Wrote)
    → WriteEnds s inode buf 0 w s'
    → 0 < length buf
    → length buf ≤ 4096
    → env.fails read_bread ≡ false
    → env.fails read_copy ≡ false
    → read env w.inode (length buf) 0 s'
      ≡ done (record { ret = ok (length buf); bytes = buf; pos = length buf }) s'
read_written env s s' inode buf w v some_bytes small q₆ q₇ =
    read_whole env s' w.inode buf size_eq bytes_eq some_bytes small q₆ q₇
  where
    size_eq : w.inode.file_size ≡ length buf
    size_eq =
        ap (λ i. i.file_size) v.resized ∙ (let p : 0 + length buf ≡ length buf = omega arith in p)

    bytes_eq : load (s'.cache w.inode.data_block_number) 0 (length buf) ≡ buf
    bytes_eq =
        ap (λ i. load (s'.cache i.data_block_number) 0 (length buf)) v.resized
        ∙ ap (λ m. load m 0 (length buf)) v.contents
        ∙ load-store_self (s.cache inode.data_block_number) 0 buf

-- A file that is written from its head is read back whole: the write of at least one byte goes
-- through, and a read of as many bytes returns them and moves the position behind them. The
-- conditions are those of a write, and no failing read.
pub read-write :
    (env : Env) (s : Fs) (inode : Inode) (buf : List ℕ) {old : Inode}
    → Fits inode
    → 0 < length buf
    → length buf ≤ 4096
    → 1 < inode.data_block_number
    → find_inode inode.inode_no (table s) ≡ some old
    → env.fails write_bread ≡ false
    → env.fails write_copy ≡ false
    → env.fails write_lock ≡ false
    → env.fails save_bread ≡ false
    → env.fails save_lock ≡ false
    → env.fails read_bread ≡ false
    → env.fails read_copy ≡ false
    → s.locks.holds_inodes_mgmt ≡ false
    → s.locks.holds_sb ≡ false
    → (w : Wrote) × (s' : Fs) × (write env inode buf 0 s ≡ done w s')
      × (read env w.inode (length buf) 0 s'
          ≡ done (record { ret = ok (length buf); bytes = buf; pos = length buf }) s')
read-write env s inode buf f some_bytes small above known q₁ q₂ q₃ q₄ q₅ q₆ q₇ u₁ u₂ =
    let (w, s', run, v) =
      write-WriteEnds env s inode buf 0 f (omega arith) above known q₁ q₂ q₃ q₄ q₅ u₁ u₂ in
    (w, s', run, read_written env s s' inode buf w v some_bytes small q₆ q₇)

-- What a read before the end of the file gives.
abbrev head_read : Fs → Inode → ℕ → ℕ → Read
head_read s i len p =
    let n = min i.file_size len in
    record { ret = ok n; bytes = load (s.cache i.data_block_number) 0 n; pos = p + n }

read_at :
    (env : Env) (s : Fs) (i : Inode) (len p : ℕ)
    → i.file_size ≤ 4096
    → p < i.file_size
    → env.fails read_bread ≡ false
    → env.fails read_copy ≡ false
    → read env i len p s ≡ done (head_read s i len p) s
unfolding read
read_at env s i len p fits before q₁ q₂ =
    let z : leb i.file_size p ≡ false = ground arith in
    let w : ltb 4096 (min i.file_size len) ≡ false = le→ltb 4096 _ (omega arith) in
    rw (z, q₁, q₂, w)

-- With no failing read or copy, of a file that fits into its block: whatever their positions, as long
-- as both lie before the end of the file, two reads give the same bytes, those at the head.
pub read_same_bytes :
    (env : Env) (s : Fs) (i : Inode) (len p q : ℕ) (r r' : Read)
    → i.file_size ≤ 4096
    → p < i.file_size
    → q < i.file_size
    → env.fails read_bread ≡ false
    → env.fails read_copy ≡ false
    → read env i len p s ≡ done r s
    → read env i len q s ≡ done r' s
    → (r.bytes ≡ r'.bytes) × (r.bytes ≡ load (s.cache i.data_block_number) 0 (min i.file_size len))
read_same_bytes env s i len p q r r' fits lt lt' q₁ q₂ e e' =
    (ap (λ x. x.bytes) at_p ∙ sym (ap (λ x. x.bytes) at_q), ap (λ x. x.bytes) at_p)
  where
    at_p : r ≡ head_read s i len p
    at_p = cc (e, read_at env s i len p fits lt q₁ q₂)

    at_q : r' ≡ head_read s i len q
    at_q = cc (e', read_at env s i len q fits lt' q₁ q₂)

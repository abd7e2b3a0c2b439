-- ===== src/Simplefs/Directories/Records.antt =====
-- simplefs/simple.c: the records of a directory block as a list of names and numbers.
use lkm.Prelude.{
  true, ltb, NoNul, ℕ, zero, suc, ◌+◌, ◌*◌, ◌%◌, ◌^◌, ◌<◌, ◌≡◌, ◌≢◌, refl, ap, ap₂, sym, ◌∙◌, inl,
  inr, Bool, false, none, some, List, [], ◌∷◌, ◌++◌, arith, if◌then◌else◌, Bool-cases, length,
  length-append, get_or,
}
use lkm.Prelude.Bytes.{
  Mem, load, store_out, store_in, load_congr, from_le, load64, store64, load64-store64_self,
  load64-store_ne,
}
use lkm.Simplefs.Layout.Laws.{store64_out}
use lkm.Simplefs.Layout.{Inode}
use lkm.Simplefs.State.{Fs, done, branch, fail, out_of_block, modify_block, update, update_self}
use lkm.Simplefs.Directories.{str_eq, strcpy, find_record, add_record}
use lkm.Simplefs.Directories.Names.{str_eq_congr, str_eq-strcpy, str_eq-strcpy_ne}

-- The search reads nothing behind the records.
find_record_congr :
    (m m' : Mem) (p : ℕ) (name : List ℕ) (n : ℕ)
    → length name < 256
    → ((a : ℕ) → a < p + 256 * n → m a ≡ m' a)
    → find_record m p name n ≡ find_record m' p name n
unfolding find_record load64
find_record_congr m m' p name zero short h = refl
find_record_congr m m' p name (suc n) short h =
    ap₂ (λ (b : Bool) r. if b then some (from_le (load m (p + 248) 8)) else r)
      (str_eq_congr m m' p name (λ a lo hi. h a (omega arith)))
      (find_record_congr m m' (p + 256) name n short (λ a hi. h a (omega arith)))
    ∙ ap (λ bs. if str_eq m' p name then some (from_le bs) else find_record m' (p + 256) name n)
        (load_congr m m' (p + 248) 8 (λ a lo hi. h a (omega arith)))

-- One more record behind those that have the name.
find_record-suc :
    (m : Mem) (p : ℕ) (name : List ℕ) (n : ℕ) {ino : ℕ}
    → find_record m p name n ≡ some ino
    → find_record m p name (suc n) ≡ some ino
unfolding find_record
find_record-suc m p name zero h = cc
find_record-suc m p name (suc n) h = elim (Bool-cases (str_eq m p name)) [
  | inl found ↦ ground (arith, found, h)
  | inr other ↦ rw other (find_record-suc m (p + 256) name n (rw other at h))
]

-- A block with one more record, at `q`.
abbrev pub with_record : Mem → ℕ → ℕ → List ℕ → Mem
with_record m q ino name = strcpy (store64 m (q + 248) ino) q name

pub with_record_below :
    (m : Mem) (q ino : ℕ) (name : List ℕ) (a : ℕ) → a < q → m a ≡ with_record m q ino name a
with_record_below m q ino name a lt =
    sym (
      store_out _ q (name ++ 0 ∷ []) a (inl lt) ∙ store64_out m (q + 248) ino a (inl (omega arith)))

-- The number behind a name that leaves room for its NUL.
pub number-with_record :
    (m : Mem) (q ino : ℕ) (name : List ℕ)
    → length name < 248
    → ino < 2 ^ 64
    → load64 (with_record m q ino name) (q + 248) ≡ ino
number-with_record m q ino name short small =
    load64-store_ne (store64 m (q + 248) ino) q (name ++ 0 ∷ []) (q + 248)
      (inr (omega (arith, length-append name (0 ∷ []))))
    ∙ load64-store64_self m (q + 248) ino small

find_record-snoc :
    (m : Mem) (p : ℕ) (name : List ℕ) (n q : ℕ)
    → p + 256 * n ≡ q
    → find_record m p name n ≡ none
    → find_record m p name (suc n) ≡ (if str_eq m q name then some (load64 m (q + 248)) else none)
unfolding find_record
find_record-snoc m p name zero q e h =
    ap (λ r. if str_eq m r name then some (load64 m (r + 248)) else none)
      (let e' : p ≡ q = omega arith in e')
find_record-snoc m p name (suc n) q e h = elim (Bool-cases (str_eq m p name)) [
  | inl found ↦ ground (arith, found, h)
  | inr other ↦ rw other (find_record-snoc m (p + 256) name n q (omega arith) (rw other at h))
]

find_record-snoc_ne :
    (m : Mem) (p : ℕ) (name : List ℕ) (n q : ℕ)
    → p + 256 * n ≡ q
    → str_eq m q name ≡ false
    → find_record m p name (suc n) ≡ find_record m p name n
unfolding find_record
find_record-snoc_ne m p name zero q e h =
    let e' : p ≡ q = omega arith in
    ap (λ b. if b then some (load64 m (p + 248)) else none) (ap (λ r. str_eq m r name) e' ∙ h)
find_record-snoc_ne m p name (suc n) q e h =
    ap (λ r. if str_eq m p name then some (load64 m (p + 248)) else r)
      (find_record-snoc_ne m (p + 256) name n q (omega arith) h)

-- A new name is found behind the others, with its number.
pub find_record-with_record :
    (m : Mem) (p : ℕ) (name : List ℕ) (n q ino : ℕ)
    → p + 256 * n ≡ q
    → length name < 248
    → ino < 2 ^ 64
    → find_record m p name n ≡ none
    → find_record (with_record m q ino name) p name (suc n) ≡ some ino
find_record-with_record m p name n q ino e short small h =
    find_record-snoc m' p name n q e (
      sym (
        find_record_congr m m' p name n (omega arith)
          (λ a lt. with_record_below m q ino name a (omega arith)))
      ∙ h)
    ∙ rw (str_eq-strcpy (store64 m (q + 248) ino) q name)
        (ap some (number-with_record m q ino name short small))
  where
    m' : Mem
    m' = with_record m q ino name

-- A name that is found stays so.
pub find_record-with_record_old :
    (m : Mem) (name old : List ℕ) (n ino : ℕ) {k : ℕ}
    → length old < 256
    → find_record m 0 old n ≡ some k
    → find_record (with_record m (256 * n) ino name) 0 old (suc n) ≡ some k
find_record-with_record_old m name old n ino short h = find_record-suc _ 0 old n (
    sym (
      find_record_congr m (with_record m (256 * n) ino name) 0 old n short
        (λ a lt. with_record_below m (256 * n) ino name a (omega arith)))
    ∙ h)

-- Every other name is found as before.
pub find_record-with_record_ne :
    (m : Mem) (p : ℕ) (name other : List ℕ) (n q ino : ℕ)
    → p + 256 * n ≡ q
    → length other < 256
    → NoNul name
    → NoNul other
    → name ≢ other
    → find_record (with_record m q ino name) p other (suc n) ≡ find_record m p other n
find_record-with_record_ne m p name other n q ino e short h k ne =
    find_record-snoc_ne m' p other n q e (str_eq-strcpy_ne _ q name other h k ne)
    ∙ sym (
        find_record_congr m m' p other n short
          (λ a lt. with_record_below m q ino name a (omega arith)))
  where
    m' : Mem
    m' = with_record m q ino name

load64-mod : (m : Mem) (off : ℕ) → load64 m off % 256 ≡ m off % 256
unfolding load64 load from_le
load64-mod m off = omega arith

get_or-append_end : (xs : List ℕ) (y d : ℕ) → get_or (xs ++ y ∷ []) (length xs) d ≡ y
get_or-append_end [] y d = refl
get_or-append_end (x ∷ xs) y d = get_or-append_end xs y d

-- The NUL of a name of 248 bytes falls on the low byte of the number behind it.
pub long_name_number :
    (m : Mem) (q ino : ℕ) (name : List ℕ)
    → length name ≡ 248
    → ino % 256 ≢ 0
    → load64 (with_record m q ino name) (q + 248) ≢ ino
long_name_number m q ino name e odd h =
    odd (ap (λ k. k % 256) (sym h) ∙ load64-mod _ (q + 248) ∙ low)
  where
    low : with_record m q ino name (q + 248) % 256 ≡ 0
    low =
        ap (λ k. k % 256)
          (store_in (store64 m (q + 248) ino) q (name ++ 0 ∷ []) 248
            ∙ ap (λ k. get_or (name ++ 0 ∷ []) k (store64 m (q + 248) ino (q + 248))) (sym e)
            ∙ get_or-append_end name 0 _)

pub named : Fs → Inode → ℕ → List ℕ → Fs
named s parent ino name =
    let b = parent.data_block_number in
    record s {
      cache = update s.cache b (with_record (s.cache b) (256 * parent.file_size) ino name);
    }

module _ (s s' : Fs) (parent : Inode) (ino : ℕ) (name : List ℕ)
    (ran : add_record parent ino name s ≡ done tt s') where
  pub block-add_record :
      s'.cache parent.data_block_number
      ≡ with_record (s.cache parent.data_block_number) (256 * parent.file_size) ino name
  unfolding named
  block-add_record =
      ap (λ x. x.cache parent.data_block_number)
        (by_room (ltb 4096 (256 * parent.file_size + 256)) ran)
      ∙ update_self s.cache parent.data_block_number _
    where
      by_room :
          (over : Bool)
          → branch over
              (fail out_of_block)
              (modify_block parent.data_block_number (λ m.
                strcpy
                  (store64 m (256 * parent.file_size + 248) ino)
                  (256 * parent.file_size)
                  name))
              s
            ≡ done tt s'
          → s' ≡ named s parent ino name
      by_room true e = cc e
      by_room false e = cc e

  -- After a record has been added to a directory of fewer than 16 children, every other name of fewer than 256 bytes is found, or
  -- not, with the same number as before; no name has a NUL in it.
  find_record-add_record_ne :
      (other : List ℕ)
      → parent.file_size < 16
      → length other < 256
      → NoNul name
      → NoNul other
      → name ≢ other
      → find_record (s'.cache parent.data_block_number) 0 other (suc parent.file_size)
        ≡ find_record (s.cache parent.data_block_number) 0 other parent.file_size
  find_record-add_record_ne other room short h k ne =
      ap (λ m. find_record m 0 other (suc parent.file_size)) block-add_record
      ∙ find_record-with_record_ne (s.cache parent.data_block_number) 0 name other parent.file_size
          (256 * parent.file_size) ino (omega arith) short h k ne

  -- In a directory of fewer than 16 children, a name of 248 bytes, which the VFS lets through, destroys the number in its own record, when the
  -- number's low byte is not zero.
  pub add_record_long :
      parent.file_size < 16
      → length name ≡ 248
      → ino % 256 ≢ 0
      → load64 (s'.cache parent.data_block_number) (256 * parent.file_size + 248) ≢ ino
  add_record_long room e odd h =
      long_name_number (s.cache parent.data_block_number) (256 * parent.file_size) ino name e odd
        (ap (λ m. load64 m (256 * parent.file_size + 248)) (sym block-add_record) ∙ h)

-- ===== src/Simplefs/Inodes/Table.antt =====
-- simplefs/simple.c: the inode store as a list of inodes, and what its functions do to that list.
use lkm.Prelude.{
  ℕ, zero, suc, ◌+◌, ◌*◌, ◌≤◌, ◌≡◌, ◌≢◌, refl, ap, ap₂, ◌∙◌, ◌⊎◌, inl, inr, Option, none, some,
  List, [], ◌∷◌, ◌++◌, arith, ◌==◌, if◌then◌else◌, Bool-cases, length,
}
use lkm.Prelude.Bytes.{Mem, load64}
use lkm.Simplefs.Layout.{Inode, read_inode, write_inode}
use lkm.Simplefs.Layout.Laws.{Fits, read_inode-write_inode_self, read_inode-write_inode_ne}
use lkm.Simplefs.State.{Fs, inodes_count}
use lkm.Simplefs.Inodes.{inode_store, search_from, get_from}

-- The `n` structs from `p` on.
unfoldable pub slots : Mem → ℕ → ℕ → List Inode
slots m p zero = []
slots m p (suc n) = read_inode m p ∷ slots m (p + 32) n

-- The inodes of the file system, in the order in which they were added.
abbrev pub table : Fs → List Inode
table s = slots (inode_store s) 0 (inodes_count s)

-- The first inode with a number.
unfoldable pub find_inode : ℕ → List Inode → Option Inode
find_inode ino [] = none
find_inode ino (i ∷ is) = if i.inode_no == ino then some i else find_inode ino is

-- The list with the first inode of the same number replaced.
unfoldable pub replace_inode : Inode → List Inode → List Inode
replace_inode i [] = []
replace_inode i (j ∷ js) = if j.inode_no == i.inode_no then i ∷ js else j ∷ replace_inode i js

pub slots-write_ne :
    (m : Mem) (p n q : ℕ) (i : Inode)
    → (q + 32 ≤ p) ⊎ (p + 32 * n ≤ q)
    → slots (write_inode m q i) p n ≡ slots m p n
unfolding slots
slots-write_ne m p zero q i h = refl
slots-write_ne m p (suc n) q i h =
    ap₂ ◌∷◌ (read_inode-write_inode_ne m q i p (omega arith))
      (slots-write_ne m (p + 32) n q i (omega arith))

-- The slot behind the last one extends the list.
pub slots-write_last :
    (m : Mem) (p n q : ℕ) (i : Inode)
    → Fits i
    → p + 32 * n ≡ q
    → slots (write_inode m q i) p (suc n) ≡ slots m p n ++ (i ∷ [])
unfolding slots
slots-write_last m p zero q i f e =
    ap (λ j. j ∷ [])
      (ap (read_inode (write_inode m q i)) (let e' : p ≡ q = omega arith in e')
        ∙ read_inode-write_inode_self m q i f)
slots-write_last m p (suc n) q i f e =
    ap₂ ◌∷◌ (read_inode-write_inode_ne m q i p (omega arith))
      (slots-write_last m (p + 32) n q i f (omega arith))

pub get_from-eq-find : (m : Mem) (p ino n : ℕ) → get_from m p ino n ≡ find_inode ino (slots m p n)
unfolding get_from slots find_inode read_inode
get_from-eq-find m p ino zero = refl
get_from-eq-find m p ino (suc n) =
    ap (λ r. if load64 m (p + 8) == ino then some (read_inode m p) else r)
      (get_from-eq-find m (p + 32) ino n)

-- Where the search ends, and what it has passed.
pub search_from-place :
    (m : Mem) (p ino n q : ℕ)
    → search_from m p ino n ≡ some q
    → (p ≤ q) × (q ≤ p + 32 * n) × (load64 m (q + 8) ≡ ino)
unfolding search_from
search_from-place m p ino zero q e = ground arith
search_from-place m p ino (suc n) q e = elim (Bool-cases (load64 m (p + 8) == ino)) [
  | inl here ↦ ground (arith, here)
  | inr there ↦
      let h = search_from-place m (p + 32) ino n q (rw there at e) in
      (omega arith, omega arith, h.2)
]

-- A write where the search ends replaces the inode of that number.
pub slots-write_found :
    (m : Mem) (p n q : ℕ) (i : Inode)
    → Fits i
    → search_from m p i.inode_no n ≡ some q
    → slots (write_inode m q i) p n ≡ replace_inode i (slots m p n)
unfolding slots search_from replace_inode read_inode
slots-write_found m p zero q i f e = refl
slots-write_found m p (suc n) q i f e = elim (Bool-cases (load64 m (p + 8) == i.inode_no)) [
  | inl here ↦
      let at : p ≡ q = ground (arith, here, e) in
      rw here (
        ap₂ ◌∷◌ (ap (read_inode (write_inode m q i)) at ∙ read_inode-write_inode_self m q i f)
          (slots-write_ne m (p + 32) n q i (omega (arith, at))))
  | inr there ↦
      let rest = rw there at e in
      rw there (
        ap₂ ◌∷◌
          (read_inode-write_inode_ne m q i p
            (omega (arith, search_from-place m (p + 32) i.inode_no n q rest)))
          (slots-write_found m (p + 32) n q i f rest))
]

-- Where the search finds nothing no inode has the number.
pub search_from-none :
    (m : Mem) (p ino n : ℕ) → search_from m p ino n ≡ none → find_inode ino (slots m p n) ≡ none
unfolding search_from slots find_inode read_inode
search_from-none m p ino zero e = refl
search_from-none m p ino (suc n) e = ground (arith, search_from-none m (p + 32) ino n)

pub find_inode-append_new :
    (is : List Inode) (i : Inode)
    → find_inode i.inode_no is ≡ none
    → find_inode i.inode_no (is ++ (i ∷ [])) ≡ some i
unfolding find_inode
find_inode-append_new [] i e = ground arith
find_inode-append_new (j ∷ is) i e = ground (arith, find_inode-append_new is i)

pub find_inode-append_old :
    (is : List Inode) (i : Inode) (ino : ℕ)
    → ino ≢ i.inode_no
    → find_inode ino (is ++ (i ∷ [])) ≡ find_inode ino is
unfolding find_inode
find_inode-append_old [] i ino h = ground arith
find_inode-append_old (j ∷ is) i ino h = ground (arith, find_inode-append_old is i ino h)

pub find_inode-replace :
    (is : List Inode) (i : Inode) {j : Inode}
    → find_inode i.inode_no is ≡ some j
    → find_inode i.inode_no (replace_inode i is) ≡ some i
unfolding find_inode replace_inode
find_inode-replace [] i e = cc
find_inode-replace (k ∷ is) i {j} e = ground (arith, find_inode-replace is i {j = j})

pub find_inode-replace_ne :
    (is : List Inode) (i : Inode) (ino : ℕ)
    → ino ≢ i.inode_no
    → find_inode ino (replace_inode i is) ≡ find_inode ino is
unfolding find_inode replace_inode
find_inode-replace_ne [] i ino h = refl
find_inode-replace_ne (k ∷ is) i ino h = ground (arith, find_inode-replace_ne is i ino h)

pub length-slots : (m : Mem) (p n : ℕ) → length (slots m p n) ≡ n
unfolding slots
length-slots m p zero = refl
length-slots m p (suc n) = ap suc (length-slots m (p + 32) n)

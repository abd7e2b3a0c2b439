-- ===== src/Simplefs/Volume/Blocks.antt =====
-- simplefs/simple.c: the blocks of the inodes, as a list.
use lkm.Prelude.{
  ℕ, ◌≤◌, ◌≡◌, ◌≢◌, refl, ap, sym, ◌∙◌, true, false, some, inl, inr, List, [], ◌∷◌, ◌++◌, ◌==◌,
  ==→eq, Bool-cases, arith,
}
use lkm.Simplefs.Layout.{Inode}
use lkm.Simplefs.Super.{masked, unmasked}
use lkm.Simplefs.Super.Blocks.{masked-unmasked-false}
use lkm.Simplefs.Inodes.Table.{find_inode, replace_inode}
use lkm.Simplefs.Numbers.{NotIn, Unique}
use lkm.Simplefs.Volume.{blocks_of, Taken}

pub find_inode-number :
    (n : ℕ) (is : List Inode) (i : Inode) → find_inode n is ≡ some i → i.inode_no ≡ n
unfolding find_inode
find_inode-number n [] i e = cc
find_inode-number n (j ∷ is) i e = elim (Bool-cases (j.inode_no == n)) [
  | inl same ↦ ground (arith, e, same)
  | inr other ↦ find_inode-number n is i (ground (arith, e, other))
]

pub blocks_of-append :
    (is : List Inode) (i : Inode)
    → blocks_of (is ++ (i ∷ [])) ≡ blocks_of is ++ (i.data_block_number ∷ [])
unfolding blocks_of
blocks_of-append [] i = refl
blocks_of-append (j ∷ is) i = ap (λ bs. j.data_block_number ∷ bs) (blocks_of-append is i)

-- An inode that is replaced by one with the same block.
pub blocks_of-replace_inode :
    (i j : Inode) (is : List Inode)
    → find_inode i.inode_no is ≡ some j
    → i.data_block_number ≡ j.data_block_number
    → blocks_of (replace_inode i is) ≡ blocks_of is
unfolding blocks_of replace_inode find_inode
blocks_of-replace_inode i j [] e same = refl
blocks_of-replace_inode i j (k ∷ is) e same = elim (Bool-cases (k.inode_no == i.inode_no)) [
  | inl here ↦ ground (arith, here, e, same)
  | inr there ↦ rw there (
      ap (λ bs. k.data_block_number ∷ bs)
        (blocks_of-replace_inode i j is (ground (arith, there, e)) same))
]

pub Unique-append : (b : ℕ) (bs : List ℕ) → NotIn b bs → Unique bs → Unique (bs ++ (b ∷ []))
unfolding Unique NotIn
Unique-append b [] h u = (tt, tt)
Unique-append b (c ∷ bs) (ne, h) (x, u) =
    (NotIn-append c b bs x (λ e. ne (sym e)), Unique-append b bs h u)
  where
    NotIn-append : (c b : ℕ) (bs : List ℕ) → NotIn c bs → b ≢ c → NotIn c (bs ++ (b ∷ []))
    NotIn-append c b [] x ne = (ne, tt)
    NotIn-append c b (d ∷ bs) (y, x) ne = (y, NotIn-append c b bs x ne)

-- A block that is free is none of theirs.
pub Taken-NotIn : (w b : ℕ) (bs : List ℕ) → masked w b ≡ true → Taken w bs → NotIn b bs
unfolding Taken NotIn
Taken-NotIn w b [] free h = tt
Taken-NotIn w b (c ∷ bs) free (lo, hi, marked, h) =
    (λ e. cc (free, marked, ap (masked w) e), Taken-NotIn w b bs free h)

pub Taken-unmasked : (w k : ℕ) (bs : List ℕ) → Taken w bs → Taken (unmasked w k) bs
unfolding Taken
Taken-unmasked w k [] h = tt
Taken-unmasked w k (c ∷ bs) (lo, hi, marked, h) =
    (lo, hi, masked-unmasked-false w k c hi marked, Taken-unmasked w k bs h)

pub Taken-append :
    (w b : ℕ) (bs : List ℕ)
    → 2 ≤ b
    → b ≤ 31
    → masked w b ≡ false
    → Taken w bs
    → Taken w (bs ++ (b ∷ []))
unfolding Taken
Taken-append w b [] lo hi marked h = (lo, hi, marked, tt)
Taken-append w b (c ∷ bs) lo hi marked (x, y, z, h) = (x, y, z, Taken-append w b bs lo hi marked h)

pub Taken-find_inode :
    (w n : ℕ) (is : List Inode) (i : Inode)
    → Taken w (blocks_of is)
    → find_inode n is ≡ some i
    → 2 ≤ i.data_block_number
unfolding Taken blocks_of find_inode
Taken-find_inode w n [] i h e = cc
Taken-find_inode w n (j ∷ is) i (x, y, z, h) e = elim (Bool-cases (j.inode_no == n)) [
  | inl same ↦ ground (arith, e, same, x)
  | inr other ↦ Taken-find_inode w n is i h (ground (arith, e, other))
]

NotIn-find_inode_block :
    (b n : ℕ) (is : List Inode) (i : Inode)
    → NotIn b (blocks_of is)
    → find_inode n is ≡ some i
    → i.data_block_number ≢ b
unfolding NotIn blocks_of find_inode
NotIn-find_inode_block b n [] i h e = cc
NotIn-find_inode_block b n (j ∷ is) i (x, h) e = elim (Bool-cases (j.inode_no == n)) [
  | inl same ↦ λ q. x (ground (arith, e, same, q))
  | inr other ↦ NotIn-find_inode_block b n is i h (ground (arith, e, other))
]

-- Two inodes of different numbers have different blocks.
pub Unique-blocks :
    (n m : ℕ) (is : List Inode) (i j : Inode)
    → Unique (blocks_of is)
    → n ≢ m
    → find_inode n is ≡ some i
    → find_inode m is ≡ some j
    → i.data_block_number ≢ j.data_block_number
unfolding Unique blocks_of find_inode
Unique-blocks n m [] i j u ne e f = cc
Unique-blocks n m (k ∷ is) i j (x, u) ne e f = elim (Bool-cases (k.inode_no == n)) [
  | inl a ↦ elim (Bool-cases (k.inode_no == m)) [
    | inl b ↦ absurd (ne (sym (==→eq _ n a) ∙ ==→eq _ m b))
    | inr b ↦
        let q : k ≡ i = ground (arith, a, e) in
        λ p.
          NotIn-find_inode_block k.data_block_number m is j x (ground (arith, b, f))
            (sym p ∙ ap (λ k. k.data_block_number) (sym q))
  ]
  | inr a ↦ elim (Bool-cases (k.inode_no == m)) [
    | inl b ↦
        let q : k ≡ j = ground (arith, b, f) in
        λ p.
          NotIn-find_inode_block k.data_block_number n is i x (ground (arith, a, e))
            (p ∙ ap (λ k. k.data_block_number) (sym q))
    | inr b ↦ Unique-blocks n m is i j u ne (ground (arith, a, e)) (ground (arith, b, f))
  ]
]

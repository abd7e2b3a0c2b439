-- ===== src/Simplefs/Layout/Laws.antt =====
-- simplefs/simple.h: an inode struct that is copied into a slot is read back, and other slots keep theirs.
use lkm.Prelude.{ℕ, ◌+◌, ◌^◌, ◌≤◌, ◌<◌, ◌≡◌, ◌∙◌, ap, sym, ◌⊎◌, inl, inr, arith}
use lkm.Prelude.Bytes.{
  Mem, store, load, load64, store64, to_le, from_le, length-to_le, from_le-to_le, load-store_self,
  load-store_ne, load_congr, store_out, load64-store64_self, load64-store64_ne,
}
use lkm.Simplefs.Layout.{Inode, read_inode, write_inode}

-- Every field fits its C type.
pub record Fits (i : Inode) : Type 0 where
  pub mode_fits : i.mode < 2 ^ 32
  pub no_fits : i.inode_no < 2 ^ 64
  pub block_fits : i.data_block_number < 2 ^ 64
  pub size_fits : i.file_size < 2 ^ 64

pub store64_out : (m : Mem) (off v a : ℕ) → (a < off) ⊎ (off + 8 ≤ a) → store64 m off v a ≡ m a
unfolding store64
store64_out m off v a (inl h) = store_out m off (to_le 8 v) a (inl h)
store64_out m off v a (inr h) =
    store_out m off (to_le 8 v) a (inr (omega (arith, length-to_le 8 v)))

-- Outside its 32 bytes the copy changes nothing.
pub write_inode_out :
    (m : Mem) (p : ℕ) (i : Inode) (a : ℕ) → (a < p) ⊎ (p + 32 ≤ a) → write_inode m p i a ≡ m a
unfolding write_inode
write_inode_out m p i a h =
    store64_out _ (p + 24) _ a (omega arith)
    ∙ store64_out _ (p + 16) _ a (omega arith)
    ∙ store64_out _ (p + 8) _ a (omega arith)
    ∙ store_out m p (to_le 4 i.mode) a (omega (arith, length-to_le 4 i.mode))

load-store64_ne :
    (m : Mem) (off v at n : ℕ)
    → (at + n ≤ off) ⊎ (off + 8 ≤ at)
    → load (store64 m off v) at n ≡ load m at n
unfolding store64
load-store64_ne m off v at n h =
    load-store_ne m off (to_le 8 v) at n (omega (arith, length-to_le 8 v))

load4-store_self : (m : Mem) (p v : ℕ) → v < 2 ^ 32 → from_le (load (store m p (to_le 4 v)) p 4) ≡ v
load4-store_self m p v h =
    ap from_le (
      ap (load (store m p (to_le 4 v)) p) (sym (length-to_le 4 v))
      ∙ load-store_self m p (to_le 4 v))
    ∙ from_le-to_le 4 v h

pub read_inode-write_inode_self :
    (m : Mem) (p : ℕ) (i : Inode) → Fits i → read_inode (write_inode m p i) p ≡ i
unfolding read_inode write_inode
read_inode-write_inode_self m p i f = λ j. record {
  mode = mode_eq j;
  inode_no = no_eq j;
  data_block_number = block_eq j;
  file_size = size_eq j;
}
  where
    m₀ : Mem
    m₀ = store m p (to_le 4 i.mode)

    m₁ : Mem
    m₁ = store64 m₀ (p + 8) i.inode_no

    m₂ : Mem
    m₂ = store64 m₁ (p + 16) i.data_block_number

    mode_eq : from_le (load (store64 m₂ (p + 24) i.file_size) p 4) ≡ i.mode
    mode_eq =
        ap from_le (
          load-store64_ne m₂ (p + 24) i.file_size p 4 (omega arith)
          ∙ load-store64_ne m₁ (p + 16) i.data_block_number p 4 (omega arith)
          ∙ load-store64_ne m₀ (p + 8) i.inode_no p 4 (omega arith))
        ∙ load4-store_self m p i.mode f.mode_fits

    no_eq : load64 (store64 m₂ (p + 24) i.file_size) (p + 8) ≡ i.inode_no
    no_eq =
        load64-store64_ne m₂ (p + 24) i.file_size (p + 8) (omega arith)
        ∙ load64-store64_ne m₁ (p + 16) i.data_block_number (p + 8) (omega arith)
        ∙ load64-store64_self m₀ (p + 8) i.inode_no f.no_fits

    block_eq : load64 (store64 m₂ (p + 24) i.file_size) (p + 16) ≡ i.data_block_number
    block_eq =
        load64-store64_ne m₂ (p + 24) i.file_size (p + 16) (omega arith)
        ∙ load64-store64_self m₁ (p + 16) i.data_block_number f.block_fits

    size_eq : load64 (store64 m₂ (p + 24) i.file_size) (p + 24) ≡ i.file_size
    size_eq = load64-store64_self m₂ (p + 24) i.file_size f.size_fits

-- Words that are the same at two places make the same struct.
read_inode_congr :
    (m m' : Mem) (p : ℕ)
    → ((a : ℕ) → p ≤ a → a < p + 32 → m a ≡ m' a)
    → read_inode m p ≡ read_inode m' p
unfolding read_inode load64
read_inode_congr m m' p h = λ j. record {
  mode = from_le (load_congr m m' p 4 (λ a x y. h a (omega arith) (omega arith)) j);
  inode_no = from_le (load_congr m m' (p + 8) 8 (λ a x y. h a (omega arith) (omega arith)) j);
  data_block_number =
      from_le (load_congr m m' (p + 16) 8 (λ a x y. h a (omega arith) (omega arith)) j);
  file_size = from_le (load_congr m m' (p + 24) 8 (λ a x y. h a (omega arith) (omega arith)) j);
}

-- Copying one inode leaves those in other slots alone.
pub read_inode-write_inode_ne :
    (m : Mem) (p : ℕ) (i : Inode) (q : ℕ)
    → (q + 32 ≤ p) ⊎ (p + 32 ≤ q)
    → read_inode (write_inode m p i) q ≡ read_inode m q
read_inode-write_inode_ne m p i q h =
    read_inode_congr _ m q (λ a x y. write_inode_out m p i a (omega arith))

-- ===== src/Simplefs/Threads/Sections.antt =====
-- simplefs/simple.c: what a thread relies on holds behind each of its steps.
use lkm.Prelude.{
  ℕ, ◌+◌, ◌*◌, ◌%◌, ◌^◌, ◌<◌, ◌≡◌, refl, ap, sym, ◌∙◌, subst, true, false, none, some, not, ◌&&◌,
  ◌||◌, length, leb, ltb, inl, inr, ◌==◌, ==→eq, put, Bool-cases, arith,
}
use lkm.Simplefs.Layout.{max_objects, record_bytes, s_isdir, s_isreg}
use lkm.Simplefs.Layout.Laws.{Fits}
use lkm.Simplefs.State.{inodes_count, free_blocks, update_ne}
use lkm.Simplefs.Super.{Scan, found, exhausted, wide, scan}
use lkm.Simplefs.Directories.Creation.{new_inode}
use lkm.Simplefs.Threads.{
  Creation, Pc, idle, enter, count, counting, counted, check, search, searching, searched, add,
  add_super, adding, added, added_super, name_it, grow, growing, save, saving, saved, leave_mgmt,
  leave, fill, size, sizing, Shared, Act, rest, undefined, acquire, release, compute, mark,
  record_named, filled, act,
}
use lkm.Simplefs.Threads.Mutexes.{held}
use lkm.Simplefs.Threads.Store.{
  View, view, Good, Agrees, Listed, Spare, Next, Pending, Target, Place,
}
use lkm.Simplefs.Threads.Keeps.{Kept, Kept-apart, Kept-mark, view-marked, Spare-marked, Kept-add}
use lkm.Simplefs.Threads.Saves.{Kept-block, Kept-save}

-- Where the thread comes to keeps its promises, and so does what it does on its way.
unfoldable pub After : Shared → Pc → Act → Type 0
After m p rest = Unit {0}
After m p undefined = Unit {0}
After m p (acquire l q) = Place m q
After m p (release l q) = Place m q
After m p (compute m' q) = Kept m m' p × Place m' q

new_inode-Next :
    (v : View) (n k mode : ℕ)
    → v.counts ≡ n
    → n < 64
    → mode < 2 ^ 32
    → Spare v k
    → Next v (new_inode mode n k)
new_inode-Next v n k mode e small fits s = record {
  counts_small = omega arith;
  number = omega (arith, e);
  spare = s;
  fits = record {
    mode_fits = fits;
    no_fits = omega arith;
    block_fits = let h = s.high in omega arith;
    size_fits = omega arith;
  };
}

module _ (m : Shared) (good : Good (view m.fs)) (agrees : Agrees m) where
  by_scan :
      (c : Creation) (n : ℕ)
      → inodes_count m.fs ≡ n
      → n < 64
      → Listed m c.dir
      → c.mode < 2 ^ 32
      → (r : Scan) → scan (free_blocks m.fs) ≡ r
      → After m (searching c n) (mark m c n r)
  unfolding After Pending Target held
  by_scan c n e small known fits (found k) q =
      let p = searching c n in
      let kept = Kept-mark m p k good agrees refl q in
      let views = view-marked m p k good agrees refl q in
      (
        kept,
        (
          (
            ap (λ v. v.counts) views ∙ e,
            small,
            subst (λ v. Spare v k) (sym views) (Spare-marked m p k good agrees refl q),
          ),
          (kept.listed c.dir known, fits),
        ),
      )
  by_scan c n e small known fits exhausted q = (
    Kept-apart m m (searching c n) good agrees refl refl (λ d j s. s),
    ((e, small, tt), (known, fits)),
  )
  by_scan c n e small known fits wide q = tt

  -- A new size of one inode in memory.
  resized :
      (p : Pc) (d n : ℕ)
      → n < 2 ^ 64
      → Kept m (record m { inodes = put m.inodes d (record (m.inodes d) { file_size = n }) }) p
  resized p d n small =
      Kept-apart m (record m { inodes = put m.inodes d (record (m.inodes d) { file_size = n }) }) p
        good agrees refl refl
        (λ e j s. elim (Bool-cases (e == d)) [
          | inl here ↦
              let q = ==→eq e d here in
              rw here (record {
                number = ap (λ d. (m.inodes d).inode_no) (sym q) ∙ s.number;
                block = ap (λ d. (m.inodes d).data_block_number) (sym q) ∙ s.block;
                fits =
                    let f = subst (λ d. Fits (m.inodes d)) q s.fits in
                    record {
                      mode_fits = f.mode_fits;
                      no_fits = f.no_fits;
                      block_fits = f.block_fits;
                      size_fits = small;
                    };
              })
          | inr other ↦ rw other s
        ])

  pub act-After : (p : Pc) → Place m p → After m p (act m p)
  unfolding act After Pending Target held
  act-After idle h = tt
  act-After (enter c) h = h
  act-After (count c) h = h
  act-After (counting c) (u, t) =
      (Kept-apart m m (counting c) good agrees refl refl (λ d j s. s), (refl, t))
  act-After (counted c n) h = h
  act-After (check c n) (e, t) =
      let stays = Kept-apart m m (check c n) good agrees refl refl (λ d j s. s) in
      elim (Bool-cases (leb max_objects n || (not (s_isdir c.mode) && not (s_isreg c.mode)))) [
        | inl refused ↦ rw refused (stays, (tt, tt))
        | inr fine ↦ rw fine (stays, ((e, ground arith), t))
      ]
  act-After (search c n) h = h
  act-After (searching c n) ((e, small), (known, fits)) =
      by_scan c n e small known fits (scan (free_blocks m.fs)) refl
  act-After (searched c n none) h = (tt, tt)
  act-After (searched c n (some k)) ((e, small, s), (known, fits)) =
      (new_inode-Next (view m.fs) n k c.mode e small fits s, (known, fits))
  act-After (add c i) h = h
  act-After (add_super c i) h = h
  act-After (adding c i) (next, (known, fits)) =
      let kept = Kept-add m (adding c i) i good agrees refl next in
      (kept, (tt, (kept.listed c.dir known, fits)))
  act-After (added c i) h = h
  act-After (added_super c i) h = h
  act-After (name_it c i) (u, (known, fits)) =
      elim (Bool-cases (ltb 4096 (record_bytes * (m.inodes c.dir).file_size + record_bytes))) [
        | inl over ↦ rw over tt
        | inr within ↦
            let kept =
              Kept-block m (name_it c i) c.dir good agrees known
                (record_named m.fs (m.inodes c.dir) c.name i.inode_no)
                (λ b ne. update_ne m.fs.cache (m.inodes c.dir).data_block_number _ b ne) in
            rw within (kept, (tt, (kept.listed c.dir known, fits)))
      ]
  act-After (grow c) h = h
  act-After (growing c) (u, (known, fits)) = (
    resized (growing c) c.dir (((m.inodes c.dir).file_size + 1) % 2 ^ 64) (omega arith),
    (tt, known),
  )
  act-After (save b d) h = h
  act-After (saving b d) (u, known) = (Kept-save m (saving b d) d good agrees known, (tt, tt))
  act-After (saved b d) h = h
  act-After (leave_mgmt true) h = h
  act-After (leave_mgmt false) h = h
  act-After leave h = h
  act-After (fill w) (u, known) = elim (Bool-cases (ltb 4096 (w.ppos + length w.buf))) [
    | inl over ↦ rw over tt
    | inr within ↦
        let kept =
          Kept-block m (fill w) w.file good agrees known
            (filled m.fs (m.inodes w.file) w.buf w.ppos)
            (λ b ne. update_ne m.fs.cache (m.inodes w.file).data_block_number _ b ne) in
        rw within (kept, (tt, (kept.listed w.file known, ground arith)))
  ]
  act-After (size w) h = h
  act-After (sizing w) (u, (known, small)) =
      (resized (sizing w) w.file (w.ppos + length w.buf) (omega arith), (tt, known))

-- ===== src/IoctlMmap/Program.antt =====
-- ioctl_mmap/test.c: the program that writes ten numbers to the device, shows them, changes one of them
-- through a mapping, and shows them again. Its calls are those of simple.c.
use lkm.Prelude.{
  ℕ, zero, suc, ◌+◌, ◌*◌, ◌%◌, ◌^◌, ◌≤◌, ◌<◌, ◌≡◌, ◌≢◌, refl, ap, ap₂, sym, ◌∙◌, inl, inr, Option,
  none, some, List, [], ◌∷◌, length, ◌==◌, if◌then◌else◌, ==→eq, Bool-cases, arith,
}
use lkm.Prelude.Bytes.{
  Mem, load, store, to_le, from_le, length-to_le, from_le-to_le, load-store_self, load-store_ne,
}
use lkm.IoctlMmap.{
  MmapDev, Copy, copied, eio, out_of_bounds, mmap_read, mmap_write, mmap_vma_open, mmap_vma_close,
}
use lkm.IoctlMmap.Access.{read_here, write_here}

abbrev pub write_next : Copy → Option MmapDev
write_next (copied n bytes d) = some d
write_next eio = none
write_next out_of_bounds = none

-- An open file begins at position 0.
abbrev pub opened : MmapDev → MmapDev
opened d = record d { f_pos = 0 }

-- The loop of `create_data` from `i`, with `n` rounds left. None is a fault or an error.
unfoldable pub write_ints : MmapDev → ℕ → ℕ → Option MmapDev
write_ints d i zero = some d
write_ints d i (suc n) = elim (write_next (mmap_write d (to_le 4 i))) [
  | none ↦ none
  | some d' ↦ write_ints d' (i + 1) n
]

unfoldable pub create_data : MmapDev → Option MmapDev
create_data d = write_ints (opened d) 0 10

-- What the loop of `display_data` prints, with `n` rounds left.
unfoldable pub read_ints : MmapDev → ℕ → Option (List ℕ × MmapDev)
read_ints d zero = some ([], d)
read_ints d (suc n) = elim (mmap_read d 4) [
  | copied c bytes d' ↦ elim (read_ints d' n) [
    | none ↦ none
    | some (ints, d'') ↦ some (if c == 4 then from_le bytes ∷ ints else ints, d'')
  ]
  | eio ↦ none
  | out_of_bounds ↦ none
]

unfoldable pub display_data : MmapDev → Option (List ℕ × MmapDev)
display_data d = read_ints (opened d) 10

-- The element at `i` of an `int *`.
abbrev pub int_at : Mem → ℕ → ℕ
int_at m i = from_le (load m (4 * i) 4)

-- `mapped[7] += 200`, between the `mmap`, which opens the mapping, and the `munmap`.
unfoldable pub mmap_data : MmapDev → MmapDev
mmap_data d =
    let d' = mmap_vma_open d in
    mmap_vma_close (record d' {
      page_data = store d'.page_data 28 (to_le 4 ((int_at d'.page_data 7 + 200) % 2 ^ 32));
    })

-- The two lines that `main` prints.
unfoldable pub main : MmapDev → Option (List ℕ × List ℕ)
main d = elim (create_data d) [
  | none ↦ none
  | some d₁ ↦ elim (display_data d₁) [
    | none ↦ none
    | some (first, d₂) ↦ elim (display_data (mmap_data d₂)) [
      | none ↦ none
      | some (second, d₃) ↦ some (first, second)
    ]
  ]
]

written_ints : Mem → ℕ → ℕ → Mem
written_ints m i zero = m
written_ints m i (suc n) = written_ints (store m (4 * i) (to_le 4 i)) (i + 1) n

write_ints-done :
    (d : MmapDev) (i n : ℕ)
    → d.f_pos ≡ i
    → 4 * (i + n) ≤ 4096
    → write_ints d i n ≡ some (record d { page_data = written_ints d.page_data i n; f_pos = i + n })
unfolding write_ints written_ints
write_ints-done d i zero e h =
    let p : d.f_pos ≡ i + 0 = omega arith in ap (λ q. some (record d { f_pos = q })) p
write_ints-done d i (suc n) e h =
    let d' : MmapDev = record d {
      page_data = store d.page_data (4 * i) (to_le 4 i);
      f_pos = i + 1;
    } in
    let here = write_here d (to_le 4 i) (omega (arith, length-to_le 4 i)) in
    let rest = write_ints-done d' (i + 1) n refl (omega arith) in
    let p : i + 1 + n ≡ i + suc n = omega arith in ground (arith, here, rest, e, p)

int_at-store_self : (m : Mem) (i v : ℕ) → v < 2 ^ 32 → int_at (store m (4 * i) (to_le 4 v)) i ≡ v
int_at-store_self m i v h =
    ap (λ n. from_le (load (store m (4 * i) (to_le 4 v)) (4 * i) n))
      (let e : 4 ≡ length (to_le 4 v) = omega (arith, length-to_le 4 v) in e)
    ∙ ap from_le (load-store_self m (4 * i) (to_le 4 v))
    ∙ from_le-to_le 4 v (omega arith)

int_at-store_ne :
    (m : Mem) (i j v : ℕ) → i ≢ j → int_at (store m (4 * i) (to_le 4 v)) j ≡ int_at m j
int_at-store_ne m i j v ne =
    ap from_le (load-store_ne m (4 * i) (to_le 4 v) (4 * j) 4 (omega (arith, length-to_le 4 v)))

int_at-below : (m : Mem) (i n k : ℕ) → k < i → int_at (written_ints m i n) k ≡ int_at m k
unfolding written_ints
int_at-below m i zero k h = refl
int_at-below m i (suc n) k h =
    int_at-below (store m (4 * i) (to_le 4 i)) (i + 1) n k (omega arith)
    ∙ int_at-store_ne m i k i (omega arith)

-- What is written at each place is its number.
int_at-written_ints :
    (m : Mem) (i n k : ℕ) → i ≤ k → k < i + n → k < 2 ^ 32 → int_at (written_ints m i n) k ≡ k
unfolding written_ints
int_at-written_ints m i zero k lo hi small = absurd (omega arith)
int_at-written_ints m i (suc n) k lo hi small = elim (Bool-cases (i == k)) [
  | inl here ↦
      let e = ==→eq i k here in
      int_at-below (store m (4 * i) (to_le 4 i)) (i + 1) n k (omega arith)
      ∙ ap (int_at (store m (4 * i) (to_le 4 i))) (sym e)
      ∙ int_at-store_self m i i (omega arith)
      ∙ e
  | inr there ↦
      int_at-written_ints (store m (4 * i) (to_le 4 i)) (i + 1) n k (ground arith) (omega arith)
        small
]

ints_from : (ℕ → ℕ) → ℕ → ℕ → List ℕ
ints_from f i zero = []
ints_from f i (suc n) = f i ∷ ints_from f (i + 1) n

read_ints-done :
    (d : MmapDev) (n : ℕ)
    → 4 * (d.f_pos + n) ≤ 4096
    → read_ints d n
      ≡ some (ints_from (int_at d.page_data) d.f_pos n, record d { f_pos = d.f_pos + n })
unfolding read_ints ints_from
read_ints-done d zero h =
    let p : d.f_pos ≡ d.f_pos + 0 = omega arith in ap (λ q. some ([], record d { f_pos = q })) p
read_ints-done d (suc n) h =
    let here = read_here d 4 (omega arith) in
    let rest = read_ints-done (record d { f_pos = d.f_pos + 1 }) n (omega arith) in
    let p : d.f_pos + 1 + n ≡ d.f_pos + suc n = omega arith in ground (arith, here, rest, p)

ints_from_congr :
    (f g : ℕ → ℕ) (i n : ℕ)
    → ((k : ℕ) → i ≤ k → k < i + n → f k ≡ g k)
    → ints_from f i n ≡ ints_from g i n
unfolding ints_from
ints_from_congr f g i zero h = refl
ints_from_congr f g i (suc n) h =
    ap₂ ◌∷◌ (h i (omega arith) (omega arith))
      (ints_from_congr f g (i + 1) n (λ k lo hi. h k (omega arith) (omega arith)))

-- What the program finds at each place after the change.
abbrev changed : ℕ → ℕ
changed k = if k == 7 then 207 else k

module _ (d : MmapDev) where
  abbrev created : Mem
  created = written_ints d.page_data 0 10

  abbrev modified : Mem
  modified = store created 28 (to_le 4 ((int_at created 7 + 200) % 2 ^ 32))

  first_ints : ints_from (int_at created) 0 10 ≡ ints_from (λ k. k) 0 10
  first_ints =
      ints_from_congr (int_at created) (λ k. k) 0 10
        (λ k lo hi. int_at-written_ints d.page_data 0 10 k lo hi (omega arith))

  modified_int : (k : ℕ) → k < 10 → int_at modified k ≡ changed k
  modified_int k h =
      let seven : (int_at created 7 + 200) % 2 ^ 32 ≡ 207 =
        omega (
          arith,
          int_at-written_ints d.page_data 0 10 7 (omega arith) (omega arith) (omega arith),
        ) in
      ap (λ v. int_at (store created 28 (to_le 4 v)) k) seven ∙ elim (Bool-cases (k == 7)) [
        | inl here ↦ rw here (
            ap (int_at (store created 28 (to_le 4 207))) (==→eq k 7 here)
            ∙ int_at-store_self created 7 207 (omega arith))
        | inr there ↦ rw there (
            int_at-store_ne created 7 k 207 (λ e. ground arith)
            ∙ int_at-written_ints d.page_data 0 10 k (omega arith) (omega arith) (omega arith))
      ]

  second_ints : ints_from (int_at modified) 0 10 ≡ ints_from changed 0 10
  second_ints = ints_from_congr (int_at modified) changed 0 10 (λ k lo hi. modified_int k hi)

  create_data-done : create_data d ≡ some (record d { page_data = created; f_pos = 10 })
  unfolding create_data
  create_data-done = write_ints-done (opened d) 0 10 refl (omega arith)

-- Whatever the page of the device held, no call of the program is refused or leaves the page: the
-- program shows the numbers from 0 to 9, and after it has added 200 to the eighth of them through its
-- mapping, it shows the same numbers with 207 in place of 7.
pub main_prints :
    (d : MmapDev)
    → main d
      ≡ some
          (0 ∷ 1 ∷ 2 ∷ 3 ∷ 4 ∷ 5 ∷ 6 ∷ 7 ∷ 8 ∷ 9 ∷ [], 0 ∷ 1 ∷ 2 ∷ 3 ∷ 4 ∷ 5 ∷ 6 ∷ 207 ∷ 8 ∷ 9 ∷ [])
unfolding main display_data mmap_data mmap_vma_open mmap_vma_close ints_from
main_prints d =
    let d₁ : MmapDev = record d { page_data = created d; f_pos = 10 } in
    let one = read_ints-done (opened d₁) 10 (omega arith) in
    let two = read_ints-done (opened (mmap_data d₁)) 10 (omega arith) in
    ground (arith, create_data-done d, one, two, first_ints d, second_ints d)

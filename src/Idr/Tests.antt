-- ===== src/Idr/Tests.antt =====
-- idr/simple.c with a map that gives the numbers in order and never one twice.
use lkm.Prelude.{
  ℕ, zero, suc, ◌≡◌, ◌≢◌, refl, sym, ap, ◌∙◌, Option, none, some, List, [], ◌∷◌, ◌++◌, length,
  get_or, ap₂,
}
use lkm.Idr.{In, here, there, IdrOps, ptr1, ptr2, mod_init, mod_exit, find-mod_init}

abbrev Slots : Type 0
Slots = List (Option ℕ)

abbrev find : Slots → ℕ → Option ℕ
find m i = get_or m i none

abbrev remove : Slots → ℕ → Slots
remove [] i = []
remove (x ∷ m) zero = none ∷ m
remove (x ∷ m) (suc i) = x ∷ remove m i

abbrev alloc : Slots → ℕ → Option (ℕ × Slots)
alloc m p = some (length m, m ++ (some p ∷ []))

abbrev shift : List ℕ → List ℕ
shift [] = []
shift (i ∷ l) = suc i ∷ shift l

abbrev up_to : Slots → List ℕ
up_to [] = []
up_to (x ∷ m) = 0 ∷ shift (up_to m)

find_free : (m : Slots) → find m (length m) ≡ none
find_free [] = refl
find_free (x ∷ m) = find_free m

find_last : (m : Slots) (p : ℕ) → find (m ++ (some p ∷ [])) (length m) ≡ some p
find_last [] p = refl
find_last (x ∷ m) p = find_last m p

find_kept : (m : Slots) (p j : ℕ) → j ≢ length m → find (m ++ (some p ∷ [])) j ≡ find m j
find_kept [] p zero d = absurd (d refl)
find_kept [] p (suc j) d = refl
find_kept (x ∷ m) p zero d = refl
find_kept (x ∷ m) p (suc j) d = find_kept m p j (λ e. d (ap suc e))

find_removed : (m : Slots) (i : ℕ) → find (remove m i) i ≡ none
find_removed [] i = refl
find_removed (x ∷ m) zero = refl
find_removed (x ∷ m) (suc i) = find_removed m i

find_others : (m : Slots) (i j : ℕ) → j ≢ i → find (remove m i) j ≡ find m j
find_others [] i j d = refl
find_others (x ∷ m) zero zero d = absurd (d refl)
find_others (x ∷ m) zero (suc j) d = refl
find_others (x ∷ m) (suc i) zero d = refl
find_others (x ∷ m) (suc i) (suc j) d = find_others m i j (λ e. d (ap suc e))

In-shift : (i : ℕ) (l : List ℕ) → In i l → In (suc i) (shift l)
In-shift i _ here = here
In-shift i (x ∷ l) (there h) = there (In-shift i l h)

In-up_to : (m : Slots) (i p : ℕ) → find m i ≡ some p → In i (up_to m)
In-up_to [] i p e = cc e
In-up_to (x ∷ m) zero p e = here
In-up_to (x ∷ m) (suc i) p e = there (In-shift i (up_to m) (In-up_to m i p e))

alloc_number : (m m' : Slots) (p i : ℕ) → alloc m p ≡ some (i, m') → length m ≡ i
alloc_number m m' p i e = cc e

alloc_slots : (m m' : Slots) (p i : ℕ) → alloc m p ≡ some (i, m') → m ++ (some p ∷ []) ≡ m'
alloc_slots m m' p i e = cc e

slots_free : (m m' : Slots) (p i : ℕ) → alloc m p ≡ some (i, m') → find m i ≡ none
slots_free m m' p i e = ap (find m) (sym (alloc_number m m' p i e)) ∙ find_free m

slots_found : (m m' : Slots) (p i : ℕ) → alloc m p ≡ some (i, m') → find m' i ≡ some p
slots_found m m' p i e =
    ap₂ find (sym (alloc_slots m m' p i e)) (sym (alloc_number m m' p i e)) ∙ find_last m p

slots_kept : (m m' : Slots) (p i j : ℕ) → alloc m p ≡ some (i, m') → j ≢ i → find m' j ≡ find m j
slots_kept m m' p i j e d =
    ap (λ m. find m j) (sym (alloc_slots m m' p i e))
    ∙ find_kept m p j (λ q. d (q ∙ alloc_number m m' p i e))

abbrev slots : IdrOps
slots = record {
  Idr = Slots;
  idr_init = [];
  idr_alloc = alloc;
  idr_find = find;
  idr_remove = remove;
  ids = up_to;
  find-init = λ i. refl;
  alloc_free = slots_free;
  find-alloc = slots_found;
  find-alloc_ne = slots_kept;
  find-remove = find_removed;
  find-remove_ne = find_others;
  ids_all = In-up_to;
}

both_found :
    (◌≢◌ {A = ℕ} 0 1)
    × ((mod_init slots).ptr ≡ some ptr1)
    × (find (mod_init slots).idr_map 0 ≡ some ptr1)
    × (find (mod_init slots).idr_map 1 ≡ some ptr2)
    × ((k : ℕ) → find (mod_exit slots (mod_init slots).idr_map) k ≡ none)
both_found = find-mod_init slots 0 1 (some ptr1 ∷ []) (some ptr1 ∷ some ptr2 ∷ []) refl refl

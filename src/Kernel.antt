-- ===== src/Kernel.antt =====
-- What the drivers take from the kernel and give back, as their init and exit functions and error
-- paths do. The drivers use it with their own resources and calls.
pub mod Held
use lkm.Prelude.{ℕ, Bool, true, false, Option, none, some, List, [], ◌∷◌, ◌==◌, if◌then◌else◌}

-- Resources are told apart by a number.
pub record Tagged (R : Type 0) : Type 0 where
  pub tag : R → ℕ

-- A run ends with a value and the resources that are held then, the latest first, or in a fault:
-- something is given back that is not held, or a NULL is used.
pub data Run (R A : Type 0) : Type 0 where
  done : A → List R → Run R A
  fault : Run R A

abbrev pub M : Type 0 → Type 0 → Type 0
M R A = List R → Run R A

infixl 5 ◌>>=◌ ◌>>◌
abbrev pub ◌>>=◌ : {R A B : Type 0} → M R A → (A → M R B) → M R B
◌>>=◌ m f l = elim (m l) [ done a l' ↦ f a l' | fault ↦ fault ]

abbrev pub ◌>>◌ : {R B : Type 0} → M R (Unit {0}) → M R B → M R B
m >> k = m >>= λ _. k

abbrev pub pure : {R A : Type 0} → A → M R A
pure a l = done a l

abbrev pub crash : {R A : Type 0} → M R A
crash l = fault

abbrev pub branch : {R A : Type 0} → Bool → M R A → M R A → M R A
branch true m k l = m l
branch false m k l = k l

-- A call that takes a resource, or fails; the value tells whether it failed.
abbrev pub take_res : {R : Type 0} → Bool → R → M R Bool
take_res true r l = done true l
take_res false r l = done false (r ∷ l)

-- The list with one resource taken out.
unfoldable pub remove_res : {R : Type 0} ⦃t : Tagged R⦄ → R → List R → Option (List R)
remove_res r [] = none
remove_res ⦃t⦄ r (x ∷ l) =
    if t.tag x == t.tag r
    then some l
    else elim (remove_res ⦃t = t⦄ r l) [ none ↦ none | some l' ↦ some (x ∷ l') ]

abbrev pub give : {R : Type 0} ⦃t : Tagged R⦄ → R → M R (Unit {0})
give ⦃t⦄ r l = elim (remove_res ⦃t = t⦄ r l) [ none ↦ fault | some l' ↦ done tt l' ]

-- As `give`, but for a call that does nothing when there is nothing to give back.
abbrev pub drop : {R : Type 0} ⦃t : Tagged R⦄ → R → M R (Unit {0})
drop ⦃t⦄ r l = elim (remove_res ⦃t = t⦄ r l) [ none ↦ done tt l | some l' ↦ done tt l' ]

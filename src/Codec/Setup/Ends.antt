-- ===== src/Codec/Setup/Ends.antt =====
-- pci/unknown/simple.c: what the init function of the codec module leaves, and what the exit function
-- gives back.
use lkm.Prelude.{
  ℕ, ◌^◌, ◌<◌, ◌≤◌, ◌≡◌, ◌≢◌, refl, ap, ◌∙◌, ◌⊎◌, inl, inr, Bool, true, false, List, [], ◌∷◌, arith,
}
use lkm.Kernel.Held.{bind_done, give-head}
use lkm.Kernel.{done, ◌>>◌, remove_res, give, drop}
use lkm.Codec.Setup.{
  ModRes, mod_res_tagged, numbers, cdev_object, added, class, driver, device, max_devices, mkdev,
  ModEnv, destroy_devices, free_dev_number, free_cdev, mod_init, mod_exit,
}

-- The numbers that the loop asks for have the major number 0.
mkdev-mkdev : (major i : ℕ) → 0 < major → major < 2 ^ 12 → i < 2 → mkdev (mkdev major 0) i ≡ i
mkdev-mkdev major i p q r = omega arith

mkdev_above : (major i : ℕ) → 0 < major → major < 2 ^ 12 → i < 3 → 2 ≤ mkdev major i
mkdev_above major i p q r = omega arith

abbrev at_class : List ModRes
at_class = class ∷ added ∷ cdev_object ∷ numbers ∷ []

abbrev nodes : ℕ → List ModRes → List ModRes
nodes major l = device (mkdev major 2) ∷ device (mkdev major 1) ∷ device (mkdev major 0) ∷ l

drop_absent :
    (i a b c : ℕ)
    → i < 2
    → 2 ≤ a
    → 2 ≤ b
    → 2 ≤ c
    → drop (device i) (device a ∷ device b ∷ device c ∷ at_class)
      ≡ done tt (device a ∷ device b ∷ device c ∷ at_class)
unfolding remove_res
drop_absent i a b c h p q r = ground arith

drop_none : (i : ℕ) → drop (device i) at_class ≡ done tt at_class
unfolding remove_res
drop_none i = ground arith

drop_all :
    (major : ℕ) (l : List ModRes)
    → ((i : ℕ) → i < 2 → drop (device (mkdev (mkdev major 0) i)) l ≡ done tt l)
    → destroy_devices major 0 max_devices l ≡ done tt l
unfolding destroy_devices
drop_all major l h =
    bind_done (drop (device (mkdev (mkdev major 0) 0))) _ (h 0 (omega arith))
    ∙ bind_done (drop (device (mkdev (mkdev major 0) 1))) _ (h 1 (omega arith))

destroy_misses :
    (major : ℕ)
    → 0 < major
    → major < 2 ^ 12
    → destroy_devices major 0 max_devices (nodes major at_class) ≡ done tt (nodes major at_class)
destroy_misses major p q = drop_all major (nodes major at_class) (λ i r.
    ap (λ n. drop (device n) (nodes major at_class)) (mkdev-mkdev major i p q r)
    ∙ drop_absent i (mkdev major 2) (mkdev major 1) (mkdev major 0) r
        (mkdev_above major 2 p q (omega arith)) (mkdev_above major 1 p q (omega arith))
        (mkdev_above major 0 p q (omega arith)))

give_numbers :
    (a b c : ℕ)
    → free_dev_number (device a ∷ device b ∷ device c ∷ at_class)
      ≡ done false (device a ∷ device b ∷ device c ∷ class ∷ added ∷ cdev_object ∷ [])
unfolding free_dev_number remove_res
give_numbers a b c = ground arith

give_third :
    (a b c : ℕ) (l : List ModRes)
    → a ≢ c
    → b ≢ c
    → give (device c) (device a ∷ device b ∷ device c ∷ l) ≡ done tt (device a ∷ device b ∷ l)
unfolding remove_res
give_third a b c l p q = ground arith

give_second :
    (a b : ℕ) (l : List ModRes)
    → a ≢ b
    → give (device b) (device a ∷ device b ∷ l) ≡ done tt (device a ∷ l)
unfolding remove_res
give_second a b l p = ground arith

give_rest : (do give class; give added; give cdev_object; give numbers) at_class ≡ done tt []
unfolding remove_res
give_rest = refl

mkdev_ne : (major i j : ℕ) → major < 2 ^ 12 → i < 3 → j < 3 → i ≢ j → mkdev major i ≢ mkdev major j
mkdev_ne major i j q r s d e = omega arith

exit_all :
    (env : ModEnv)
    → env.major < 2 ^ 12
    → mod_exit env (driver ∷ nodes env.major at_class) ≡ done tt []
unfolding mod_exit
exit_all env q =
    bind_done (give driver) _ (give-head driver (nodes env.major at_class))
    ∙ bind_done (give (device (mkdev env.major 0))) _ (
        give_third (mkdev env.major 2) (mkdev env.major 1) (mkdev env.major 0) at_class
          (mkdev_ne env.major 2 0 q (omega arith) (omega arith) (omega arith))
          (mkdev_ne env.major 1 0 q (omega arith) (omega arith) (omega arith)))
    ∙ bind_done (give (device (mkdev env.major 1))) _ (
        give_second (mkdev env.major 2) (mkdev env.major 1) at_class
          (mkdev_ne env.major 2 1 q (omega arith) (omega arith) (omega arith)))
    ∙ bind_done (give (device (mkdev env.major 2))) _
        (give-head (device (mkdev env.major 2)) at_class)
    ∙ bind_done (destroy_devices env.major 0 max_devices) _
        (drop_all env.major at_class (λ i r. drop_none (mkdev (mkdev env.major 0) i)))
    ∙ give_rest

-- One of the calls before the class fails.
abbrev NotAdded : ModEnv → Type 0
NotAdded env = (env.alloc_chrdev_region ≡ true) ⊎ ((env.cdev_alloc ≡ true) ⊎ (env.cdev_add ≡ true))

abbrev IsAdded : ModEnv → Type 0
IsAdded env = (env.alloc_chrdev_region ≡ false) × (env.cdev_alloc ≡ false) × (env.cdev_add ≡ false)

-- How the init function of the module ends, by the first call that fails.
unfoldable pub ModInitEnds : ModEnv → Type 0
ModInitEnds env =
    (NotAdded env × (mod_init env [] ≡ done false []))
    ⊎ ((IsAdded env × (env.class_create ≡ true) × (mod_init env [] ≡ done false (added ∷ [])))
        ⊎ ((IsAdded env
              × (env.class_create ≡ false)
              × (env.pci_register_driver ≡ true)
              × (mod_init env [] ≡ done false (nodes env.major (class ∷ added ∷ cdev_object ∷ []))))
            ⊎ (IsAdded env
                × (env.class_create ≡ false)
                × (env.pci_register_driver ≡ false)
                × (mod_init env [] ≡ done true (driver ∷ nodes env.major at_class))
                × (mod_exit env (driver ∷ nodes env.major at_class) ≡ done tt []))))

-- With its three device nodes created, the init function of the module ends by the first call that
-- fails. When no call fails, it takes everything, and the exit function gives it all back. Otherwise it returns -EIO: when
-- the numbers, the device's memory or the device cannot be had, it holds nothing; when the class
-- cannot, the device stays added, with its memory freed; and when the driver is refused, all but the
-- numbers stays: the loop asks for nodes of another major number.
pub mod_init-ModInitEnds :
    (env : ModEnv)
    → 0 < env.major
    → env.major < 2 ^ 12
    → ((i : ℕ) → env.device_create i ≡ false)
    → ModInitEnds env
unfolding ModInitEnds mod_init free_cdev free_dev_number remove_res
mod_init-ModInitEnds env p q h =
    go env.alloc_chrdev_region env.cdev_alloc env.cdev_add env.class_create env.pci_register_driver
      refl refl refl refl refl
  where
    go :
        (a b c d e : Bool)
        → env.alloc_chrdev_region ≡ a
        → env.cdev_alloc ≡ b
        → env.cdev_add ≡ c
        → env.class_create ≡ d
        → env.pci_register_driver ≡ e
        → ModInitEnds env
    go true b c d e ea eb ec ed ee = inl (inl ea, rw ea refl)
    go false true c d e ea eb ec ed ee = inl (inr (inl eb), rw (ea, eb) refl)
    go false false true d e ea eb ec ed ee = inl (inr (inr ec), rw (ea, eb, ec) refl)
    go false false false true e ea eb ec ed ee =
        inr (inl ((ea, eb, ec), ed, rw (ea, eb, ec, ed) refl))
    go false false false false true ea eb ec ed ee = inr (
        inr (
          inl (
            (ea, eb, ec),
            ed,
            ee,
            rw (ea, eb, ec, ed, h 0, h 1, h 2, ee)
                (bind_done (destroy_devices env.major 0 max_devices) _
                    (destroy_misses env.major p q)
                  ∙ give_numbers (mkdev env.major 2) (mkdev env.major 1) (mkdev env.major 0)),
          )))
    go false false false false false ea eb ec ed ee = inr (
        inr
          (inr ((ea, eb, ec), ed, ee, rw (ea, eb, ec, ed, h 0, h 1, h 2, ee) refl, exit_all env q)))

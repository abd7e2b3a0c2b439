-- ===== src/Codec/Setup.antt =====
-- pci/unknown/simple.c: init and exit of the codec module.
pub mod Ends
use lkm.Prelude.{
  ℕ, zero, suc, ◌+◌, ◌*◌, ◌%◌, ◌^◌, ◌<◌, ◌≤◌, ◌≡◌, ◌≢◌, refl, ap, ◌∙◌, ◌⊎◌, inl, inr, Bool, true,
  false, List, [], ◌∷◌, arith, if◌then◌else◌, ◌==◌,
}
use lkm.Kernel.Held.{bind_done, give-head}
use lkm.Kernel.{
  Tagged, Run, done, fault, M, ◌>>=◌, ◌>>◌, pure, crash, branch, take_res, remove_res, give, drop,
}

-- `device n` is the device node of the number `n`.
pub data ModRes : Type 0 where
  numbers cdev_object added class driver : ModRes
  device : ℕ → ModRes

abbrev tag_of : ModRes → ℕ
tag_of numbers = 0
tag_of cdev_object = 1
tag_of added = 2
tag_of class = 3
tag_of driver = 4
tag_of (device n) = 5 + n

instance abbrev pub mod_res_tagged : Tagged ModRes
mod_res_tagged = record { tag = tag_of }

abbrev pub max_devices : ℕ
max_devices = 2

-- `MKDEV`, on words of 32 bits
abbrev pub mkdev : ℕ → ℕ → ℕ
mkdev major minor = (major * 2 ^ 20 + minor) % 2 ^ 32

-- Which calls of the init function fail, and the major number that `alloc_chrdev_region` gives.
pub record ModEnv : Type 0 where
  pub major : ℕ
  pub alloc_chrdev_region : Bool
  pub cdev_alloc : Bool
  pub cdev_add : Bool
  pub class_create : Bool
  pub device_create : ℕ → Bool
  pub pci_register_driver : Bool

-- `for (i = 0; i < MAX_DEVICES; i++) device_destroy(pci_class, MKDEV(pci_dev_number, i))`, from `i`
-- with `n` rounds left. A device that is not there is left alone.
unfoldable pub destroy_devices : ℕ → ℕ → ℕ → M ModRes (Unit {0})
destroy_devices major i zero = pure tt
destroy_devices major i (suc n) = do
  drop (device (mkdev (mkdev major 0) i))
  destroy_devices major (suc i) n

-- The labels; the value tells whether the function returned 0.
unfoldable pub free_dev_number : M ModRes Bool
free_dev_number = do give numbers; pure false

unfoldable pub free_cdev : M ModRes Bool
free_cdev = do give cdev_object; free_dev_number

unfoldable pub mod_init : ModEnv → M ModRes Bool
mod_init env = do
  no_numbers ← take_res env.alloc_chrdev_region numbers
  branch no_numbers (pure false) (do
    no_cdev ← take_res env.cdev_alloc cdev_object
    branch no_cdev free_dev_number (do
      not_added ← take_res env.cdev_add added
      branch not_added free_cdev (do
        no_class ← take_res env.class_create class
        branch no_class free_cdev (do
          pci_prc ← take_res (env.device_create 0) (device (mkdev env.major 0))
          pci_irq_0 ← take_res (env.device_create 1) (device (mkdev env.major 1))
          pci_irq_1 ← take_res (env.device_create 2) (device (mkdev env.major 2))
          no_driver ← take_res env.pci_register_driver driver
          branch no_driver (do destroy_devices env.major 0 max_devices; free_dev_number)
              (pure true)))))

-- `cdev_del` takes the device away and frees its memory.
unfoldable pub mod_exit : ModEnv → M ModRes (Unit {0})
mod_exit env = do
  give driver
  give (device (mkdev env.major 0))
  give (device (mkdev env.major 1))
  give (device (mkdev env.major 2))
  destroy_devices env.major 0 max_devices
  give class
  give added
  give cdev_object
  give numbers

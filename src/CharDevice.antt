-- ===== src/CharDevice.antt =====
-- char_device/version2/simple.c: init and exit of a character device with a class and a device node.
pub mod Hello
pub mod Misc
mod Tests
use lkm.Prelude.{ℕ, ◌≡◌, ◌≢◌, Bool, true, false, List, [], ◌∷◌, ◌⊎◌, inl, inr, arith}
use lkm.Kernel.{Tagged, done, M, ◌>>=◌, ◌>>◌, pure, branch, take_res, remove_res, give}

pub data Res : Type 0 where
  region cdev class device : Res

abbrev tag_of : Res → ℕ
tag_of region = 0
tag_of cdev = 1
tag_of class = 2
tag_of device = 3

instance abbrev pub res_tagged : Tagged Res
res_tagged = record { tag = tag_of }

-- Which calls of the init function fail.
pub record Env : Type 0 where
  pub alloc_chrdev_region : Bool
  pub cdev_add : Bool
  pub class_create : Bool
  pub device_create : Bool

-- `result`, as the call that it comes from
pub data Outcome : Type 0 where
  ok region_error cdev_error class_error device_error : Outcome

unfoldable pub unregister_chrdev : Outcome → M Res Outcome
unregister_chrdev result = do give region; pure result

unfoldable pub destroy_class : Outcome → M Res Outcome
destroy_class result = do give class; unregister_chrdev result

unfoldable pub my_init : Env → M Res Outcome
my_init env = do
  no_region ← take_res env.alloc_chrdev_region region
  branch no_region (unregister_chrdev region_error) (do
    no_cdev ← take_res env.cdev_add cdev
    branch no_cdev (unregister_chrdev cdev_error) (do
      no_class ← take_res env.class_create class
      branch no_class (unregister_chrdev class_error) (do
        no_device ← take_res env.device_create device
        branch no_device (destroy_class device_error) (pure ok))))

unfoldable pub my_exit : M Res (Unit {0})
my_exit = do give device; give class; give cdev; give region

-- After an init that returned 0, the exit function gives back all that it took, and nothing else.
pub my_exit-my_init :
    (env : Env) (l l' : List Res) → my_init env l ≡ done ok l' → my_exit l' ≡ done tt l
unfolding my_init my_exit unregister_chrdev destroy_class remove_res
my_exit-my_init env l l' e = ground arith

-- With the numbers allocated, an init that fails gives back all that it took, but once the cdev is
-- added it stays added, though the module is not loaded.
pub my_init_error :
    (env : Env) (l l' : List Res) (r : Outcome)
    → env.alloc_chrdev_region ≡ false
    → r ≢ ok
    → my_init env l ≡ done r l'
    → ((env.cdev_add ≡ true) × (l' ≡ l)) ⊎ ((env.cdev_add ≡ false) × (l' ≡ cdev ∷ l))
unfolding my_init unregister_chrdev destroy_class remove_res
my_init_error env l l' r a n e = ground arith

-- ===== src/Mutex/Driver.antt =====
-- mutex/simple.c: init and exit of the device, which look at the result of the first call only.
use lkm.Prelude.{ℕ, ◌≡◌, Bool, true, false, List, [], arith}
use lkm.Kernel.{Tagged, done, M, ◌>>=◌, ◌>>◌, pure, crash, branch, take_res, remove_res, give, drop}

pub data Res : Type 0 where
  region cdev class device : Res

abbrev tag_of : Res → ℕ
tag_of region = 0
tag_of cdev = 1
tag_of class = 2
tag_of device = 3

instance abbrev pub res_tagged : Tagged Res
res_tagged = record { tag = tag_of }

-- Which calls of the init function fail.
pub record Env : Type 0 where
  pub alloc_chrdev_region : Bool
  pub cdev_add : Bool
  pub class_create : Bool
  pub device_create : Bool

-- The value tells whether `my_init` returned 0. A class that is an error pointer is used as a class.
unfoldable pub my_init : Env → M Res Bool
my_init env = do
  ret ← take_res env.alloc_chrdev_region region
  branch ret (pure false) (do
    no_cdev ← take_res env.cdev_add cdev
    no_class ← take_res env.class_create class
    branch no_class crash (do no_device ← take_res env.device_create device; pure true))

-- `cdev_del` and `device_destroy` do nothing when there is nothing to take away.
unfoldable pub my_exit : M Res (Unit {0})
my_exit = do drop cdev; drop device; give class; give region

-- When the init function returns 0, the exit function gives back all that it took, whatever calls were
-- refused on the way, and nothing else.
pub my_exit-my_init :
    (env : Env) (l' : List Res) → my_init env [] ≡ done true l' → my_exit l' ≡ done tt []
unfolding my_init my_exit remove_res
my_exit-my_init env l' e = ground arith

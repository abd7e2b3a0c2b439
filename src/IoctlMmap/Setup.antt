-- ===== src/IoctlMmap/Setup.antt =====
-- ioctl_mmap/simple.c: init and exit of the device, which look at no result.
use lkm.Prelude.{ℕ, ◌≡◌, Bool, List, [], arith}
use lkm.Kernel.{Tagged, done, M, ◌>>=◌, ◌>>◌, pure, crash, branch, take_res, remove_res, give, drop}

-- `mmapdev_cdev` itself, and `added` for its being added.
pub data Res : Type 0 where
  mmapdev_cdev region added class device page : Res

abbrev tag_of : Res → ℕ
tag_of mmapdev_cdev = 0
tag_of region = 1
tag_of added = 2
tag_of class = 3
tag_of device = 4
tag_of page = 5

instance abbrev pub res_tagged : Tagged Res
res_tagged = record { tag = tag_of }

-- Which calls of the init function fail.
pub record Env : Type 0 where
  pub cdev_alloc : Bool
  pub alloc_chrdev_region : Bool
  pub cdev_add : Bool
  pub class_create : Bool
  pub device_create : Bool
  pub vmalloc : Bool

-- `cdev_init`, `device_create` and `memset` use what the call before them returned; the function
-- returns 0.
unfoldable pub mmap_init : Env → M Res (Unit {0})
mmap_init env = do
  no_cdev ← take_res env.cdev_alloc mmapdev_cdev
  no_region ← take_res env.alloc_chrdev_region region
  branch no_cdev crash (do
    cdev_err ← take_res env.cdev_add added
    no_class ← take_res env.class_create class
    branch no_class crash (do
      no_device ← take_res env.device_create device
      no_page ← take_res env.vmalloc page
      branch no_page crash (pure tt)))

-- `device_destroy` and `unregister_chrdev_region` do nothing when there is nothing to take away;
-- `cdev_del` does so for the device, and frees its memory.
unfoldable pub mmap_exit : M Res (Unit {0})
mmap_exit = do drop device; give class; drop added; give mmapdev_cdev; drop region; give page

-- Unless the init function uses what it did not get, the exit function gives back all that was taken,
-- whatever calls were refused, and nothing else.
pub mmap_exit-mmap_init :
    (env : Env) (l' : List Res) → mmap_init env [] ≡ done tt l' → mmap_exit l' ≡ done tt []
unfolding mmap_init mmap_exit remove_res
mmap_exit-mmap_init env l' e = ground arith

-- ===== src/BlockDevice/Driver.antt =====
-- block_device/simple.c: the module's init and exit functions.
use lkm.Prelude.{ℕ, ◌≡◌, Bool, false, List, ◌∷◌, arith, ◌⊎◌}
use lkm.Kernel.{Tagged, done, M, ◌>>=◌, ◌>>◌, pure, crash, branch, take_res, remove_res, give}

-- `queue` comes from `blk_mq_init_sq_queue`, which fills the tag set first.
pub data Res : Type 0 where
  major block_dev buffer tag_set queue disk : Res

abbrev tag_of : Res → ℕ
tag_of major = 0
tag_of block_dev = 1
tag_of buffer = 2
tag_of tag_set = 3
tag_of queue = 4
tag_of disk = 5

instance abbrev pub res_tagged : Tagged Res
res_tagged = record { tag = tag_of }

-- Which calls of the init function fail.
pub record Env : Type 0 where
  pub register_blkdev : Bool
  pub kmalloc_dev : Bool
  pub kmalloc_data : Bool
  pub init_sq_queue : Bool
  pub alloc_disk : Bool

pub data Status : Type 0 where
  ok enomem : Status

-- The result of `register_blkdev` is not looked at, and neither is that of `alloc_disk`.
unfoldable pub myblock_driver_init : Env → M Res Status
myblock_driver_init env = do
  ignored ← take_res env.register_blkdev major
  no_dev ← take_res env.kmalloc_dev block_dev
  branch no_dev (do give major; pure enomem)
      (do
        no_data ← take_res env.kmalloc_data buffer
        branch no_data (do give major; give block_dev; pure enomem)
            (do
              no_tags ← take_res env.init_sq_queue tag_set
              no_queue ← take_res env.init_sq_queue queue
              branch no_queue (do give buffer; give major; give block_dev; pure enomem)
                  (do no_disk ← take_res env.alloc_disk disk; branch no_disk crash (pure ok))))

-- The tests of `gdisk` and `queue` pass after an init that went through.
unfoldable pub myblock_driver_exit : M Res (Unit {0})
myblock_driver_exit = do give disk; give queue; give buffer; give major; give block_dev

-- With the number registered and the disk allocated, the init function takes everything, or fails
-- with -ENOMEM and holds what was held before.
pub init_all_or_nothing :
    (env : Env) (l : List Res)
    → env.register_blkdev ≡ false
    → env.alloc_disk ≡ false
    → (myblock_driver_init env l ≡ done enomem l)
      ⊎ (myblock_driver_init env l
          ≡ done ok (disk ∷ queue ∷ tag_set ∷ buffer ∷ block_dev ∷ major ∷ l))
unfolding myblock_driver_init remove_res
init_all_or_nothing env l h k = ground arith

-- After an init that went through, the exit function gives everything back but the tag set.
pub exit_leaves_tag_set :
    (env : Env) (l l' : List Res)
    → env.register_blkdev ≡ false
    → myblock_driver_init env l ≡ done ok l'
    → myblock_driver_exit l' ≡ done tt (tag_set ∷ l)
unfolding myblock_driver_init myblock_driver_exit remove_res
exit_leaves_tag_set env l l' h e = ground arith

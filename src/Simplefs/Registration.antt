-- ===== src/Simplefs/Registration.antt =====
-- simplefs/simple.c: the module's init and exit.
use lkm.Prelude.{ℕ, ◌≡◌, refl, ◌⊎◌, inl, inr, Bool, true, false, not, List, [], ◌∷◌}
use lkm.Kernel.{Tagged, done, M, ◌>>=◌, ◌>>◌, pure, take_res, remove_res, give, drop}

-- `sfs_inode_cachep`, and the registered `simplefs_fs_type`
pub data Res : Type 0 where
  inode_cache filesystem : Res

abbrev tag_of : Res → ℕ
tag_of inode_cache = 0
tag_of filesystem = 1

instance abbrev pub res_tagged : Tagged Res
res_tagged = record { tag = tag_of }

-- Which calls of the init function fail.
pub record Env : Type 0 where
  pub kmem_cache_create : Bool
  pub register_filesystem : Bool

-- The value tells whether the function returned 0.
unfoldable pub simplefs_init : Env → M Res Bool
simplefs_init env = do
  no_cache ← take_res env.kmem_cache_create inode_cache
  ret ← take_res env.register_filesystem filesystem
  pure (not ret)

-- `kmem_cache_destroy` lets a NULL pass.
unfoldable pub simplefs_exit : M Res (Unit {0})
simplefs_exit = do give filesystem; drop inode_cache

-- What the module has when the file system could not be registered: the cache stays.
unfoldable pub InitEnds : Env → Type 0
InitEnds env =
    ((env.register_filesystem ≡ true)
      × ((simplefs_init env [] ≡ done false [])
          ⊎ (simplefs_init env [] ≡ done false (inode_cache ∷ []))))
    ⊎ ((l : List Res) × (simplefs_init env [] ≡ done true l) × (simplefs_exit l ≡ done tt []))

-- After an init that returned 0 the exit function gives back all that was taken; an init that returned
-- an error leaves the cache of inodes behind, if there is one.
pub simplefs_init-InitEnds : (env : Env) → InitEnds env
unfolding InitEnds simplefs_init simplefs_exit remove_res
simplefs_init-InitEnds env = go env.kmem_cache_create env.register_filesystem refl refl
  where
    go : (a b : Bool) → env.kmem_cache_create ≡ a → env.register_filesystem ≡ b → InitEnds env
    go true true ea eb = inl (eb, inl (rw (ea, eb) refl))
    go false true ea eb = inl (eb, inr (rw (ea, eb) refl))
    go true false ea eb = inr (filesystem ∷ [], rw (ea, eb) refl, refl)
    go false false ea eb = inr (filesystem ∷ inode_cache ∷ [], rw (ea, eb) refl, refl)

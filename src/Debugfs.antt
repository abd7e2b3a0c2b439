-- ===== src/Debugfs.antt =====
-- debugfs/simple.c: a sum of what is written to a file, and the module's init and cleanup.
mod Tests
use lkm.Prelude.{
  ℕ, ◌+◌, ◌%◌, ◌^◌, ◌<◌, ◌≡◌, refl, sym, ap, ◌∙◌, ◌⊎◌, inl, inr, Bool, true, false, List, [], ◌∷◌,
  arith,
}
use lkm.Kernel.{Tagged, Run, done, M, ◌>>=◌, ◌>>◌, pure, branch, take_res, remove_res, give, drop}

-- `sum += value`, of a word of 64 bits to one of 32.
unfoldable pub my_write_op : ℕ → ℕ → ℕ
my_write_op value sum = (sum + value) % 2 ^ 64 % 2 ^ 32

-- The writes to the file, one after the other.
unfoldable pub write_all : List ℕ → ℕ → ℕ
write_all [] sum = sum
write_all (v ∷ vs) sum = write_all vs (my_write_op v sum)

unfoldable pub total : List ℕ → ℕ
total [] = 0
total (v ∷ vs) = v + total vs

-- After any writes the word holds the sum of all of them, cut to 32 bits, whatever the single values.
pub write_all-eq-total :
    (vs : List ℕ) (sum : ℕ) → sum < 2 ^ 32 → write_all vs sum ≡ (sum + total vs) % 2 ^ 32
unfolding write_all total my_write_op
write_all-eq-total [] sum h = omega arith
write_all-eq-total (v ∷ vs) sum h =
    write_all-eq-total vs ((sum + v) % 2 ^ 64 % 2 ^ 32) (omega arith) ∙ (omega arith)

-- The directory, the file "add" in it, and the file "sum".
pub data Res : Type 0 where
  dir add sum_file : Res

abbrev tag_of : Res → ℕ
tag_of dir = 0
tag_of add = 1
tag_of sum_file = 2

instance abbrev pub res_tagged : Tagged Res
res_tagged = record { tag = tag_of }

-- Which calls fail; nothing looks at the last.
pub record Env : Type 0 where
  pub debugfs_create_dir : Bool
  pub debugfs_create_file : Bool
  pub debugfs_create_u32 : Bool

-- The value tells whether the function returned 0.
unfoldable pub init_module : Env → M Res Bool
init_module env = do
  no_dir ← take_res env.debugfs_create_dir dir
  branch no_dir (pure false) (do
    junk ← take_res env.debugfs_create_file add
    branch junk (pure false) (do no_sum ← take_res env.debugfs_create_u32 sum_file; pure true))

-- `debugfs_remove_recursive` removes what is in the directory too.
unfoldable pub cleanup_module : M Res (Unit {0})
cleanup_module = do drop sum_file; drop add; give dir

unfoldable pub InitEnds : Env → Type 0
InitEnds env =
    ((env.debugfs_create_dir ≡ true) × (init_module env [] ≡ done false []))
    ⊎ (((env.debugfs_create_file ≡ true) × (init_module env [] ≡ done false (dir ∷ [])))
        ⊎ ((l : List Res) × (init_module env [] ≡ done true l) × (cleanup_module l ≡ done tt [])))

-- The init function gives up with nothing held when there is no directory, and with the directory left
-- behind when there is no file; otherwise the cleanup function takes away all that it made.
pub init_module-InitEnds : (env : Env) → InitEnds env
unfolding InitEnds init_module cleanup_module remove_res
init_module-InitEnds env =
    go env.debugfs_create_dir env.debugfs_create_file env.debugfs_create_u32 refl refl refl
  where
    go :
        (a b c : Bool)
        → env.debugfs_create_dir ≡ a
        → env.debugfs_create_file ≡ b
        → env.debugfs_create_u32 ≡ c
        → InitEnds env
    go true b c ea eb ec = inl (ea, rw ea refl)
    go false true c ea eb ec = inr (inl (eb, rw (ea, eb) refl))
    go false false true ea eb ec = inr (inr (add ∷ dir ∷ [], rw (ea, eb, ec) refl, refl))
    go false false false ea eb ec =
        inr (inr (sum_file ∷ add ∷ dir ∷ [], rw (ea, eb, ec) refl, refl))

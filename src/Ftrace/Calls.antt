-- ===== src/Ftrace/Calls.antt =====
-- ftrace/ftrace_hook.c: the functions that stand in for clone and execve, and the module's own hooks.
use lkm.Prelude.{
  NoNul, ℕ, zero, suc, ◌≤◌, ◌<◌, ◌≡◌, refl, ◌⊎◌, inl, inr, Bool, true, false, Option, none, some,
  List, [], ◌∷◌, ◌++◌, ◌==◌, ltb, if◌then◌else◌, length, take, arith, Bool-cases, ltb→lt, ltb→le,
}
use lkm.Kernel.{
  Tagged, done, fault, M, ◌>>=◌, ◌>>◌, pure, crash, branch, take_res, remove_res, give,
}
use lkm.Ftrace.{FtraceHook, Res, res_tagged, Env, fh_install_hooks, fh_remove_hooks}

-- `demo_hooks`, with the names `__x64_sys_clone` and `__x64_sys_execve` as 1 and 2, and the addresses
-- of the two functions given.
unfoldable pub demo_hooks : ℕ → ℕ → List FtraceHook
demo_hooks clone execve =
    record { name = 1; function = clone; original = 0; address = 0 }
    ∷ record { name = 2; function = execve; original = 0; address = 0 }
    ∷ []

-- The result of `fh_init`, with the array as it leaves it.
unfoldable pub fh_init : Env → ℕ → ℕ → M Res (ℕ × List FtraceHook)
fh_init env clone execve = fh_install_hooks env (demo_hooks clone execve)

unfoldable pub fh_exit : Env → List FtraceHook → M Res (Unit {0})
fh_exit env hooks = fh_remove_hooks env hooks

-- The buffer of 4096 bytes.
pub data Buffer : Type 0 where
  kernel_filename : Buffer

instance abbrev pub buffer_tagged : Tagged Buffer
buffer_tagged = record { tag = λ b. 0 }

abbrev pub path_max : ℕ
path_max = 4096

-- `strncpy_from_user` of a string at user space, which is none where it cannot be read.
abbrev strncpy_from_user : Option (List ℕ) → M Buffer (Option (List ℕ))
strncpy_from_user none = do give kernel_filename; pure none
strncpy_from_user (some name) = pure (some (take path_max (name ++ 0 ∷ [])))

unfoldable pub duplicate_filename : Bool → Option (List ℕ) → M Buffer (Option (List ℕ))
duplicate_filename no_memory filename = do
  failed ← take_res no_memory kernel_filename
  branch failed (pure none) (strncpy_from_user filename)

unfoldable pub terminated : List ℕ → Bool
terminated [] = false
terminated (c ∷ cs) = let rest = terminated cs in if c == 0 then true else rest

-- `pr_info` of the name: a NULL is printed as such, and a buffer is read up to its NUL.
abbrev print_name : Option (List ℕ) → M Buffer (Unit {0})
print_name none = pure tt
print_name (some buf) = branch (terminated buf) (pure tt) crash

abbrev kfree_name : Option (List ℕ) → M Buffer (Unit {0})
kfree_name none = pure tt
kfree_name (some buf) = give kernel_filename

-- `real` is the call of `real_sys_execve`.
unfoldable pub fh_sys_execve : Bool → Option (List ℕ) → ℕ → M Buffer ℕ
fh_sys_execve no_memory filename real = do
  name ← duplicate_filename no_memory filename
  print_name name
  kfree_name name
  pure real

-- The older form of the hook, which gets the call's arguments and not its registers.
unfoldable pub fh_sys_execve_args :
    Bool → Option (List ℕ) → ℕ → ℕ → (Option (List ℕ) → ℕ → ℕ → ℕ) → M Buffer ℕ
fh_sys_execve_args no_memory filename argv envp real_sys_execve = do
  name ← duplicate_filename no_memory filename
  print_name name
  kfree_name name
  pure (real_sys_execve filename argv envp)

terminated-take :
    (n : ℕ) (name : List ℕ) → length name < n → terminated (take n (name ++ 0 ∷ [])) ≡ true
unfolding terminated
terminated-take zero name h = ground arith
terminated-take (suc n) [] h = refl
terminated-take (suc n) (c ∷ cs) h = ground (arith, terminated-take n cs (omega arith))

terminated-take_long :
    (n : ℕ) (name : List ℕ)
    → NoNul name
    → n ≤ length name
    → terminated (take n (name ++ 0 ∷ [])) ≡ false
unfolding terminated
terminated-take_long zero name k h = refl
terminated-take_long (suc n) [] k h = ground arith
terminated-take_long (suc n) (c ∷ cs) (d, k) h =
    ground (arith, terminated-take_long n cs k (omega arith))

-- The hook of execve, on a name without a NUL in it: with fewer than 4096 bytes, it returns what the
-- real call returns and holds what was held before, whether there is memory for the name or not; with
-- more, it does so without memory, and otherwise reads behind its buffer.
pub fh_sys_execve_lem :
    (no_memory : Bool) (name : List ℕ) (real : ℕ) (l : List Buffer)
    → NoNul name
    → ((length name < path_max) × (fh_sys_execve no_memory (some name) real l ≡ done real l))
      ⊎ ((path_max ≤ length name)
          × (fh_sys_execve no_memory (some name) real l
              ≡ (if no_memory then done real l else fault)))
unfolding fh_sys_execve duplicate_filename remove_res
fh_sys_execve_lem no_memory name real l k = elim (Bool-cases (ltb (length name) path_max)) [
  | inl short ↦
      let h = ltb→lt _ _ short in let t = terminated-take path_max name h in inl (h, ground arith)
  | inr long ↦
      let h = ltb→le _ _ long in
      let t = terminated-take_long path_max name k h in inr (h, ground arith)
]

-- ===== src/Ftrace.antt =====
-- ftrace/ftrace_hook.c: functions of the kernel are hooked through ftrace.
pub mod Hooks
pub mod Removal
pub mod Calls
pub mod Names
mod Tests
use lkm.Prelude.{
  ℕ, zero, suc, ◌+◌, ◌*◌, ◌%◌, ◌^◌, Bool, true, false, not, Option, none, some, List, [], ◌∷◌, ◌==◌,
  if◌then◌else◌,
}
use lkm.Kernel.{Tagged, M, ◌>>=◌, ◌>>◌, pure, branch, take_res, remove_res, give}

-- `struct ftrace_hook`, with the word `*original` in place of the pointer to it, and without the
-- `ops`, whose state in ftrace is a resource. Names and functions are numbers.
pub record FtraceHook : Type 0 where
  pub name : ℕ
  pub function : ℕ
  pub original : ℕ
  pub address : ℕ

-- What ftrace holds of the `ops` of `hooks[i]`: the address in its filter, and its registration.
pub data Res : Type 0 where
  filter function_of : ℕ → Res

abbrev pub tag_of : Res → ℕ
tag_of (filter i) = 2 * i
tag_of (function_of i) = 1 + 2 * i

instance abbrev pub res_tagged : Tagged Res
res_tagged = record { tag = tag_of }

-- The kernel: the address of a name, 0 for none, and the error of each call on `hooks[i].ops`, as
-- the positive code, 0 for success.
pub record Env : Type 0 where
  pub lookup_name : ℕ → ℕ
  pub set_filter_ip : ℕ → ℕ
  pub register_function : ℕ → ℕ
  pub unregister_function : ℕ → ℕ
  pub clear_filter_ip : ℕ → ℕ

abbrev pub enoent : ℕ
enoent = 2

-- The hook with its address looked up; `*original` is written when there is one. The fentry offset
-- is not used.
unfoldable pub resolve : Env → FtraceHook → FtraceHook
resolve env hook =
    let a = env.lookup_name hook.name in
    if a == 0 then record hook { address = a } else record hook { address = a; original = a }

unfoldable pub fh_resolve_hook_address : Env → FtraceHook → ℕ × FtraceHook
fh_resolve_hook_address env hook =
    let h = resolve env hook in if h.address == 0 then (enoent, h) else (0, h)

-- A call that gives a resource back unless it fails, its error only logged.
abbrev pub give_unless : ℕ → Res → M Res (Unit {0})
give_unless err r = branch (err == 0) (give r) (pure tt)

unfoldable pub fh_install_hook : Env → ℕ → FtraceHook → M Res (ℕ × FtraceHook)
fh_install_hook env i hook = do
  let h = fh_resolve_hook_address env hook
  branch (h.0 == 0)
      (do
        let e = env.set_filter_ip i
        refused ← take_res (not (e == 0)) (filter i)
        branch refused (pure (e, h.1)) (do
          let e' = env.register_function i
          unregistered ← take_res (not (e' == 0)) (function_of i)
          branch unregistered (do give_unless (env.clear_filter_ip i) (filter i); pure (e', h.1))
              (pure (0, h.1))))
      (pure h)

unfoldable pub fh_remove_hook : Env → ℕ → M Res (Unit {0})
fh_remove_hook env i = do
  give_unless (env.unregister_function i) (function_of i)
  give_unless (env.clear_filter_ip i) (filter i)

-- The loop at `error`, from `hooks[i - 1]` down.
unfoldable pub unwind : Env → ℕ → M Res (Unit {0})
unwind env zero = pure tt
unwind env (suc i) = do fh_remove_hook env i; unwind env i

-- The loop from `hooks[i]` on; the value is the error and the array from there.
unfoldable pub install_from : Env → ℕ → List FtraceHook → M Res (ℕ × List FtraceHook)
install_from env i [] = pure (0, [])
install_from env i (hook ∷ hooks) = do
  r ← fh_install_hook env i hook
  branch (r.0 == 0) (do s ← install_from env (suc i) hooks; pure (s.0, r.1 ∷ s.1))
      (do unwind env i; pure (r.0, r.1 ∷ hooks))

unfoldable pub fh_install_hooks : Env → List FtraceHook → M Res (ℕ × List FtraceHook)
fh_install_hooks env hooks = install_from env 0 hooks

unfoldable pub remove_from : Env → ℕ → List FtraceHook → M Res (Unit {0})
remove_from env i [] = pure tt
remove_from env i (hook ∷ hooks) = do fh_remove_hook env i; remove_from env (suc i) hooks

unfoldable pub fh_remove_hooks : Env → List FtraceHook → M Res (Unit {0})
fh_remove_hooks env hooks = remove_from env 0 hooks

-- `regs->ip` after the thunk: the call is turned to the hook's function unless the caller is code
-- of this module.
unfoldable pub fh_ftrace_thunk : (ℕ → Bool) → FtraceHook → ℕ → ℕ → ℕ
fh_ftrace_thunk within_module hook ip parent_ip =
    if within_module parent_ip then ip else hook.function

-- ===== src/Ftrace/Tests.antt =====
-- Runs of ftrace/ftrace_hook.c on the module's own two hooks.
use lkm.Prelude.{
  ℕ, false, some, ◌⊎◌, ◌≤◌, ◌<◌, length, ◌*◌, ◌≡◌, refl, List, [], ◌∷◌, ◌==◌, if◌then◌else◌, arith,
}
use lkm.Kernel.{done, fault, remove_res}
use lkm.Ftrace.{
  FtraceHook, filter, function_of, Env, resolve, fh_resolve_hook_address, fh_install_hook,
  fh_remove_hook, unwind, install_from, fh_install_hooks, fh_remove_hooks,
}
use lkm.Ftrace.Calls.{path_max, fh_sys_execve, fh_sys_execve_lem}
use lkm.Ftrace.Hooks.{Undoes, HooksEnd, fh_install_hooks_all_or_nothing}
use lkm.Ftrace.Removal.{fh_remove_hooks-fh_install_hooks}

abbrev sys_clone : FtraceHook
sys_clone = record { name = 1; function = 900; original = 0; address = 0 }

abbrev sys_execve : FtraceHook
sys_execve = record { name = 2; function = 950; original = 0; address = 0 }

abbrev two_hooks : List FtraceHook
two_hooks = sys_clone ∷ sys_execve ∷ []

-- The second hook's function is not registered.
abbrev busy : Env
busy = record {
  lookup_name = λ n. 100 * n;
  set_filter_ip = λ i. 0;
  register_function = λ i. if i == 1 then 16 else 0;
  unregister_function = λ i. 0;
  clear_filter_ip = λ i. 0;
}

busy-Undoes : Undoes busy
busy-Undoes = ((λ i. refl), λ i. refl)

-- The first hook is unwound.
unwound :
    fh_install_hooks busy two_hooks []
    ≡ done
        (
          16,
          record sys_clone { original = 100; address = 100 }
              ∷ record sys_execve { original = 200; address = 200 }
              ∷ [],
        )
        []
unfolding fh_install_hooks install_from fh_install_hook fh_resolve_hook_address resolve unwind
    fh_remove_hook remove_res
unwound = refl

fh_install_hooks_all_or_nothing_example :
    HooksEnd busy 0 two_hooks [] (fh_install_hooks busy two_hooks [])
fh_install_hooks_all_or_nothing_example =
    fh_install_hooks_all_or_nothing busy two_hooks [] busy-Undoes

-- Both hooks are installed.
abbrev free : Env
free = record busy { register_function = λ i. 0 }

fh_remove_hooks-fh_install_hooks_example :
    fh_remove_hooks free
      (record sys_clone { original = 100; address = 100 }
        ∷ record sys_execve { original = 200; address = 200 }
        ∷ [])
      (function_of 1 ∷ filter 1 ∷ function_of 0 ∷ filter 0 ∷ [])
    ≡ done tt []
unfolding fh_install_hooks install_from fh_install_hook fh_resolve_hook_address resolve
fh_remove_hooks-fh_install_hooks_example =
    fh_remove_hooks-fh_install_hooks free two_hooks _ [] _ ((λ i. refl), λ i. refl) refl

-- "/a"
abbrev path : List ℕ
path = 47 ∷ 97 ∷ []

fh_sys_execve_lem_example :
    ((length path < path_max) × (fh_sys_execve false (some path) 5 [] ≡ done 5 []))
    ⊎ ((path_max ≤ length path) × (fh_sys_execve false (some path) 5 [] ≡ fault))
fh_sys_execve_lem_example = fh_sys_execve_lem false path 5 [] (omega arith)

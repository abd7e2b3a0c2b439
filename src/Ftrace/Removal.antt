-- ===== src/Ftrace/Removal.antt =====
-- ftrace/ftrace_hook.c: the removal of the installed hooks, and where a hooked call ends up.
use lkm.Prelude.{
  ℕ, suc, ◌*◌, ◌<◌, ◌≡◌, ◌≢◌, refl, sym, ap, ◌∙◌, subst, Bool, true, false, none, some, List, [],
  ◌∷◌, map, inl, inr, ◌==◌, arith,
}
use lkm.Kernel.{done, fault, pure, branch, remove_res, give}
use lkm.Kernel.Held.{bind_done, remove_res-tail, remove_res-head}
use lkm.Ftrace.{
  FtraceHook, Res, filter, function_of, tag_of, res_tagged, Env, resolve, give_unless,
  fh_remove_hook, remove_from, fh_remove_hooks, fh_install_hooks, fh_ftrace_thunk,
}
use lkm.Ftrace.Hooks.{held_from, held_below, Undoes, fh_install_hooks_all_or_nothing}

-- A resource of an earlier hook is found below those of the hooks from `hooks[j]` on.
remove_res-held_from :
    (r : Res) (j : ℕ) (hs : List FtraceHook) (l l' : List Res)
    → tag_of r < 2 * j
    → remove_res r l ≡ some l'
    → remove_res r (held_from j hs l) ≡ some (held_from j hs l')
unfolding held_from
remove_res-held_from r j [] l l' b e = e
remove_res-held_from r j (h ∷ hs) l l' b e = remove_res-held_from r (suc j) hs _ _ (omega arith) (
    remove_res-tail r (function_of j) _ _ (omega arith)
      (remove_res-tail r (filter j) l l' (omega arith) e))

give_unless-held_from :
    (err : ℕ) (r : Res) (j : ℕ) (hs : List FtraceHook) (l : List Res)
    → tag_of r < 2 * j
    → err ≡ 0
    → give_unless err r (held_from j hs (r ∷ l)) ≡ done tt (held_from j hs l)
give_unless-held_from err r j hs l b e =
    subst (λ b. branch b (give r) (pure tt) (held_from j hs (r ∷ l)) ≡ done tt (held_from j hs l))
      (sym (ap (λ x. x == 0) e))
      (ap (λ o. elim o [ none ↦ fault | some l' ↦ done tt l' ])
        (remove_res-held_from r j hs (r ∷ l) l b (remove_res-head r l)))

remove_from-held_from :
    (env : Env) (i : ℕ) (hs : List FtraceHook) (l : List Res)
    → Undoes env
    → remove_from env i hs (held_from i hs l) ≡ done tt l
unfolding remove_from fh_remove_hook held_from
remove_from-held_from env i [] l s = refl
remove_from-held_from env i (h ∷ hs) l (u, c) =
    bind_done (fh_remove_hook env i) (λ x. remove_from env (suc i) hs)
      (bind_done (give_unless (env.unregister_function i) (function_of i))
          (λ x. give_unless (env.clear_filter_ip i) (filter i))
          (give_unless-held_from (env.unregister_function i) (function_of i) (suc i) hs
            (filter i ∷ l) (omega arith) (u i))
        ∙ give_unless-held_from (env.clear_filter_ip i) (filter i) (suc i) hs l (omega arith) (c i))
    ∙ remove_from-held_from env (suc i) hs l (u, c)

-- The hooks hold the same whatever is resolved in them.
held_from-map :
    (f : FtraceHook → FtraceHook) (i : ℕ) (hs : List FtraceHook) (l : List Res)
    → held_from i (map f hs) l ≡ held_from i hs l
unfolding held_from
held_from-map f i [] l = refl
held_from-map f i (h ∷ hs) l = held_from-map f (suc i) hs (function_of i ∷ filter i ∷ l)

remove_installed :
    (env : Env) (hooks : List FtraceHook) (l : List Res)
    → Undoes env
    → fh_remove_hooks env (map (resolve env) hooks) (held_from 0 hooks l) ≡ done tt l
unfolding fh_remove_hooks
remove_installed env hooks l s =
    ap (remove_from env 0 (map (resolve env) hooks)) (sym (held_from-map (resolve env) 0 hooks l))
    ∙ remove_from-held_from env 0 (map (resolve env) hooks) l s

-- When the calls that undo an installation go through, and `fh_install_hooks` succeeds,
-- `fh_remove_hooks` on the array it leaves gives back all that it took, and nothing else.
pub fh_remove_hooks-fh_install_hooks :
    (env : Env) (hooks hooks' : List FtraceHook) (l l' : List Res)
    → Undoes env
    → fh_install_hooks env hooks l ≡ done (0, hooks') l'
    → fh_remove_hooks env hooks' l' ≡ done tt l
unfolding held_below
fh_remove_hooks-fh_install_hooks env hooks hooks' l l' s e =
    let r = remove_installed env hooks l s in
    elim (fh_install_hooks_all_or_nothing env hooks l s) [
      | inl (p, a) ↦ cc
      | inr (c, hs, n, p) ↦ ground arith
    ]

-- With a hook that is resolved, a call from outside the module goes to the hook's function, and the
-- call that code of the module makes through `*original` goes to the function that was hooked, so
-- that it does not come back to the hook.
pub fh_ftrace_thunk_no_loop :
    (env : Env) (within_module : ℕ → Bool) (hook : FtraceHook) (outside inside : ℕ)
    → within_module outside ≡ false
    → within_module inside ≡ true
    → (resolve env hook).address ≢ 0
    → let h = resolve env hook in
      (fh_ftrace_thunk within_module h h.address outside ≡ hook.function)
      × (fh_ftrace_thunk within_module h h.original inside ≡ env.lookup_name hook.name)
unfolding resolve fh_ftrace_thunk
fh_ftrace_thunk_no_loop env within_module hook outside inside o i n = (ground arith, ground arith)

-- ===== src/Ftrace/Hooks.antt =====
-- ftrace/ftrace_hook.c: what is held of ftrace after an installation and after the removal.
use lkm.Prelude.{
  ℕ, zero, suc, ◌≡◌, ◌≢◌, refl, sym, ap, ◌∙◌, subst, true, false, List, [], ◌∷◌, map, ◌==◌, arith,
  ne→==, ◌⊎◌, Bool-cases, inl, inr,
}
use lkm.Kernel.{Run, done, M, ◌>>=◌, ◌>>◌, pure, branch, give}
use lkm.Kernel.Held.{bind_done, give-head}
use lkm.Ftrace.{
  FtraceHook, Res, filter, function_of, res_tagged, Env, enoent, resolve, fh_resolve_hook_address,
  give_unless, fh_install_hook, fh_remove_hook, unwind, install_from, fh_install_hooks,
}

-- What `count` installed hooks hold, from `hooks[i]` on, the last of them first.
unfoldable pub held_from : ℕ → List FtraceHook → List Res → List Res
held_from i [] l = l
held_from i (h ∷ hs) l = held_from (suc i) hs (function_of i ∷ filter i ∷ l)

unfoldable pub held_below : ℕ → List Res → List Res
held_below zero l = l
held_below (suc i) l = function_of i ∷ filter i ∷ held_below i l

-- The calls that undo an installation go through.
abbrev pub Undoes : Env → Type 0
Undoes env = ((i : ℕ) → env.unregister_function i ≡ 0) × ((i : ℕ) → env.clear_filter_ip i ≡ 0)

-- How the installation of one hook ends: with everything, or with an error and nothing.
abbrev pub HookEnds : Env → ℕ → FtraceHook → List Res → Run Res (ℕ × FtraceHook) → Type 0
HookEnds env i h l r =
    ((r ≡ done (0, resolve env h) (function_of i ∷ filter i ∷ l)) × ((resolve env h).address ≢ 0))
    ⊎ ((e : ℕ) × (e ≢ 0) × (r ≡ done (e, resolve env h) l))

give_unless-head :
    (err : ℕ) (r : Res) (l : List Res) → err ≡ 0 → give_unless err r (r ∷ l) ≡ done tt l
give_unless-head err r l e =
    subst (λ b. branch b (give r) (pure tt) (r ∷ l) ≡ done tt l) (sym (ap (λ x. x == 0) e))
      (give-head r l)

module _ (env : Env) (i : ℕ) (h : FtraceHook) (l : List Res) where
  pub unresolved :
      ((resolve env h).address == 0) ≡ true
      → fh_install_hook env i h l ≡ done (enoent, resolve env h) l
  unfolding fh_install_hook fh_resolve_hook_address
  unresolved a = rw (a)

  pub unfiltered :
      ((resolve env h).address == 0) ≡ false
      → (env.set_filter_ip i == 0) ≡ false
      → fh_install_hook env i h l ≡ done (env.set_filter_ip i, resolve env h) l
  unfolding fh_install_hook fh_resolve_hook_address
  unfiltered a f = rw (a, f)

  pub unregistered :
      ((resolve env h).address == 0) ≡ false
      → (env.set_filter_ip i == 0) ≡ true
      → (env.register_function i == 0) ≡ false
      → env.clear_filter_ip i ≡ 0
      → fh_install_hook env i h l ≡ done (env.register_function i, resolve env h) l
  unfolding fh_install_hook fh_resolve_hook_address
  unregistered a f r c =
      rw (a, f, r)
        (bind_done (give_unless (env.clear_filter_ip i) (filter i))
          (λ x. pure (env.register_function i, resolve env h))
          (give_unless-head (env.clear_filter_ip i) (filter i) l c))

  pub installed :
      ((resolve env h).address == 0) ≡ false
      → (env.set_filter_ip i == 0) ≡ true
      → (env.register_function i == 0) ≡ true
      → fh_install_hook env i h l ≡ done (0, resolve env h) (function_of i ∷ filter i ∷ l)
  unfolding fh_install_hook fh_resolve_hook_address
  installed a f r = rw (a, f, r)

pub fh_install_hook-HookEnds :
    (env : Env) (i : ℕ) (h : FtraceHook) (l : List Res)
    → Undoes env
    → HookEnds env i h l (fh_install_hook env i h l)
fh_install_hook-HookEnds env i h l (u, c) = elim (Bool-cases ((resolve env h).address == 0)) [
  | inl a ↦ inr (enoent, omega arith, unresolved env i h l a)
  | inr a ↦ elim (Bool-cases (env.set_filter_ip i == 0)) [
    | inl f ↦ elim (Bool-cases (env.register_function i == 0)) [
      | inl r ↦ inl (installed env i h l a f r, ground arith)
      | inr r ↦ inr (env.register_function i, ground arith, unregistered env i h l a f r (c i))
    ]
    | inr f ↦ inr (env.set_filter_ip i, ground arith, unfiltered env i h l a f)
  ]
]

pub fh_remove_hook-head :
    (env : Env) (i : ℕ) (l : List Res)
    → Undoes env
    → fh_remove_hook env i (function_of i ∷ filter i ∷ l) ≡ done tt l
unfolding fh_remove_hook
fh_remove_hook-head env i l (u, c) =
    bind_done (give_unless (env.unregister_function i) (function_of i))
      (λ x. give_unless (env.clear_filter_ip i) (filter i))
      (give_unless-head (env.unregister_function i) (function_of i) (filter i ∷ l) (u i))
    ∙ give_unless-head (env.clear_filter_ip i) (filter i) l (c i)

pub unwind-held_below :
    (env : Env) (i : ℕ) (l : List Res) → Undoes env → unwind env i (held_below i l) ≡ done tt l
unfolding unwind held_below
unwind-held_below env zero l s = refl
unwind-held_below env (suc i) l s =
    bind_done (fh_remove_hook env i) (λ x. unwind env i)
      (fh_remove_hook-head env i (held_below i l) s)
    ∙ unwind-held_below env i l s

-- Every name of the array has an address.
unfoldable pub Resolves : Env → List FtraceHook → Type 0
Resolves env [] = Unit {0}
Resolves env (h ∷ hs) = ((resolve env h).address ≢ 0) × Resolves env hs

-- How the installation of the hooks from `hooks[i]` on ends: all of them resolved and held, or an
-- error and nothing held, not even the hooks before.
abbrev pub HooksEnd : Env → ℕ → List FtraceHook → List Res → Run Res (ℕ × List FtraceHook) → Type 0
HooksEnd env i hs l r =
    ((r ≡ done (0, map (resolve env) hs) (held_from i hs (held_below i l))) × Resolves env hs)
    ⊎ ((e : ℕ) × (hs' : List FtraceHook) × (e ≢ 0) × (r ≡ done (e, hs') l))

-- What the loop does after the call on `hooks[i]`.
abbrev after : Env → ℕ → List FtraceHook → ℕ × FtraceHook → M Res (ℕ × List FtraceHook)
after env i hs r =
    branch (r.0 == 0) (install_from env (suc i) hs >>= λ s. pure (s.0, r.1 ∷ s.1))
      (unwind env i >> pure (r.0, r.1 ∷ hs))

install_from-cons :
    (env : Env) (i : ℕ) (h h' : FtraceHook) (hs hs' : List FtraceHook) (e : ℕ) (l l' l'' : List Res)
    → fh_install_hook env i h l ≡ done (0, h') l'
    → install_from env (suc i) hs l' ≡ done (e, hs') l''
    → install_from env i (h ∷ hs) l ≡ done (e, h' ∷ hs') l''
unfolding install_from
install_from-cons env i h h' hs hs' e l l' l'' p q =
    bind_done (fh_install_hook env i h) (after env i hs) p
    ∙ bind_done (install_from env (suc i) hs) (λ s. pure (s.0, h' ∷ s.1)) q

install_from-fails :
    (env : Env) (i e : ℕ) (h h' : FtraceHook) (hs : List FtraceHook) (l : List Res)
    → Undoes env
    → e ≢ 0
    → fh_install_hook env i h (held_below i l) ≡ done (e, h') (held_below i l)
    → install_from env i (h ∷ hs) (held_below i l) ≡ done (e, h' ∷ hs) l
unfolding install_from
install_from-fails env i e h h' hs l s n p =
    bind_done (fh_install_hook env i h) (after env i hs) p
    ∙ rw (ne→== e 0 n)
        (bind_done (unwind env i) (λ x. pure (e, h' ∷ hs)) (unwind-held_below env i l s))

pub install_from-HooksEnd :
    (env : Env) (i : ℕ) (hs : List FtraceHook) (l : List Res)
    → Undoes env
    → HooksEnd env i hs l (install_from env i hs (held_below i l))
unfolding install_from held_from held_below Resolves
install_from-HooksEnd env i [] l s = inl (refl, tt)
install_from-HooksEnd env i (h ∷ hs) l s =
    elim (fh_install_hook-HookEnds env i h (held_below i l) s) [
      | inl (p, a) ↦ elim (install_from-HooksEnd env (suc i) hs l s) [
        | inl (q, b) ↦ inl (install_from-cons env i h _ hs _ 0 _ _ _ p q, (a, b))
        | inr (e, hs', n, q) ↦
            inr (e, resolve env h ∷ hs', n, install_from-cons env i h _ hs _ e _ _ _ p q)
      ]
      | inr (e, n, p) ↦ inr (e, resolve env h ∷ hs, n, install_from-fails env i e h _ hs l s n p)
    ]

-- When the calls that undo an installation go through, `fh_install_hooks` either succeeds, with
-- every name resolved into its hook and every hook's filter and registration held, or returns an
-- error with what was held before.
pub fh_install_hooks_all_or_nothing :
    (env : Env) (hooks : List FtraceHook) (l : List Res)
    → Undoes env
    → HooksEnd env 0 hooks l (fh_install_hooks env hooks l)
unfolding fh_install_hooks held_below
fh_install_hooks_all_or_nothing env hooks l s = install_from-HooksEnd env 0 hooks l s

-- ===== src/Ftrace/Names.antt =====
-- ftrace/ftrace_hook.c: the names of system calls, how a name is looked up, and the hook of clone.
use lkm.Prelude.{ℕ, ◌≡◌, refl, Bool, true, false, Option, List, [], ◌∷◌, ◌++◌, if◌then◌else◌}
use lkm.Kernel.{Tagged, done, M, ◌>>=◌, ◌>>◌, pure, branch, take_res, remove_res, give}
use lkm.Ftrace.Calls.{Buffer, fh_sys_execve, fh_sys_execve_args}

-- "__x64_"
abbrev pub x64_prefix : List ℕ
x64_prefix = b'_' ∷ b'_' ∷ b'x' ∷ b'6' ∷ b'4' ∷ b'_' ∷ []

-- `SYSCALL_NAME`, with PTREGS_SYSCALL_STUBS or without.
unfoldable pub syscall_name : Bool → List ℕ → List ℕ
syscall_name ptregs_syscall_stubs name = if ptregs_syscall_stubs then x64_prefix ++ name else name

-- A probe of the kernel, registered for as long as a name is looked up.
pub data Kprobe : Type 0 where
  kp : Kprobe

instance abbrev pub kprobe_tagged : Tagged Kprobe
kprobe_tagged = record { tag = λ k. 0 }

-- `addr` is the address that a registered probe has.
unfoldable pub lookup_name : Bool → ℕ → M Kprobe ℕ
lookup_name register_kprobe addr = do
  failed ← take_res register_kprobe kp
  branch failed (pure 0) (do give kp; pure addr)

-- Before 5.7 the kernel looks a name up itself.
unfoldable pub lookup_name_kallsyms : ℕ → M Kprobe ℕ
lookup_name_kallsyms kallsyms_lookup_name = pure kallsyms_lookup_name

-- What the hook of clone prints.
pub data ClonePrint : Type 0 where
  clone_before : ClonePrint
  clone_after : ℕ → ClonePrint

-- The arguments are the registers, or those of the call: they go to the real call as they are.
unfoldable pub fh_sys_clone {ℓ} : {A : Type ℓ} → (A → ℕ) → A → List ClonePrint × ℕ
fh_sys_clone real_sys_clone args =
    let ret = real_sys_clone args in (clone_before ∷ clone_after ret ∷ [], ret)

-- However a lookup ends, no probe is left.
pub lookup_name_leaves_nothing :
    (fails : Bool) (addr : ℕ) (l : List Kprobe)
    → lookup_name fails addr l ≡ done (if fails then 0 else addr) l
unfolding lookup_name remove_res
lookup_name_leaves_nothing true addr l = refl
lookup_name_leaves_nothing false addr l = refl

-- Both forms of the hook of execve do the same with the name.
pub fh_sys_execve_args-eq :
    (no_memory : Bool) (filename : Option (List ℕ)) (argv envp : ℕ)
    (real : Option (List ℕ) → ℕ → ℕ → ℕ) (l : List Buffer)
    → fh_sys_execve_args no_memory filename argv envp real l
      ≡ fh_sys_execve no_memory filename (real filename argv envp) l
unfolding fh_sys_execve_args fh_sys_execve
fh_sys_execve_args-eq no_memory filename argv envp real l = refl

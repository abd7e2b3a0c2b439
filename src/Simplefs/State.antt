-- ===== src/Simplefs/State.antt =====
-- What the functions of simplefs/simple.c work on: the buffer cache over the block device and the
-- three static mutexes. A call of the kernel that may fail asks the environment.
use lkm.Prelude.{ℕ, Bool, true, false, ◌==◌, ltb, if◌then◌else◌, ◌≡◌, ◌≢◌, ==-refl, ne→==}
use lkm.Prelude.Bytes.{Mem, load64, store64}

-- `simplefs_directory_children_update_lock`, `simplefs_inodes_mgmt_lock`, `simplefs_sb_lock`
pub data Lock : Type 0 where
  children inodes_mgmt sb_lock : Lock

-- Which of them this thread holds.
pub record Locks : Type 0 where
  pub holds_children : Bool
  pub holds_inodes_mgmt : Bool
  pub holds_sb : Bool

abbrev pub holds : Locks → Lock → Bool
holds l children = l.holds_children
holds l inodes_mgmt = l.holds_inodes_mgmt
holds l sb_lock = l.holds_sb

abbrev pub set_lock : Locks → Lock → Bool → Locks
set_lock l children b = record l { holds_children = b }
set_lock l inodes_mgmt b = record l { holds_inodes_mgmt = b }
set_lock l sb_lock b = record l { holds_sb = b }

abbrev pub none_held : Locks
none_held = record { holds_children = false; holds_inodes_mgmt = false; holds_sb = false }

-- `cache` is what `sb_bread` gives of each block; `disk` is what the device holds. A block has 4096
-- bytes: what stands behind them is not the buffer's. `s_fs_info` points into the cached block 0, whose
-- buffer is kept.
pub record Fs : Type 0 where
  pub cache : ℕ → Mem
  pub disk : ℕ → Mem
  pub locks : Locks

-- What the C code would do next is not defined: a deadlock with itself, the release of a mutex that
-- is not held, a failed BUG_ON, a use of NULL, a shift by the width of
-- `int` or more, or a copy behind the block.
pub data Fault : Type 0 where
  deadlock unlock_unheld bug_on null_pointer wide_shift out_of_block : Fault

pub data Run (A : Type 0) : Type 0 where
  done : A → Fs → Run A
  fault : Fault → Run A

abbrev pub M : Type 0 → Type 0
M A = Fs → Run A

abbrev pub pure : {A : Type 0} → A → M A
pure a s = done a s

infixl 5 ◌>>=◌ ◌>>◌
abbrev pub ◌>>=◌ : {A B : Type 0} → M A → (A → M B) → M B
◌>>=◌ m f s = elim (m s) [ done a s' ↦ f a s' | fault e ↦ fault e ]

abbrev pub ◌>>◌ : {B : Type 0} → M (Unit {0}) → M B → M B
m >> k = m >>= λ _. k

-- `if (b) { m } else { k }`
abbrev pub branch : {A : Type 0} → Bool → M A → M A → M A
branch true m k s = m s
branch false m k s = k s

abbrev pub fail : {A : Type 0} → Fault → M A
fail e s = fault e

-- A copy whose last byte stands before `end` in a block goes on with `m`.
abbrev pub within_block : {A : Type 0} → ℕ → M A → M A
within_block end m = branch (ltb 4096 end) (fail out_of_block) m

-- The errors that the functions return, as `-EINTR` and so on.
pub data Errno : Type 0 where
  eintr enospc enotdir einval enomem efault eio : Errno

-- A return value: zero or a count, or a negative error.
pub data Result (A : Type 0) : Type 0 where
  ok : A → Result A
  err : Errno → Result A

-- The calls that may fail, by where they stand.
pub data Call : Type 0 where
  sync_bread add_mgmt_lock add_bread add_sb_lock freeblock_lock count_lock : Call
  iterate_bread get_bread get_alloc read_bread read_copy : Call
  save_bread save_lock write_bread write_copy write_lock : Call
  create_lock create_new_inode create_alloc create_bread create_mgmt_lock : Call
  iget_new_inode lookup_bread mount_bread mount_new_inode : Call

-- What the rest of the kernel does during one operation: which calls fail, and how many bytes a
-- failing copy from or to user space has moved.
pub record Env : Type 0 where
  pub fails : Call → Bool
  pub copied : ℕ

abbrev pub calm : Env
calm = record { fails = λ c. false; copied = 0 }

abbrev pub update {ℓ} : {A : Type ℓ} → (ℕ → A) → ℕ → A → ℕ → A
update f b v c = if b == c then v else f c

-- `mutex_lock_interruptible`: true if a signal came. A signal that came before matters only to a call that has to
-- wait, and then ends it too: the environment tells it for each call.
abbrev pub lock_interruptible : Env → Call → Lock → M Bool
lock_interruptible env c l s = elim (env.fails c) [
  | true ↦ done true s
  | false ↦ elim (holds s.locks l) [
    | true ↦ fault deadlock
    | false ↦ done false (record s { locks = set_lock s.locks l true })
  ]
]

abbrev pub unlock : Lock → M (Unit {0})
unlock l s = elim (holds s.locks l) [
  | true ↦ done tt (record s { locks = set_lock s.locks l false })
  | false ↦ fault unlock_unheld
]

-- `sb_bread` with `BUG_ON(!bh)`.
abbrev pub bread_or_bug : Env → Call → M (Unit {0})
bread_or_bug env c s = elim (env.fails c) [ true ↦ fault bug_on | false ↦ done tt s ]

-- A change of the buffer of block `b`.
abbrev pub modify_block : ℕ → (Mem → Mem) → M (Unit {0})
modify_block b f s = done tt (record s { cache = update s.cache b (f (s.cache b)) })

-- `mark_buffer_dirty` with `sync_dirty_buffer`: the buffer goes to the device.
abbrev pub sync_block : ℕ → M (Unit {0})
sync_block b s = done tt (record s { disk = update s.disk b (s.cache b) })

abbrev pub gets : {A : Type 0} → (Fs → A) → M A
gets f s = done (f s) s

-- `SIMPLEFS_SB(sb)->inodes_count` and `->free_blocks`
abbrev pub inodes_count : Fs → ℕ
inodes_count s = load64 (s.cache 0) 16

abbrev pub free_blocks : Fs → ℕ
free_blocks s = load64 (s.cache 0) 24

abbrev pub set_inodes_count : ℕ → M (Unit {0})
set_inodes_count v = modify_block 0 (λ m. store64 m 16 v)

abbrev pub set_free_blocks : ℕ → M (Unit {0})
set_free_blocks v = modify_block 0 (λ m. store64 m 24 v)

pub update_self {ℓ} : {A : Type ℓ} (f : ℕ → A) (b : ℕ) (v : A) → update f b v b ≡ v
update_self f b v = rw (==-refl b)

pub update_ne {ℓ} : {A : Type ℓ} (f : ℕ → A) (b : ℕ) (v : A) (c : ℕ) → b ≢ c → update f b v c ≡ f c
update_ne f b v c h = rw (ne→== b c h)

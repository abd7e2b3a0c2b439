-- ===== src/Mutex.antt =====
-- mutex/simple.c: a buffer that any number of threads read and write under a mutex, a byte at a time.
pub mod Holder
pub mod Atomic
pub mod Refinement
pub mod Calls
pub mod Poc
pub mod Driver
mod Tests
use lkm.Prelude.{ℕ, suc, ◌+◌, ◌%◌, ◌^◌, ◌≤◌, ◌<◌, ◌≡◌, Option, none, some, put}

-- The arguments of a call. `user` is the caller's buffer, which `read_file` fills.
pub record Args : Type 0 where
  pub user : ℕ → ℕ
  pub size : ℕ
  pub offt : ℕ

pub data Call : Type 0 where
  read_file write_file : Call

-- Which calls the threads' programs make: thread, call and arguments.
abbrev pub Program : Type 1
Program = ℕ → Call → Args → Type 0

-- Where a thread is: at `mutex_lock`, in the copy with some bytes copied, or back with the result.
pub data Pc : Type 0 where
  outside : Pc
  locking : Call → Args → Pc
  copying : Call → Args → ℕ → Pc
  returned : Call → Args → ℕ → Pc

-- `struct my_mutex`: who holds the mutex, and the bytes from `buff` on, of which 0x100 are the buffer's.
pub record MyMutex : Type 0 where
  pub mutex : Option ℕ
  pub buff : ℕ → ℕ

-- The end of a call: `*offt += count` and `ret = count`, an int.
abbrev pub advanced : Args → Args
advanced a = record a { offt = a.offt + a.size }

abbrev pub ret_of : Args → ℕ
ret_of a = a.size % 2 ^ 32

-- A step of thread `i`. No copy fails; one that goes beyond the buffer's bytes goes on into the memory
-- behind it. `copy_to_user` and `copy_from_user` are the copies of one byte of the calls'.
pub data Move (W : Program) (i : ℕ) (m : MyMutex) : Pc → MyMutex → Pc → Type 0 where
  call : {c : Call} {a : Args} → W i c a → Move W i m outside m (locking c a)
  mutex_lock :
      {c : Call} {a : Args}
      → m.mutex ≡ none
      → Move W i m (locking c a) (record m { mutex = some i }) (copying c a 0)
  copy_to_user :
      {a : Args} {k : ℕ}
      → k < a.size
      → Move W i m
          (copying read_file a k)
          m
          (copying read_file (record a { user = put a.user k (m.buff k) }) (suc k))
  copy_from_user :
      {a : Args} {k : ℕ}
      → k < a.size
      → Move W i m
          (copying write_file a k)
          (record m { buff = put m.buff k (a.user k) })
          (copying write_file a (suc k))
  mutex_unlock :
      {c : Call} {a : Args} {k : ℕ}
      → a.size ≤ k
      → Move W i m (copying c a k) (record m { mutex = none }) (returned c (advanced a) (ret_of a))
  leave : {c : Call} {a : Args} {r : ℕ} → Move W i m (returned c a r) m outside

-- The threads by their number.
pub record State : Type 0 where
  pub mem : MyMutex
  pub pc : ℕ → Pc

pub data Step (W : Program) (s : State) : State → Type 0 where
  pick :
      {m : MyMutex} {p : Pc} (i : ℕ)
      → Move W i s.mem (s.pc i) m p
      → Step W s (record { mem = m; pc = put s.pc i p })

-- What `my_init` leaves: the mutex free, and the buffer zero as static data are.
abbrev pub start : State
start = record { mem = record { mutex = none; buff = λ k. 0 }; pc = λ i. outside }

pub data Reachable (W : Program) : State → Type 0 where
  at_start : Reachable W start
  after : {s t : State} → Reachable W s → Step W s t → Reachable W t

-- ===== src/Notifier.antt =====
-- notifier/publisher.c and notifier/subscriber.c: what is written to a file of the one is passed on to
-- each loaded copy of the other, through a chain of the kernel.
pub mod Delivery
mod Tests
use lkm.Prelude.{
  ℕ, suc, ◌+◌, ◌-◌, ◌≡◌, Bool, true, false, Option, none, some, List, [], ◌∷◌, ◌++◌, ◌==◌,
  if◌then◌else◌, length, take, replicate,
}

abbrev pub bit : Bool → ℕ
bit true = 1
bit false = 0

-- How often a block is called.
unfoldable pub calls_of : ℕ → List ℕ → ℕ
calls_of n [] = 0
calls_of n (m ∷ ms) = bit (m == n) + calls_of n ms

-- `BLOCKING_NOTIFIER_HEAD` and its functions, as their documentation has them. Blocks are told apart by
-- a number; `called` are those that `blocking_notifier_call_chain` calls, in the order of the calls,
-- when each of them returns 0.
pub record ChainOps : Type 1 where
  pub Chain : Type 0
  pub head : Chain
  pub register : Chain → ℕ → Chain
  pub unregister : Chain → ℕ → Chain
  pub called : Chain → List ℕ
  pub called-head : (n : ℕ) → calls_of n (called head) ≡ 0
  pub called-register :
      (c : Chain) (m n : ℕ)
      → calls_of m (called c) ≡ 0
      → calls_of n (called (register c m)) ≡ bit (m == n) + calls_of n (called c)
  pub called-unregister :
      (c : Chain) (m n : ℕ)
      → calls_of n (called (unregister c m)) ≡ (if m == n then 0 else calls_of n (called c))

-- The text that a buffer begins with, up to its NUL; none where there is no NUL.
unfoldable pub text_of : List ℕ → Option (List ℕ)
text_of [] = none
text_of (c ∷ cs) = elim (c == 0) [
  | true ↦ some []
  | false ↦ elim (text_of cs) [ none ↦ none | some t ↦ some (c ∷ t) ]
]

-- The `enum my_msg`
abbrev pub my_event0 : ℕ
my_event0 = 0

abbrev pub my_event1 : ℕ
my_event1 = 1

-- A line that `my_notify_sys` prints, in the module of this block.
pub record Line : Type 0 where
  pub block : ℕ
  pub code : ℕ
  pub msg : List ℕ

-- The line that it prints, and what it returns.
abbrev pub my_notify_sys : ℕ → ℕ → List ℕ → Line × ℕ
my_notify_sys this val msg = (record { block = this; code = val; msg = msg }, 0)

-- What a write prints and returns.
pub record Published : Type 0 where
  pub ret : ℕ
  pub msg : List ℕ
  pub lines : List Line

-- Each block that is called prints its line.
unfoldable pub lines_of : List ℕ → ℕ → List ℕ → List Line
lines_of [] val msg = []
lines_of (b ∷ bs) val msg = (my_notify_sys b val msg).0 ∷ lines_of bs val msg

-- A subscriber's module is loaded or unloaded.
pub data Event : Type 0 where
  insmod rmmod : ℕ → Event

module _ (O : ChainOps) where
  abbrev publish : O.Chain → ℕ → Option (List ℕ) → Option Published
  publish c count none = none
  publish c count (some msg) =
      some (record { ret = count; msg = msg; lines = lines_of (O.called c) my_event1 msg })

  -- `buf` are the bytes at user space, of which the last `uncopied` cannot be read: they stay zero.
  -- None where there is no memory, and where the text is read behind the buffer.
  unfoldable pub write_proc : Bool → ℕ → O.Chain → List ℕ → Option Published
  write_proc no_memory uncopied c buf = elim no_memory [
    | true ↦ none
    | false ↦
        publish c (length buf) (text_of (take (length buf - uncopied) buf ++ replicate uncopied 0))
  ]

  -- `init_modules` and `exit_modules` of a subscriber.
  unfoldable pub register_my_notifier : O.Chain → ℕ → O.Chain
  register_my_notifier c nb = O.register c nb

  unfoldable pub unregister_my_notifier : O.Chain → ℕ → O.Chain
  unregister_my_notifier c nb = O.unregister c nb

  unfoldable pub after : O.Chain → List Event → O.Chain
  unfolding register_my_notifier unregister_my_notifier
  after c [] = c
  after c (insmod n ∷ es) = after (register_my_notifier c n) es
  after c (rmmod n ∷ es) = after (unregister_my_notifier c n) es

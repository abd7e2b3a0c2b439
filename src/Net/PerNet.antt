-- ===== src/Net/PerNet.antt =====
-- pernet/simple.c: 16 bytes for each network namespace.
use lkm.Prelude.{
  ℕ, ◌+◌, ◌≡◌, refl, inr, Option, none, some, List, [], ◌∷◌, ◌++◌, ◌==◌, if◌then◌else◌, arith,
}
use lkm.Prelude.Bytes.{Mem, store, store_out}
use lkm.Netlink.{c_string}

-- `char message[0x10]`
abbrev pub message_bytes : ℕ
message_bytes = 0x10

-- "hello"
abbrev pub hello : List ℕ
hello = b'h' ∷ b'e' ∷ b'l' ∷ b'l' ∷ b'o' ∷ []

-- `strcpy(data->message, "hello")`, into the memory that `net_generic` gives.
unfoldable pub my_ns_init : Mem → Mem
my_ns_init data_mem = store data_mem 0 (hello ++ 0 ∷ [])

-- The message that is printed, if it ends within its array.
unfoldable pub my_ns_exit : Mem → Option (List ℕ)
my_ns_exit data_mem = c_string data_mem 0 message_bytes

-- The memory of each namespace. One that comes gets its own; one that goes prints its message.
unfoldable pub comes : ℕ → Mem → (ℕ → Option Mem) → ℕ → Option Mem
comes net fresh data_of n = if net == n then some (my_ns_init fresh) else data_of n

unfoldable pub goes : ℕ → (ℕ → Option Mem) → ℕ → Option Mem
goes net data_of n = if net == n then none else data_of n

-- Whatever the memory held, the message is printed, and nothing behind it is written.
pub my_ns_exit-my_ns_init :
    (m : Mem)
    → (my_ns_exit (my_ns_init m) ≡ some hello)
      × ((a : ℕ) → my_ns_init m (message_bytes + a) ≡ m (message_bytes + a))
unfolding my_ns_exit my_ns_init c_string store
my_ns_exit-my_ns_init m = (refl, λ a. store_out m 0 (hello ++ 0 ∷ []) _ (inr (omega arith)))

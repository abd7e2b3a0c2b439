-- ===== src/UdpSend.antt =====
-- udp_send/version1/simple.c: the init function, which starts a thread that sends a buffer again and
-- again.
pub mod Sender
pub mod Version2
mod Tests
use lkm.Prelude.{
  ℕ, ◌/◌, ◌%◌, ◌≡◌, ◌≢◌, refl, ◌⊎◌, inl, inr, Bool, true, false, Option, none, some, List, [], ◌∷◌,
  arith,
}
use lkm.Kernel.{Tagged, done, fault, M, ◌>>=◌, ◌>>◌, pure, branch, take_res, remove_res, give}

pub data Res : Type 0 where
  sock tinfo thread : Res

abbrev tag_of : Res → ℕ
tag_of sock = 0
tag_of tinfo = 1
tag_of thread = 2

instance abbrev pub res_tagged : Tagged Res
res_tagged = record { tag = tag_of }

-- `struct sockaddr_in` in the order of the network, the high byte first.
pub record SockaddrIn : Type 0 where
  pub sin_port : List ℕ
  pub sin_addr : List ℕ

abbrev pub cpu_to_be16 : ℕ → List ℕ
cpu_to_be16 v = v / 0x100 % 0x100 ∷ v % 0x100 ∷ []

abbrev cpu_to_be32 : ℕ → List ℕ
cpu_to_be32 v = v / 0x1000000 % 0x100 ∷ v / 0x10000 % 0x100 ∷ v / 0x100 % 0x100 ∷ v % 0x100 ∷ []

-- What the kernel's calls answer. A result is `some e` for the error -e, and `none` otherwise.
pub record Env : Type 0 where
  pub sock_create_kern : Option ℕ
  pub dev_get_by_name : Bool  -- whether there is such a device
  pub inet_select_addr : List ℕ
  pub bind : SockaddrIn → Option ℕ
  pub connect : SockaddrIn → Option ℕ
  pub kmalloc : Bool  -- whether it fails, as `kthread_run`
  pub kthread_run : Bool

-- The module's parameters for the address.
pub record Params : Type 0 where
  pub dstip : ℕ
  pub dstport : ℕ

abbrev enodev : ℕ
enodev = 19

unfoldable pub bind_to_device : Env → Option ℕ
bind_to_device env = elim env.dev_get_by_name [
  | false ↦ some enodev
  | true ↦ env.bind (record { sin_port = cpu_to_be16 0; sin_addr = env.inet_select_addr })
]

unfoldable pub connect_to_addr : Env → Params → Option ℕ
connect_to_addr env ps =
    env.connect (record { sin_port = cpu_to_be16 ps.dstport; sin_addr = cpu_to_be32 ps.dstip })

-- `err < 0`
abbrev failed : Option ℕ → Bool
failed none = false
failed (some e) = true

-- The labels; `release_sock` unlocks the socket and does not give it back. The value tells whether
-- the function returned 0, and not -1.
unfoldable pub connect_error : M Res Bool
connect_error = pure false

unfoldable pub thread_error : M Res Bool
thread_error = do give tinfo; connect_error

unfoldable pub my_init : Env → Params → M Res Bool
my_init env ps = do
  no_sock ← take_res (failed env.sock_create_kern) sock
  branch no_sock (pure false) (
      branch (failed (bind_to_device env)) connect_error (
        branch (failed (connect_to_addr env ps)) connect_error (do
          no_tinfo ← take_res env.kmalloc tinfo
          branch no_tinfo connect_error (do
            no_thread ← take_res env.kthread_run thread
            branch no_thread thread_error (pure true)))))

-- How the init function ends: with all that it takes, when each call went through; with -1 and what
-- was held before, without a socket; or with -1 and the socket, which it never gives back.
unfoldable pub InitEnds : Env → Params → List Res → Type 0
InitEnds env ps l =
    ((my_init env ps l ≡ done true (thread ∷ tinfo ∷ sock ∷ l))
      × (bind_to_device env ≡ none)
      × (connect_to_addr env ps ≡ none))
    ⊎ (((env.sock_create_kern ≢ none) × (my_init env ps l ≡ done false l))
        ⊎ ((env.sock_create_kern ≡ none) × (my_init env ps l ≡ done false (sock ∷ l))))

-- The init function takes the socket, the thread's argument and the thread, with the socket bound and
-- connected; or it returns -1, and holds no more than before when there was no socket, and else the
-- socket, which it never gives back.
pub my_init-InitEnds : (env : Env) (ps : Params) (l : List Res) → InitEnds env ps l
unfolding InitEnds my_init thread_error connect_error remove_res
my_init-InitEnds env ps l =
    go env.sock_create_kern (bind_to_device env) (connect_to_addr env ps) env.kmalloc
      env.kthread_run refl refl refl refl refl
  where
    go :
        (o b c : Option ℕ) (k t : Bool)
        → env.sock_create_kern ≡ o
        → bind_to_device env ≡ b
        → connect_to_addr env ps ≡ c
        → env.kmalloc ≡ k
        → env.kthread_run ≡ t
        → InitEnds env ps l
    go (some e) b c k t eo eb ec ek et = inr (inl (λ q. cc (q, eo), ground arith))
    go none (some e) c k t eo eb ec ek et = inr (inr (eo, ground arith))
    go none none (some e) k t eo eb ec ek et = inr (inr (eo, ground arith))
    go none none none true t eo eb ec ek et = inr (inr (eo, ground arith))
    go none none none false true eo eb ec ek et = inr (inr (eo, ground arith))
    go none none none false false eo eb ec ek et = inl (ground arith, eb, ec)

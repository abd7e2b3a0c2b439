-- ===== src/Netlink/User.antt =====
-- netlink/user.c and netlink/simple.c: what the program and the module open and close. The program's
-- calls of sendto and recvfrom are tested for 0 only.
use lkm.Prelude.{ℕ, ◌≡◌, refl, Bool, true, false, Option, List, [], ◌∷◌, if◌then◌else◌, arith}
use lkm.Prelude.Bytes.{Mem}
use lkm.Kernel.{
  Tagged, Run, done, fault, M, ◌>>=◌, ◌>>◌, pure, crash, branch, take_res, remove_res, give, drop,
}
use lkm.Netlink.{user_receive}

-- The socket, and the message's memory.
pub data UserRes : Type 0 where
  skfd nlh : UserRes

abbrev user_tag : UserRes → ℕ
user_tag skfd = 0
user_tag nlh = 1

instance abbrev pub user_tagged : Tagged UserRes
user_tagged = record { tag = user_tag }

-- Which of the calls of `main` fail, and which of the last two give 0; what is received, with its
-- length, when something is.
pub record UserEnv : Type 0 where
  pub socket : Bool
  pub bind : Bool
  pub calloc : Bool
  pub sendto_zero : Bool
  pub recvfrom_zero : Bool
  pub skb : Mem
  pub len : ℕ

-- How `main` ends: with -1, or with 0 and the text that it has printed, if it ended within its buffer.
pub data UserEnd : Type 0 where
  minus_one : UserEnd
  zero_after : Option (List ℕ) → UserEnd

unfoldable pub main : UserEnv → M UserRes UserEnd
main env = do
  no_socket ← take_res env.socket skfd
  branch no_socket (pure minus_one) (
      branch env.bind (do give skfd; pure minus_one)
        (do
          no_memory ← take_res env.calloc nlh
          branch no_memory crash (
              branch env.sendto_zero (do give skfd; pure minus_one)
                (branch env.recvfrom_zero (do give skfd; pure minus_one)
                  (do give skfd; give nlh; pure (zero_after (user_receive env.skb env.len)))))))

-- What is left when the program has returned -1.
abbrev user_leaves : UserEnv → List UserRes
user_leaves env = if env.socket then [] else (if env.bind then [] else nlh ∷ [])

unfoldable pub UserEnds : UserEnv → Run UserRes UserEnd → Type 0
UserEnds env (done minus_one l) = l ≡ user_leaves env
UserEnds env (done (zero_after text) l) = (l ≡ []) × (text ≡ user_receive env.skb env.len)
UserEnds env fault = (env.socket ≡ false) × (env.bind ≡ false) × (env.calloc ≡ true)

-- However the program ends, the socket is closed; the message's memory is given back only when all
-- went well. Without memory it writes through NULL, and only then.
pub main-UserEnds : (env : UserEnv) → UserEnds env (main env [])
unfolding UserEnds main remove_res
main-UserEnds env =
    go env.socket env.bind env.calloc env.sendto_zero env.recvfrom_zero refl refl refl refl refl
  where
    go :
        (a b c d e : Bool)
        → env.socket ≡ a
        → env.bind ≡ b
        → env.calloc ≡ c
        → env.sendto_zero ≡ d
        → env.recvfrom_zero ≡ e
        → UserEnds env (main env [])
    go true b c d e ea eb ec ed ee = rw ea refl
    go false true c d e ea eb ec ed ee = rw (ea, eb) refl
    go false false true d e ea eb ec ed ee = rw (ea, eb, ec) (refl, refl, refl)
    go false false false true e ea eb ec ed ee = rw (ea, eb, ec, ed) refl
    go false false false false true ea eb ec ed ee = rw (ea, eb, ec, ed, ee) refl
    go false false false false false ea eb ec ed ee = rw (ea, eb, ec, ed, ee) (refl, refl)

-- The kernel's socket, the only thing that the module takes.
pub data Nlsk : Type 0 where
  nlsk : Nlsk

instance abbrev pub nlsk_tagged : Tagged Nlsk
nlsk_tagged = record { tag = λ s. 0 }

-- The value tells whether the function returned 0.
unfoldable pub test_netlink_init : Bool → M Nlsk Bool
test_netlink_init netlink_kernel_create = do
  failed ← take_res netlink_kernel_create nlsk
  branch failed (pure false) (pure true)

unfoldable pub test_netlink_exit : M Nlsk (Unit {0})
test_netlink_exit = drop nlsk

-- Whether the socket was there or not, the exit function leaves nothing behind.
pub test_netlink_exit-test_netlink_init :
    (fails r : Bool) (l : List Nlsk)
    → test_netlink_init fails [] ≡ done r l
    → test_netlink_exit l ≡ done tt []
unfolding test_netlink_init test_netlink_exit remove_res
test_netlink_exit-test_netlink_init fails r l e = ground arith

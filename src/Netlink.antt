-- ===== src/Netlink.antt =====
-- netlink/simple.c and netlink/user.c: the two messages between the kernel module and the program.
pub mod Messages
pub mod User
mod Tests
use lkm.Prelude.{
  ℕ, zero, suc, ◌+◌, ◌-◌, ◌*◌, ◌/◌, ◌%◌, ◌^◌, ◌≡◌, refl, Bool, true, false, Option, none, some,
  List, [], ◌∷◌, ◌++◌, length, take, leb, ◌==◌, if◌then◌else◌,
}
use lkm.Prelude.Bytes.{Mem, to_le, load, store}
use lkm.Kernel.{Tagged, M, ◌>>=◌, ◌>>◌, pure, branch, take_res, remove_res, give}

abbrev pub netlink_test : ℕ
netlink_test = 30

abbrev pub user_port : ℕ
user_port = 100

-- `struct nlmsghdr`
pub record NlmsgHdr : Type 0 where
  pub nlmsg_len : ℕ
  pub nlmsg_type : ℕ
  pub nlmsg_flags : ℕ
  pub nlmsg_seq : ℕ
  pub nlmsg_pid : ℕ

abbrev pub nlmsg_hdrlen : ℕ
nlmsg_hdrlen = 16

abbrev pub nlmsg_align : ℕ → ℕ
nlmsg_align n = (n + 3) / 4 * 4

-- `NLMSG_SPACE`, and `nlmsg_total_size` in the kernel
abbrev pub nlmsg_space : ℕ → ℕ
nlmsg_space payload = nlmsg_align (nlmsg_hdrlen + payload)

unfoldable pub hdr_bytes : NlmsgHdr → List ℕ
hdr_bytes h =
    to_le 4 h.nlmsg_len
    ++ to_le 2 h.nlmsg_type
    ++ to_le 2 h.nlmsg_flags
    ++ to_le 4 h.nlmsg_seq
    ++ to_le 4 h.nlmsg_pid

-- The bytes of the C string at `p`, if it ends within `n` bytes.
unfoldable pub c_string : Mem → ℕ → ℕ → Option (List ℕ)
c_string m p zero = none
c_string m p (suc n) =
    let rest = c_string m (suc p) n in
    if m p == 0 then some [] else elim rest [ none ↦ none | some s ↦ some (m p ∷ s) ]

-- The socket buffer, the only thing that `send_msg` takes.
pub data Skb : Type 0 where
  nl_skb : Skb

instance abbrev pub skb_tagged : Tagged Skb
skb_tagged = record { tag = λ s. 0 }

-- What the kernel's calls answer: whether there is no memory, whether the message does not fit, and
-- what `netlink_unicast` returns for the message's bytes.
pub record Env : Type 0 where
  pub nlmsg_new : Bool
  pub nlmsg_put : Bool

pub data Sent : Type 0 where
  send_failed : Sent
  unicast : Mem → ℕ → Sent  -- the message's bytes and their number

abbrev zeros : Mem
zeros a = 0

-- `nlmsg_put` writes the header, and zeros behind the payload up to a multiple of 4; `memcpy` writes
-- the payload.
unfoldable pub kernel_message : List ℕ → ℕ → Mem
kernel_message pbuf len =
    store
      (store zeros 0 (
        hdr_bytes (record {
          nlmsg_len = nlmsg_hdrlen + len;
          nlmsg_type = netlink_test;
          nlmsg_flags = 0;
          nlmsg_seq = 0;
          nlmsg_pid = 0;
        })))
      nlmsg_hdrlen (take len pbuf)

-- `netlink_unicast` takes the socket buffer over.
unfoldable pub send_msg : Env → List ℕ → ℕ → M Skb Sent
send_msg env pbuf len = do
  no_skb ← take_res env.nlmsg_new nl_skb
  branch no_skb (pure send_failed) (
      branch env.nlmsg_put (do give nl_skb; pure send_failed)
        (do give nl_skb; pure (unicast (kernel_message pbuf len) (nlmsg_space len))))

-- "hello users!!!"
abbrev pub kmsg : List ℕ
kmsg = 104 ∷ 101 ∷ 108 ∷ 108 ∷ 111 ∷ 32 ∷ 117 ∷ 115 ∷ 101 ∷ 114 ∷ 115 ∷ 33 ∷ 33 ∷ 33 ∷ []

-- What the module does with a message: nothing when it is too short; otherwise it prints the string
-- behind the header, or reads on behind the message, and answers. `len` is a `uint16_t`.
pub data Received : Type 0 where
  too_short : Received
  printed : Option (List ℕ) → Sent → Received

unfoldable pub rcv_msg : Env → Mem → ℕ → M Skb Received
rcv_msg env skb len =
    if leb (nlmsg_space 0) len
    then (do
      sent ← send_msg env kmsg (length kmsg % 2 ^ 16)
      pure (printed (c_string skb nlmsg_hdrlen (len - nlmsg_hdrlen)) sent))
    else pure too_short

-- user.c: the message that the program sends, in memory from `calloc`.
abbrev pub max_pload : ℕ
max_pload = 125

unfoldable pub user_message : List ℕ → Mem
user_message umsg =
    store
      (store zeros 0 (
        hdr_bytes (record {
          nlmsg_len = nlmsg_space max_pload;
          nlmsg_type = 0;
          nlmsg_flags = 0;
          nlmsg_seq = 0;
          nlmsg_pid = user_port;
        })))
      nlmsg_hdrlen umsg

-- `sizeof(user_msg_info)`: the header and `msg`, with the padding of a struct of words.
abbrev pub user_msg_info_bytes : ℕ
user_msg_info_bytes = 144

abbrev pub min_of : ℕ → ℕ → ℕ
min_of a b = if leb a b then a else b

-- The program receives into a zeroed `u_info` and prints `msg`.
unfoldable pub user_receive : Mem → ℕ → Option (List ℕ)
user_receive skb len =
    c_string (store zeros 0 (load skb 0 (min_of len user_msg_info_bytes))) nlmsg_hdrlen 128

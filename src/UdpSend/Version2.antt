-- ===== src/UdpSend/Version2.antt =====
-- udp_send/version2/simple.c: ten messages at once.
use lkm.Prelude.{ℕ, zero, suc, ◌≡◌, refl, Bool, true, false, List, [], ◌∷◌, length, take}
use lkm.UdpSend.{SockaddrIn, cpu_to_be16}

-- "hello\n" in its ten bytes.
abbrev pub buffer : List ℕ
buffer = 104 ∷ 101 ∷ 108 ∷ 108 ∷ 111 ∷ 10 ∷ 0 ∷ 0 ∷ 0 ∷ 0 ∷ []

-- What is given to `kernel_sendmsg`: the address and the bytes.
pub record Message : Type 0 where
  pub msg_name : SockaddrIn
  pub iov : List ℕ

-- How the init function ends: the socket is NULL and used, or 0 is returned, with what was sent.
pub data Inited : Type 0 where
  null_pointer : Inited
  sent : List Message → Inited

-- The loop with `n` rounds left. No result of `kernel_sendmsg` is looked at.
unfoldable pub send_rounds : ℕ → Message → List Message
send_rounds zero m = []
send_rounds (suc n) m = m ∷ send_rounds n m

-- `ip_addr` is what `in_aton` makes of the text, in the order of the network.
unfoldable pub ker_send_udp : List ℕ → List ℕ → ℕ → List Message
ker_send_udp ip_addr bytes len = send_rounds 10 (record {
  msg_name = record { sin_port = cpu_to_be16 65530; sin_addr = ip_addr };
  iov = take len bytes;
})

-- 192.168.1.253; whether the socket could not be created is not looked at.
unfoldable pub my_init : Bool → Inited
my_init true = null_pointer
my_init false = sent (ker_send_udp (192 ∷ 168 ∷ 1 ∷ 253 ∷ []) buffer 10)

-- Ten messages are sent, whatever their bytes and their address.
pub length-ker_send_udp :
    (ip_addr bytes : List ℕ) (len : ℕ) → length (ker_send_udp ip_addr bytes len) ≡ 10
unfolding ker_send_udp send_rounds
length-ker_send_udp ip_addr bytes len = refl

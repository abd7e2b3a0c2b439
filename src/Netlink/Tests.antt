-- ===== src/Netlink/Tests.antt =====
-- A message of netlink/user.c, and the answer.
use lkm.Prelude.{ℕ, ◌≡◌, refl, false, some, List, [], ◌∷◌, NoNul, arith}
use lkm.Prelude.Bytes.{Mem}
use lkm.Kernel.{done}
use lkm.Netlink.{
  Env, unicast, kmsg, printed, rcv_msg, nlmsg_space, max_pload, user_message, user_receive,
}
use lkm.Netlink.Messages.{rcv_msg-user_message}

-- "hello netlink!!"
abbrev umsg : List ℕ
umsg = 104 ∷ 101 ∷ 108 ∷ 108 ∷ 111 ∷ 32 ∷ 110 ∷ 101 ∷ 116 ∷ 108 ∷ 105 ∷ 110 ∷ 107 ∷ 33 ∷ 33 ∷ []

abbrev granted : Env
granted = record { nlmsg_new = false; nlmsg_put = false }

umsg-NoNul : NoNul umsg
umsg-NoNul = ground arith

rcv_msg-user_message_example :
    (skb : Mem) × (len : ℕ) × (rcv_msg granted (user_message umsg) (nlmsg_space max_pload) []
      ≡ done (printed (some umsg) (unicast skb len)) [])
    × (user_receive skb len ≡ some kmsg)
rcv_msg-user_message_example =
    rcv_msg-user_message granted umsg [] umsg-NoNul (omega arith) refl refl

-- ===== src/Netlink/Messages.antt =====
-- netlink/simple.c and netlink/user.c: what each side reads of what the other has sent.
use lkm.Prelude.{
  ℕ, zero, suc, ◌+◌, ◌<◌, ◌≤◌, ◌≡◌, refl, sym, ap, ◌∙◌, inl, inr, Bool, true, false, some, List, [],
  ◌∷◌, length, take-all, get_or, ltb, Bool-cases, ltb→lt, ltb→le, ne→==, NoNul, arith,
}
use lkm.Prelude.Bytes.{Mem, to_le, load, store, store_out, store_in, length-load}
use lkm.Kernel.{done, remove_res}
use lkm.Netlink.{
  NlmsgHdr, hdr_bytes, nlmsg_space, c_string, skb_tagged, Env, Sent, send_failed, unicast,
  kernel_message, send_msg, kmsg, printed, rcv_msg, max_pload, user_message, user_receive,
  user_msg_info_bytes, min_of, zeros, Skb,
}

get_or_default : (s : List ℕ) (i d d' : ℕ) → i < length s → get_or s i d ≡ get_or s i d'
get_or_default [] i d d' h = elim h [ ]
get_or_default (x ∷ s) zero d d' h = refl
get_or_default (x ∷ s) (suc i) d d' h = get_or_default s i d d' (omega arith)

get_or-load : (m : Mem) (p n i d : ℕ) → i < n → get_or (load m p n) i d ≡ m (p + i)
unfolding load
get_or-load m p zero i d h = elim h [ ]
get_or-load m p (suc n) zero d h = ap m (omega arith)
get_or-load m p (suc n) (suc i) d h =
    get_or-load m (p + 1) n i d (omega arith)
    ∙ ap m (let e : p + 1 + i ≡ p + suc i = omega arith in e)

-- A string that stands in memory with its NUL is read whole.
c_string-eq :
    (m : Mem) (s : List ℕ) (p n : ℕ)
    → NoNul s
    → ((i : ℕ) → i < length s → m (p + i) ≡ get_or s i 0)
    → m (p + length s) ≡ 0
    → length s < n
    → c_string m p n ≡ some s
unfolding c_string
c_string-eq m s p zero w h z b = elim b [ ]
c_string-eq m [] p (suc n) w h z b =
    let e : m p ≡ 0 = ap m (let q : p ≡ p + 0 = omega arith in q) ∙ z in rw e refl
c_string-eq m (c ∷ s) p (suc n) (ne, w) h z b =
    let e : m p ≡ c = ap m (let q : p ≡ p + 0 = omega arith in q) ∙ h 0 (omega arith) in
    let rest =
      c_string-eq m s (suc p) n w
        (λ i lt. ap m (let q : suc p + i ≡ p + suc i = omega arith in q) ∙ h (suc i) (omega arith))
        (ap m (let q : suc p + length s ≡ p + suc (length s) = omega arith in q) ∙ z)
        (omega arith) in
    rw (ne→== (m p) 0 (λ q. ne (sym e ∙ q)), rest) (ap (λ x. some (x ∷ s)) e)

length-hdr_bytes : (h : NlmsgHdr) → length (hdr_bytes h) ≡ 16
unfolding hdr_bytes to_le
length-hdr_bytes h = refl

-- The payload behind the header, and the zero behind it.
payload_at :
    (h : NlmsgHdr) (s : List ℕ) (i : ℕ)
    → i < length s
    → store (store zeros 0 (hdr_bytes h)) 16 s (16 + i) ≡ get_or s i 0
payload_at h s i lt = store_in (store zeros 0 (hdr_bytes h)) 16 s i ∙ get_or_default s i _ 0 lt

payload_end :
    (h : NlmsgHdr) (s : List ℕ) → store (store zeros 0 (hdr_bytes h)) 16 s (16 + length s) ≡ 0
payload_end h s =
    store_out (store zeros 0 (hdr_bytes h)) 16 s (16 + length s) (inr (omega arith))
    ∙ store_out zeros 0 (hdr_bytes h) (16 + length s) (inr (omega (arith, length-hdr_bytes h)))

-- The copy of the first `n` bytes, in zeroed memory.
copy_at : (m : Mem) (n a : ℕ) → a < n → store zeros 0 (load m 0 n) a ≡ m a
copy_at m n a lt =
    let e : a ≡ 0 + a = omega arith in
    ap (store zeros 0 (load m 0 n)) e
    ∙ store_in zeros 0 (load m 0 n) a
    ∙ get_or-load m 0 n a _ lt
    ∙ ap m (sym e)

copy_beyond : (m : Mem) (n a : ℕ) → n ≤ a → store zeros 0 (load m 0 n) a ≡ 0
copy_beyond m n a le = store_out zeros 0 (load m 0 n) a (inr (omega (arith, length-load m 0 n)))

copy_zero : (m : Mem) (n a : ℕ) → m a ≡ 0 → store zeros 0 (load m 0 n) a ≡ 0
copy_zero m n a z = elim (Bool-cases (ltb a n)) [
  | inl in_copy ↦ copy_at m n a (ltb→lt a n in_copy) ∙ z
  | inr out ↦ copy_beyond m n a (ltb→le a n out)
]

room : (n i : ℕ) → i < n → n ≤ 124 → 16 + i < min_of (nlmsg_space n) user_msg_info_bytes
room n i lt b = ground arith

-- What the module has sent of a string without a NUL in it, of at most 124 bytes, the program reads.
user_receive-kernel_message :
    (s : List ℕ)
    → NoNul s
    → length s ≤ 124
    → user_receive (kernel_message s (length s)) (nlmsg_space (length s)) ≡ some s
unfolding user_receive kernel_message
user_receive-kernel_message s w b = rw (take-all (length s) s (omega arith)) (
    c_string-eq _ s 16 128 w
      (λ i lt. copy_at _ _ (16 + i) (room (length s) i lt b) ∙ payload_at _ s i lt)
      (copy_zero _ _ (16 + length s) (payload_end _ s)) (omega arith))

-- What the program has sent of a string without a NUL in it, of at most 127 bytes, the module prints,
-- and what the module then answers the program prints; the socket buffer is given to the kernel.
pub rcv_msg-user_message :
    (env : Env) (umsg : List ℕ) (l : List Skb)
    → NoNul umsg
    → length umsg ≤ 127
    → env.nlmsg_new ≡ false
    → env.nlmsg_put ≡ false
    → (skb : Mem) × (len : ℕ) × (rcv_msg env (user_message umsg) (nlmsg_space max_pload) l
        ≡ done (printed (some umsg) (unicast skb len)) l)
      × (user_receive skb len ≡ some kmsg)
unfolding rcv_msg send_msg remove_res
rcv_msg-user_message env umsg l w b new put =
    let read : c_string (user_message umsg) 16 128 ≡ some umsg =
      unfold user_message in
      c_string-eq _ umsg 16 128 w (λ i lt. payload_at _ umsg i lt) (payload_end _ umsg)
        (omega arith) in
    (
      kernel_message kmsg 14,
      nlmsg_space 14,
      rw (new, put, read) refl,
      user_receive-kernel_message kmsg (kmsg_NoNul) (omega arith),
    )
  where
    kmsg_NoNul : NoNul kmsg
    kmsg_NoNul = ground arith

-- Whatever fails, no socket buffer is left over.
pub send_msg-held :
    (env : Env) (pbuf : List ℕ) (len : ℕ) (l : List Skb)
    → (s : Sent) × (send_msg env pbuf len l ≡ done s l)
unfolding send_msg remove_res
send_msg-held env pbuf len l = go env.nlmsg_new env.nlmsg_put refl refl
  where
    go :
        (a b : Bool)
        → env.nlmsg_new ≡ a
        → env.nlmsg_put ≡ b
        → (s : Sent) × (send_msg env pbuf len l ≡ done s l)
    go true b ea eb = (send_failed, rw ea refl)
    go false true ea eb = (send_failed, rw (ea, eb) refl)
    go false false ea eb = (unicast (kernel_message pbuf len) (nlmsg_space len), rw (ea, eb) refl)

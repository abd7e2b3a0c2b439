-- ===== src/Notifier/Delivery.antt =====
-- notifier/: who gets a message.
use lkm.Prelude.{
  NoNul, ℕ, ◌+◌, ◌-◌, ◌≡◌, refl, ap, ◌∙◌, Bool, true, false, none, some, List, [], ◌∷◌, ◌++◌, ◌==◌,
  if◌then◌else◌, length, take, take-all, arith,
}
use mathlib.Core.List.{append-nil}
use lkm.Notifier.{
  bit, calls_of, ChainOps, text_of, my_event1, Line, Published, lines_of, Event, insmod, rmmod,
  write_proc, register_my_notifier, unregister_my_notifier, after,
}

-- Is the subscriber loaded after the events, when `b` tells whether it was before?
unfoldable pub loaded : ℕ → Bool → List Event → Bool
loaded n b [] = b
loaded n b (insmod m ∷ es) = loaded n (if m == n then true else b) es
loaded n b (rmmod m ∷ es) = loaded n (if m == n then false else b) es

-- It is loaded only when it is not.
unfoldable pub Alternates : (ℕ → Bool) → List Event → Type 0
Alternates before [] = Unit {0}
Alternates before (insmod m ∷ es) =
    (before m ≡ false) × Alternates (λ n. if m == n then true else before n) es
Alternates before (rmmod m ∷ es) = Alternates (λ n. if m == n then false else before n) es

-- How many of the lines the subscriber has printed.
unfoldable pub lines_by : ℕ → List Line → ℕ
lines_by n [] = 0
lines_by n (l ∷ ls) = bit (l.block == n) + lines_by n ls

-- Every line has this code and this text.
unfoldable pub AllSay : ℕ → List ℕ → List Line → Type 0
AllSay val msg [] = Unit {0}
AllSay val msg (l ∷ ls) = (l.code ≡ val) × (l.msg ≡ msg) × AllSay val msg ls

lines_by-lines_of : (n val : ℕ) (msg bs : List ℕ) → lines_by n (lines_of bs val msg) ≡ calls_of n bs
unfolding lines_by lines_of calls_of
lines_by-lines_of n val msg [] = refl
lines_by-lines_of n val msg (b ∷ bs) = ap (λ k. bit (b == n) + k) (lines_by-lines_of n val msg bs)

lines_of-AllSay : (val : ℕ) (msg bs : List ℕ) → AllSay val msg (lines_of bs val msg)
unfolding AllSay lines_of
lines_of-AllSay val msg [] = tt
lines_of-AllSay val msg (b ∷ bs) = (refl, refl, lines_of-AllSay val msg bs)

text_of-append : (t rest : List ℕ) → NoNul t → text_of (t ++ 0 ∷ rest) ≡ some t
unfolding text_of
text_of-append [] rest h = refl
text_of-append (c ∷ t) rest (d, h) = ground (arith, text_of-append t rest h)

text_of-none : (t : List ℕ) → NoNul t → text_of t ≡ none
unfolding text_of
text_of-none [] h = refl
text_of-none (c ∷ t) (d, h) = ground (arith, text_of-none t h)

module _ (O : ChainOps) where
  -- The chain calls each loaded subscriber once.
  calls-after :
      (c : O.Chain) (before : ℕ → Bool) (es : List Event)
      → ((n : ℕ) → calls_of n (O.called c) ≡ bit (before n))
      → Alternates before es
      → (n : ℕ) → calls_of n (O.called (after O c es)) ≡ bit (loaded n (before n) es)
  unfolding after register_my_notifier unregister_my_notifier loaded Alternates
  calls-after c before [] h w n = h n
  calls-after c before (insmod m ∷ es) h (new, w) n =
      calls-after (O.register c m) (λ n. if m == n then true else before n) es
        (λ n. ground (arith, O.called-register c m n, h m, h n, new)) w n
  calls-after c before (rmmod m ∷ es) h w n =
      calls-after (O.unregister c m) (λ n. if m == n then false else before n) es
        (λ n. ground (arith, O.called-unregister c m n, h n)) w n

  -- Of the messages of a file with no NUL before its end, on a chain that subscribers have been put on
  -- and taken off, each put on only when it was off: a write of the message and a NUL, with memory and
  -- all of it readable, returns its length, and prints the message; each loaded subscriber prints one
  -- line, the others none, and every line has my_event1 and the message.
  pub write_proc-delivers :
      (es : List Event) (msg rest : List ℕ)
      → Alternates (λ n. false) es
      → NoNul msg
      → (out : Published) × (write_proc O false 0 (after O O.head es) (msg ++ 0 ∷ rest) ≡ some out)
        × (out.ret ≡ length (msg ++ 0 ∷ rest))
        × (out.msg ≡ msg)
        × AllSay my_event1 msg out.lines
        × ((n : ℕ) → lines_by n out.lines ≡ bit (loaded n false es))
  unfolding write_proc
  write_proc-delivers es msg rest w h =
      let buf = msg ++ 0 ∷ rest in
      let whole : take (length buf - 0) buf ++ [] ≡ buf =
        append-nil (take (length buf - 0) buf) ∙ take-all (length buf - 0) buf (omega arith) in
      (
        record {
          ret = length buf;
          msg = msg;
          lines = lines_of (O.called (after O O.head es)) my_event1 msg;
        },
        rw (whole, text_of-append msg rest h) refl,
        refl,
        refl,
        lines_of-AllSay my_event1 msg (O.called (after O O.head es)),
        λ n.
            lines_by-lines_of n my_event1 msg (O.called (after O O.head es))
            ∙ calls-after O.head (λ n. false) es O.called-head w n,
      )

  -- Without a NUL the message is read behind its buffer.
  pub write_proc_overruns :
      (c : O.Chain) (msg : List ℕ) → NoNul msg → write_proc O false 0 c msg ≡ none
  unfolding write_proc
  write_proc_overruns c msg h =
      let whole : take (length msg - 0) msg ++ [] ≡ msg =
        append-nil (take (length msg - 0) msg) ∙ take-all (length msg - 0) msg (omega arith) in
      rw (whole, text_of-none msg h) refl

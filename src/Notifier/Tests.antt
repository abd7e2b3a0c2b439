-- ===== src/Notifier/Tests.antt =====
-- notifier/ over a list as the chain.
use lkm.Prelude.{
  ℕ, ◌+◌, ◌≡◌, refl, true, false, some, List, [], ◌∷◌, ◌++◌, ◌==◌, if◌then◌else◌, arith,
}
use lkm.Notifier.{
  bit, calls_of, ChainOps, my_event1, Published, insmod, rmmod, Event, write_proc, after,
}
use lkm.Notifier.Delivery.{loaded, Alternates, lines_by, AllSay, write_proc-delivers}

without : List ℕ → ℕ → List ℕ
without [] m = []
without (n ∷ ns) m = if m == n then without ns m else n ∷ without ns m

calls_of-without :
    (c : List ℕ) (m n : ℕ) → calls_of n (without c m) ≡ (if m == n then 0 else calls_of n c)
unfolding calls_of without
calls_of-without [] m n = ground arith
calls_of-without (k ∷ c) m n = ground (arith, calls_of-without c m n)

calls_of-cons :
    (c : List ℕ) (m n : ℕ) → calls_of m c ≡ 0 → calls_of n (m ∷ c) ≡ bit (m == n) + calls_of n c
unfolding calls_of
calls_of-cons c m n e = refl

calls_of-nil : (n : ℕ) → calls_of n [] ≡ 0
unfolding calls_of
calls_of-nil n = refl

abbrev list_chain : ChainOps
list_chain = record {
  Chain = List ℕ;
  head = [];
  register = λ c m. m ∷ c;
  unregister = without;
  called = λ c. c;
  called-head = calls_of-nil;
  called-register = calls_of-cons;
  called-unregister = calls_of-without;
}

-- Two subscribers, of which one is taken off again.
abbrev both : List Event
both = insmod 7 ∷ insmod 8 ∷ rmmod 7 ∷ []

-- "hi"
abbrev hi : List ℕ
hi = b'h' ∷ b'i' ∷ []

both-Alternates : Alternates (λ n. false) both
unfolding Alternates
both-Alternates = (refl, (refl, tt))

write_proc-delivers_example :
    (out : Published) × (write_proc list_chain false 0 (after list_chain [] both) (hi ++ 0 ∷ [])
      ≡ some out)
    × (out.ret ≡ 3)
    × (out.msg ≡ hi)
    × AllSay my_event1 hi out.lines
    × ((n : ℕ) → lines_by n out.lines ≡ bit (loaded n false both))
write_proc-delivers_example =
    write_proc-delivers list_chain both hi [] both-Alternates (omega arith)

hears_8 : loaded 8 false both ≡ true
unfolding loaded
hears_8 = refl

hears_7 : loaded 7 false both ≡ false
unfolding loaded
hears_7 = refl

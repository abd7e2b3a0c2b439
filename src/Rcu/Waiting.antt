-- ===== src/Rcu/Waiting.antt =====
-- RCU/simple.c: laws of the structures that wait for their callback.
use lkm.Prelude.{put, ℕ, ◌<◌, ◌≤◌, ◌≡◌, ◌≢◌, Bool, true, false, List, [], ◌∷◌, arith}
use lkm.Rcu.{Ripe, here, there, release}

-- The numbers of the list, from the latest, are below `b` and fall.
unfoldable pub Below : ℕ → List (ℕ × Bool) → Type 0
Below b [] = Unit {0}
Below b (x ∷ l) = (x.0 < b) × Below (x.0) l

unfoldable pub AllLive : (ℕ → Bool) → List (ℕ × Bool) → Type 0
AllLive f [] = Unit {0}
AllLive f (x ∷ l) = (f (x.0) ≡ true) × AllLive f l

-- A structure of the list waits for a critical section.
pub data Waits : ℕ → List (ℕ × Bool) → Type 0 where
  first : {p : ℕ} {l : List (ℕ × Bool)} → Waits p ((p, true) ∷ l)
  later : {p : ℕ} {x : ℕ × Bool} {l : List (ℕ × Bool)} → Waits p l → Waits p (x ∷ l)

pub Below-mono : (b c : ℕ) (l : List (ℕ × Bool)) → b ≤ c → Below b l → Below c l
unfolding Below
Below-mono b c [] h w = tt
Below-mono b c (x ∷ l) h (lt, w) = (omega arith, w)

pub Below-release : (b : ℕ) (l : List (ℕ × Bool)) → Below b l → Below b (release l)
unfolding Below release
Below-release b [] w = tt
Below-release b (x ∷ l) (lt, w) = (lt, Below-release (x.0) l w)

pub AllLive-release : (f : ℕ → Bool) (l : List (ℕ × Bool)) → AllLive f l → AllLive f (release l)
unfolding AllLive release
AllLive-release f [] w = tt
AllLive-release f (x ∷ l) (h, w) = (h, AllLive-release f l w)

pub put-true : (f : ℕ → Bool) (n m : ℕ) → f m ≡ true → put f n true m ≡ true
put-true f n m h = ground arith

pub put-false : (f : ℕ → Bool) (n m : ℕ) → m ≢ n → f m ≡ true → put f n false m ≡ true
put-false f n m d h = ground arith

pub AllLive-put :
    (f : ℕ → Bool) (n : ℕ) (l : List (ℕ × Bool)) → AllLive f l → AllLive (put f n true) l
unfolding AllLive
AllLive-put f n [] w = tt
AllLive-put f n (x ∷ l) (h, w) = (put-true f n (x.0) h, AllLive-put f n l w)

AllLive-above :
    (f : ℕ → Bool) (b : ℕ) (l : List (ℕ × Bool)) (n : ℕ)
    → b ≤ n
    → Below b l
    → AllLive f l
    → AllLive (put f n false) l
unfolding AllLive Below
AllLive-above f b [] n h w v = tt
AllLive-above f b (x ∷ l) n h (lt, w) (e, v) =
    (put-false f n (x.0) (omega arith) e, AllLive-above f (x.0) l n (omega arith) w v)

pub Ripe-lt : (b p : ℕ) (l l' : List (ℕ × Bool)) → Ripe l p l' → Below b l → p < b
unfolding Below
Ripe-lt b p _ l' here (lt, w) = lt
Ripe-lt b p (x ∷ l) _ (there r) (lt, w) = let h = Ripe-lt (x.0) p l _ r w in omega arith

pub Ripe-Below : (b p : ℕ) (l l' : List (ℕ × Bool)) → Ripe l p l' → Below b l → Below b l'
unfolding Below
Ripe-Below b p _ l' here (lt, w) = Below-mono p b l' (omega arith) w
Ripe-Below b p (x ∷ l) _ (there r) (lt, w) = (lt, Ripe-Below (x.0) p l _ r w)

-- The callback on one structure leaves the others allocated.
pub Ripe-AllLive :
    (f : ℕ → Bool) (b p : ℕ) (l l' : List (ℕ × Bool))
    → Ripe l p l'
    → Below b l
    → AllLive f l
    → AllLive (put f p false) l'
unfolding AllLive Below
Ripe-AllLive f b p _ l' here (lt, w) (e, v) = AllLive-above f p l' p (omega arith) w v
Ripe-AllLive f b p (x ∷ l) _ (there r) (lt, w) (e, v) =
    let h = Ripe-lt (x.0) p l _ r w in
    (put-false f p (x.0) (omega arith) e, Ripe-AllLive f (x.0) p l _ r w v)

pub Waits-Ripe : (q p : ℕ) (l l' : List (ℕ × Bool)) → Ripe l p l' → Waits q l → Waits q l'
Waits-Ripe q p _ l' here (later w) = w
Waits-Ripe q p (x ∷ l) _ (there r) first = first
Waits-Ripe q p (x ∷ l) _ (there r) (later w) = later (Waits-Ripe q p l _ r w)

pub Waits-live : (f : ℕ → Bool) (p : ℕ) (l : List (ℕ × Bool)) → Waits p l → AllLive f l → f p ≡ true
unfolding AllLive
Waits-live f p _ first (e, v) = e
Waits-live f p (x ∷ l) (later w) (e, v) = Waits-live f p l w v

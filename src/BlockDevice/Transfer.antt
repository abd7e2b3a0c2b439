-- ===== src/BlockDevice/Transfer.antt =====
-- block_device/simple.c, `do_request` and `queue_rq`: which bytes a request moves, and how many.
use lkm.Prelude.{
  ℕ, ◌+◌, ◌-◌, ◌%◌, ◌^◌, ◌≤◌, ◌<◌, ◌≡◌, refl, ap, ap₂, sym, ◌∙◌, false, some, List, [], ◌∷◌, ◌++◌,
  length, take, drop, ltb, min, arith, inl, inr, ltb→lt, ltb→le, drop-append, drop-all, take-append,
  take-min, take-all, length-take, length-append, le→ltb, Bool-cases,
}
use mathlib.Core.Path.{fun_ext}
use mathlib.Core.List.{append-nil, append_assoc}
use lkm.Prelude.Bytes.{Mem, load, store, store-append, load-append}
use lkm.BlockDevice.{read, write, Progress, clip, copy_segment, serve}

-- All bytes of the segments.
unfoldable pub joined : List (List ℕ) → List ℕ
joined [] = []
joined (b ∷ bs) = b ++ joined bs

clip-min :
    (size pos len : ℕ)
    → pos ≤ size
    → size < 2 ^ 63
    → len < 2 ^ 63
    → clip size pos len ≡ min len (size - pos)
unfolding clip
clip-min size pos len a b c = ground arith

-- Each segment is shorter than 2 ^ 32 bytes.
abbrev pub Short : List (List ℕ) → Type 0
Short [] = Unit {0}
Short (b ∷ bs) = (length b < 2 ^ 32) × Short bs

store-nil : (m : Mem) (p : ℕ) → store m p [] ≡ m
unfolding store
store-nil m p = fun_ext λ a. ground arith

-- What fits of the segments, split at the end of the first one.
take-joined :
    (n : ℕ) (buf rest : List ℕ)
    → take (min (length buf) n) buf ++ take (n - min (length buf) n) rest ≡ take n (buf ++ rest)
take-joined n buf rest =
    ap₂ (λ xs k. xs ++ take k rest) (take-min n buf)
      (let e : n - min (length buf) n ≡ n - length buf = omega arith in e)
    ∙ sym (take-append n buf rest)

-- A part that is stored, and the rest behind it.
store_parts :
    (m : Mem) (size pos c : ℕ) (buf rest : List ℕ)
    → pos ≤ size
    → c ≡ min (length buf) (size - pos)
    → store (store m pos (take c buf)) (pos + c) (take (size - (pos + c)) rest)
      ≡ store m pos (take (size - pos) (buf ++ rest))
store_parts m size pos c buf rest h e =
    store-append m pos (pos + c) (take c buf) (take (size - (pos + c)) rest)
      (omega (arith, e, length-take c buf))
    ∙ ap (store m pos) (
        ap₂ (λ k j. take k buf ++ take j rest) e
          (let f : size - (pos + c) ≡ size - pos - min (length buf) (size - pos) =
              omega (arith, e) in
            f)
        ∙ take-joined (size - pos) buf rest)

progress_eq :
    {p q : Progress}
    → p.bytes ≡ q.bytes
    → p.pos ≡ q.pos
    → p.nr_bytes ≡ q.nr_bytes
    → p.moved ≡ q.moved
    → some p ≡ some q
progress_eq a b c d = λ i. some (record { bytes = a i; pos = b i; nr_bytes = c i; moved = d i })

-- The bytes of the segments that lie on the device, from a position on it.
abbrev pub room : ℕ → Progress → List (List ℕ) → ℕ
room size p bufs = min (length (joined bufs)) (size - p.pos)

-- A write that starts on the device stores the bytes that fit, one behind the other.
pub serve-write :
    (size : ℕ) (bufs : List (List ℕ)) (p : Progress)
    → p.pos ≤ size
    → size < 2 ^ 63
    → p.nr_bytes < 2 ^ 32
    → Short bufs
    → serve size write bufs p
      ≡ some (record {
        bytes = store p.bytes p.pos (take (size - p.pos) (joined bufs));
        pos = p.pos + room size p bufs;
        nr_bytes = (p.nr_bytes + room size p bufs) % 2 ^ 32;
        moved = p.moved ++ bufs;
      })
unfolding serve copy_segment joined
serve-write size [] p h small fits short =
    progress_eq
      (sym (
        ap (store p.bytes p.pos) (take-all (size - p.pos) [] (omega arith))
        ∙ store-nil p.bytes p.pos))
      (omega arith) (omega arith) (sym (append-nil p.moved))
serve-write size (buf ∷ bufs) p h small fits short =
    let c = clip-min size p.pos (length buf) h small (omega arith) in
    let inside : ltb (length buf) (clip size p.pos (length buf)) ≡ false =
      le→ltb _ _ (omega (arith, c)) in
    rw inside (
      serve-write size bufs
        (record {
          bytes = store p.bytes p.pos (take (clip size p.pos (length buf)) buf);
          pos = p.pos + clip size p.pos (length buf);
          nr_bytes = (p.nr_bytes + clip size p.pos (length buf)) % 2 ^ 32;
          moved = p.moved ++ buf ∷ [];
        })
        (omega (arith, c)) small (omega arith) short.1
      ∙ progress_eq (store_parts p.bytes size p.pos _ buf (joined bufs) h c)
          (omega (arith, c, length-append buf (joined bufs)))
          (omega (arith, c, length-append buf (joined bufs)))
          (append_assoc p.moved (buf ∷ []) bufs))

-- A segment with its new bytes, and those of the rest behind it.
load_parts :
    (m : Mem) (pos n c r : ℕ) (buf rest : List ℕ)
    → c ≡ min (length buf) n
    → r ≡ min (length rest) (n - c)
    → (load m pos c ++ drop c buf) ++ (load m (pos + c) r ++ drop r rest)
      ≡ load m pos (c + r) ++ drop (c + r) (buf ++ rest)
unfolding load
load_parts m pos n c r buf rest e f = elim (Bool-cases (ltb n (length buf))) [
  | inl short ↦
      let lt = ltb→lt n (length buf) short in
      let none_left : r ≡ 0 = omega (arith, e, f) in
      let whole : c ≡ c + r = omega (arith, none_left) in
      let inside : c - length buf ≡ 0 = omega (arith, e) in
      ap (λ k. (load m pos c ++ drop c buf) ++ (load m (pos + c) k ++ drop k rest)) none_left
      ∙ append_assoc (load m pos c) (drop c buf) rest
      ∙ ap (λ xs. load m pos c ++ xs)
          (sym (drop-append c buf rest ∙ ap (λ k. drop c buf ++ drop k rest) inside))
      ∙ ap (λ k. load m pos k ++ drop k (buf ++ rest)) whole
  | inr long ↦
      let le = ltb→le n (length buf) long in
      let all : c ≡ length buf = omega (arith, e) in
      let behind : c + r - length buf ≡ r = omega (arith, all) in
      ap (λ xs. xs ++ (load m (pos + c) r ++ drop r rest))
        (ap (λ xs. load m pos c ++ xs) (drop-all c buf (omega (arith, all)))
          ∙ append-nil (load m pos c))
      ∙ sym (append_assoc (load m pos c) (load m (pos + c) r) (drop r rest))
      ∙ ap₂ ◌++◌ (sym (load-append m pos c r)) (
          sym (
            drop-append (c + r) buf rest
            ∙ ap₂ ◌++◌ (drop-all (c + r) buf (omega (arith, all))) (ap (λ k. drop k rest) behind)))
]

-- A read that starts on the device fills the segments with its bytes, one behind the other, and
-- leaves what does not fit as it was.
pub serve-read :
    (size : ℕ) (bufs : List (List ℕ)) (p : Progress)
    → p.pos ≤ size
    → size < 2 ^ 63
    → p.nr_bytes < 2 ^ 32
    → Short bufs
    → (out : List (List ℕ)) × (serve size read bufs p
        ≡ some (record {
          bytes = p.bytes;
          pos = p.pos + room size p bufs;
          nr_bytes = (p.nr_bytes + room size p bufs) % 2 ^ 32;
          moved = p.moved ++ out;
        }))
      × (joined out
          ≡ load p.bytes p.pos (room size p bufs) ++ drop (room size p bufs) (joined bufs))
unfolding serve copy_segment joined load
serve-read size [] p h small fits short = (
  [],
  progress_eq refl (omega arith) (omega arith) (sym (append-nil p.moved)),
  ap (λ k. load p.bytes p.pos k ++ drop k []) (let e : 0 ≡ min 0 (size - p.pos) = omega arith in e),
)
serve-read size (buf ∷ bufs) p h small fits short =
    let c = clip-min size p.pos (length buf) h small (omega arith) in
    let b_len = clip size p.pos (length buf) in
    let inside : ltb (length buf) b_len ≡ false = le→ltb _ _ (omega (arith, c)) in
    let buf' = load p.bytes p.pos b_len ++ drop b_len buf in
    let p' : Progress = record {
      bytes = p.bytes;
      pos = p.pos + b_len;
      nr_bytes = (p.nr_bytes + b_len) % 2 ^ 32;
      moved = p.moved ++ buf' ∷ [];
    } in
    let (out, run, bytes) =
      serve-read size bufs p' (omega (arith, c)) small (omega arith) short.1 in
    let total : b_len + room size p' bufs ≡ room size p (buf ∷ bufs) =
      omega (arith, c, length-append buf (joined bufs)) in
    (
      buf' ∷ out,
      rw inside (
          run
          ∙ progress_eq refl (omega (arith, total)) (omega (arith, total))
              (append_assoc p.moved (buf' ∷ []) out)),
      ap (λ xs. buf' ++ xs) bytes
          ∙ load_parts p.bytes p.pos (size - p.pos) b_len (room size p' bufs) buf (joined bufs) c (
              let e : room size p' bufs ≡ min (length (joined bufs)) (size - p.pos - b_len) =
                omega (arith, c) in
              e)
          ∙ ap (λ k. load p.bytes p.pos k ++ drop k (buf ++ joined bufs)) total,
    )

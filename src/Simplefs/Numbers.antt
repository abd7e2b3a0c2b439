-- ===== src/Simplefs/Numbers.antt =====
-- simplefs/: the numbers of the inodes, which a creation counts up and by which they are found.
use lkm.Prelude.{
  ℕ, zero, suc, ◌+◌, ◌<◌, ◌≡◌, ◌≢◌, refl, ap, sym, ◌∙◌, subst, none, inl, inr, List, [], ◌∷◌, ◌++◌,
  length, length-append, arith, ◌==◌, Bool-cases, ==→eq,
}
use lkm.Prelude.Bytes.{Mem, load, load64, from_le}
use lkm.Simplefs.Layout.{Inode, read_inode}
use lkm.Simplefs.State.{Fs, done, Env, inodes_count}
use lkm.Simplefs.Inodes.Table.{slots, table, find_inode, replace_inode}
use lkm.Simplefs.Directories.{Created, create_fs_object}
use lkm.Simplefs.Directories.Creation.{Quiet}
use lkm.Simplefs.Directories.Contract.{CanCreate, CreateEnds, file_inode}
use lkm.Simplefs.Directories.Lookup.{create_fs_object-CreateEnds}
use lkm.Simplefs.Mount.{attach}
use lkm.Simplefs.Mkfs.{format}

unfoldable pub numbers : List Inode → List ℕ
numbers [] = []
numbers (i ∷ is) = i.inode_no ∷ numbers is

unfoldable pub NotIn : ℕ → List ℕ → Type 0
NotIn n [] = Unit {0}
NotIn n (m ∷ ms) = (m ≢ n) × NotIn n ms

unfoldable pub Unique : List ℕ → Type 0
Unique [] = Unit {0}
Unique (n ∷ ns) = NotIn n ns × Unique ns

unfoldable pub AllBelow : ℕ → List ℕ → Type 0
AllBelow b [] = Unit {0}
AllBelow b (n ∷ ns) = (n < b) × AllBelow b ns

-- No two inodes have the same number, and all numbers are below the one that the next inode gets.
abbrev pub Numbered : Fs → Type 0
Numbered s = Unique (numbers (table s)) × AllBelow (inodes_count s + 8) (numbers (table s))

pub AllBelow-NotIn : (b : ℕ) (ns : List ℕ) → AllBelow b ns → NotIn b ns
unfolding AllBelow NotIn
AllBelow-NotIn b [] w = tt
AllBelow-NotIn b (n ∷ ns) (lt, w) = (omega arith, AllBelow-NotIn b ns w)

pub AllBelow-snoc : (b : ℕ) (ns : List ℕ) → AllBelow b ns → AllBelow (suc b) (ns ++ (b ∷ []))
unfolding AllBelow
AllBelow-snoc b [] w = (omega arith, tt)
AllBelow-snoc b (n ∷ ns) (lt, w) = (omega arith, AllBelow-snoc b ns w)

NotIn-snoc : (n b : ℕ) (ns : List ℕ) → NotIn n ns → n < b → NotIn n (ns ++ (b ∷ []))
unfolding NotIn
NotIn-snoc n b [] w lt = (omega arith, tt)
NotIn-snoc n b (m ∷ ms) (ne, w) lt = (ne, NotIn-snoc n b ms w lt)

pub Unique-snoc : (b : ℕ) (ns : List ℕ) → AllBelow b ns → Unique ns → Unique (ns ++ (b ∷ []))
unfolding AllBelow Unique NotIn
Unique-snoc b [] w u = (tt, tt)
Unique-snoc b (n ∷ ns) (lt, w) (x, u) = (NotIn-snoc n b ns x lt, Unique-snoc b ns w u)

pub numbers-append :
    (is : List Inode) (i : Inode) → numbers (is ++ (i ∷ [])) ≡ numbers is ++ (i.inode_no ∷ [])
unfolding numbers
numbers-append [] i = refl
numbers-append (j ∷ js) i = ap (λ ns. j.inode_no ∷ ns) (numbers-append js i)

-- A save changes no number.
pub numbers-replace_inode :
    (i : Inode) (is : List Inode) → numbers (replace_inode i is) ≡ numbers is
unfolding numbers replace_inode
numbers-replace_inode i [] = refl
numbers-replace_inode i (j ∷ js) = elim (Bool-cases (j.inode_no == i.inode_no)) [
  | inl same ↦ rw same (ap (λ n. n ∷ numbers js) (sym (==→eq _ _ same)))
  | inr differ ↦ rw differ (ap (λ ns. j.inode_no ∷ ns) (numbers-replace_inode i js))
]

pub NotIn-find_inode : (n : ℕ) (is : List Inode) → NotIn n (numbers is) → find_inode n is ≡ none
unfolding numbers NotIn find_inode
NotIn-find_inode n [] w = refl
NotIn-find_inode n (i ∷ is) (ne, w) = ground (arith, NotIn-find_inode n is w)

length-numbers-slots : (m : Mem) (p n : ℕ) → length (numbers (slots m p n)) ≡ n
unfolding numbers slots
length-numbers-slots m p zero = refl
length-numbers-slots m p (suc n) = ap suc (length-numbers-slots m (p + 32) n)

-- A list of one more number, which the count follows.
count_more :
    (s s' : Fs) (b : ℕ)
    → numbers (table s') ≡ numbers (table s) ++ (b ∷ [])
    → inodes_count s' ≡ suc (inodes_count s)
count_more s s' b e =
    let p : length (numbers (table s')) ≡ inodes_count s' =
      length-numbers-slots _ 0 (inodes_count s') in
    let q : length (numbers (table s)) ≡ inodes_count s =
      length-numbers-slots _ 0 (inodes_count s) in
    let r = ap length e in let l = length-append (numbers (table s)) (b ∷ []) in omega arith

pub created_numbers :
    (env : Env) (s : Fs) (parent : Inode) (name : List ℕ) (mode k : ℕ) (r : Created) (s' : Fs)
    → CreateEnds env s parent name mode k r s'
    → numbers (table s') ≡ numbers (table s) ++ ((inodes_count s + 8) ∷ [])
created_numbers env s parent name mode k r s' h =
    ap numbers h.stored
    ∙ numbers-replace_inode r.parent (table s ++ (file_inode s mode k ∷ []))
    ∙ numbers-append (table s) (file_inode s mode k)

pub grown-Numbered :
    (s s' : Fs)
    → numbers (table s') ≡ numbers (table s) ++ ((inodes_count s + 8) ∷ [])
    → Numbered s
    → Numbered s'
grown-Numbered s s' e (u, w) =
    let c : suc (inodes_count s + 8) ≡ inodes_count s' + 8 =
      let h = count_more s s' (inodes_count s + 8) e in omega arith in
    (
      subst Unique (sym e) (Unique-snoc _ _ w u),
      subst (λ b. AllBelow b (numbers (table s'))) c
          (subst (AllBelow _) (sym e) (AllBelow-snoc _ _ w)),
    )

-- A new file system is `Numbered`.
pub format-Numbered : (dev : Mem) → Numbered (attach (format dev))
unfolding numbers Unique NotIn AllBelow slots read_inode format from_le load load64
format-Numbered dev = (
  ((omega arith, (omega arith, tt)), ((omega arith, tt), (tt, tt))),
  (omega arith, (omega arith, (omega arith, tt))),
)

-- With no signal and no failure, in a directory and a state of `CanCreate`, a creation keeps the
-- numbers of the inodes different from each other and below the next one, so that the number that the
-- next creation takes is in use by no inode.
pub create_fs_object-Numbered :
    (env : Env) (s : Fs) (parent : Inode) (name : List ℕ) (mode k : ℕ)
    → Quiet env
    → CanCreate s parent name mode k
    → Numbered s
    → (r : Created) × (s' : Fs) × (create_fs_object env parent name mode s ≡ done r s')
      × Numbered s'
      × (find_inode (inodes_count s' + 8) (table s') ≡ none)
create_fs_object-Numbered env s parent name mode k quiet can h =
    let (r, s', run, ends) = create_fs_object-CreateEnds env s parent name mode k quiet can in
    let n = grown-Numbered s s' (created_numbers env s parent name mode k r s' ends) h in
    (r, s', run, n, NotIn-find_inode _ (table s') (AllBelow-NotIn _ _ n.1))

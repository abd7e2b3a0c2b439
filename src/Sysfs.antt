-- ===== src/Sysfs.antt =====
-- sysfs/simple.c: three numbers behind files of sysfs, and the module's init and exit.
pub mod Decimal
pub mod Attributes
mod Tests
use lkm.Prelude.{
  ℕ, zero, suc, ◌+◌, ◌-◌, ◌*◌, ◌/◌, ◌%◌, ◌^◌, Bool, true, false, Option, none, some, List, [], ◌∷◌,
  length, leb, ltb, ◌==◌, ◌&&◌, ◌||◌, if◌then◌else◌,
}
use lkm.Kernel.{Tagged, M, ◌>>=◌, ◌>>◌, pure, branch, take_res, remove_res, give}

-- An `int`, over the native numbers.
pub data ℤ : Type 0 where
  pos negsuc : ℕ → ℤ

-- `sprintf` with "%d", in front of `rest`: `f` digits at most. An int has no more than 10.
unfoldable pub digits : ℕ → ℕ → List ℕ → List ℕ
digits zero n rest = rest
digits (suc f) n rest =
    let more = digits f (n / 10) ((48 + n % 10) ∷ rest) in
    if ltb n 10 then (48 + n) ∷ rest else more

unfoldable pub print_int : ℤ → List ℕ → List ℕ
print_int (pos n) rest = digits 10 n rest
print_int (negsuc n) rest = 45 ∷ digits 10 (suc n) rest

abbrev pub is_digit : ℕ → Bool
is_digit c = leb 48 c && leb c 57

-- The digits at the head of a text, as a word of 64 bits.
unfoldable pub scan_digits : ℕ → List ℕ → ℕ
scan_digits acc [] = acc
scan_digits acc (c ∷ s) =
    let more = scan_digits ((acc * 10 + (c - 48)) % 2 ^ 64) s in if is_digit c then more else acc

-- A word of 64 bits, cut to an int.
unfoldable pub to_int : ℕ → ℤ
to_int v = let w = v % 2 ^ 32 in if ltb w (2 ^ 31) then pos w else negsuc (2 ^ 32 - w - 1)

abbrev pub starts_digit : List ℕ → Bool
starts_digit [] = false
starts_digit (c ∷ s) = is_digit c

-- `isspace`
abbrev pub is_space : ℕ → Bool
is_space c = (leb 9 c && leb c 13) || (c == 32)

-- `sscanf` with "%d": spaces, a sign, digits; nothing is stored without digits.
unfoldable pub scan_int : List ℕ → Option ℤ
scan_int [] = none
scan_int (c ∷ s) =
    let rest = scan_int s in
    if is_space c
    then rest
    else (if c == 45
        then (if starts_digit s then some (to_int ((2 ^ 64 - scan_digits 0 s) % 2 ^ 64)) else none)
        else (if is_digit c then some (to_int (scan_digits 0 (c ∷ s))) else none))

-- The module's variables.
pub record Attrs : Type 0 where
  pub attr1 : ℤ
  pub attr2 : ℤ
  pub attr3 : ℤ

-- `kobj_attribute`s, with their names.
pub data Attribute : Type 0 where
  attr1_attribute attr2_attribute attr3_attribute : Attribute

abbrev pub name_of : Attribute → List ℕ
name_of attr1_attribute = 97 ∷ 116 ∷ 116 ∷ 114 ∷ 49 ∷ []
name_of attr2_attribute = 97 ∷ 116 ∷ 116 ∷ 114 ∷ 50 ∷ []
name_of attr3_attribute = 97 ∷ 116 ∷ 116 ∷ 114 ∷ 51 ∷ []

-- `!strcmp`
unfoldable pub same_text : List ℕ → List ℕ → Bool
same_text [] [] = true
same_text [] (y ∷ t) = false
same_text (x ∷ s) [] = false
same_text (x ∷ s) (y ∷ t) = (x == y) && same_text s t

-- What `sscanf` leaves in the variable.
abbrev pub or_old : Option ℤ → ℤ → ℤ
or_old none old = old
or_old (some v) old = v

-- "attr1: %d\n" and the others, by the digit in the name.
abbrev shown : ℕ → ℤ → List ℕ
shown d v = 97 ∷ 116 ∷ 116 ∷ 114 ∷ d ∷ 58 ∷ 32 ∷ print_int v (10 ∷ [])

unfoldable pub attr1_show : Attrs → List ℕ
attr1_show a = shown 49 a.attr1

unfoldable pub attr1_store : List ℕ → Attrs → Attrs
attr1_store buf a = record a { attr1 = or_old (scan_int buf) a.attr1 }

unfoldable pub attr23_show : Attribute → Attrs → List ℕ
attr23_show attr a =
    if same_text (name_of attr) (name_of attr2_attribute)
    then shown 50 a.attr2
    else shown 51 a.attr3

unfoldable pub attr23_store : Attribute → List ℕ → Attrs → Attrs
attr23_store attr buf a =
    if same_text (name_of attr) (name_of attr2_attribute)
    then record a { attr2 = or_old (scan_int buf) a.attr2 }
    else record a { attr3 = or_old (scan_int buf) a.attr3 }

-- The functions that `__ATTR` gives to each attribute. A store returns `count`.
unfoldable pub show : Attribute → Attrs → List ℕ
show attr1_attribute a = attr1_show a
show attr2_attribute a = attr23_show attr2_attribute a
show attr3_attribute a = attr23_show attr3_attribute a

unfoldable pub store_attr : Attribute → List ℕ → Attrs → Attrs
store_attr attr1_attribute buf a = attr1_store buf a
store_attr attr2_attribute buf a = attr23_store attr2_attribute buf a
store_attr attr3_attribute buf a = attr23_store attr3_attribute buf a

-- The directory with its files.
pub data Kobj : Type 0 where
  kobj group : Kobj

abbrev tag_of : Kobj → ℕ
tag_of kobj = 0
tag_of group = 1

instance abbrev pub kobj_tagged : Tagged Kobj
kobj_tagged = record { tag = tag_of }

pub data Result : Type 0 where
  ok enomem group_error : Result

-- Which calls of the init function fail.
pub record Env : Type 0 where
  pub kobject_create_and_add : Bool
  pub sysfs_create_group : Bool

unfoldable pub simple_init : Env → M Kobj Result
simple_init env = do
  no_kobj ← take_res env.kobject_create_and_add kobj
  branch no_kobj (pure enomem) (do
    ret ← take_res env.sysfs_create_group group
    branch ret (do give kobj; pure group_error) (pure ok))

-- The last `kobject_put` removes the directory with the files in it.
unfoldable pub simple_exit : M Kobj (Unit {0})
simple_exit = do give group; give kobj

-- ===== src/Sysfs/Attributes.antt =====
-- sysfs/simple.c: what is stored in an attribute is shown by it, and by no other.
use lkm.Prelude.{ℕ, ◌≡◌, ◌≢◌, refl, false, some, List, [], ◌∷◌}
use lkm.Sysfs.{
  ℤ, print_int, starts_digit, scan_int, Attrs, Attribute, attr1_attribute, attr2_attribute,
  attr3_attribute, same_text, attr1_show, attr1_store, attr23_show, attr23_store, show, store_attr,
  kobj_tagged,
}
use lkm.Sysfs.Decimal.{Fits, scan_int-print_int}

-- The text of "attrN: %d\n".
abbrev pub line : Attribute → List ℕ → List ℕ
line attr1_attribute rest = 97 ∷ 116 ∷ 116 ∷ 114 ∷ 49 ∷ 58 ∷ 32 ∷ rest
line attr2_attribute rest = 97 ∷ 116 ∷ 116 ∷ 114 ∷ 50 ∷ 58 ∷ 32 ∷ rest
line attr3_attribute rest = 97 ∷ 116 ∷ 116 ∷ 114 ∷ 51 ∷ 58 ∷ 32 ∷ rest

show_stored :
    (attr : Attribute) (a : Attrs) (buf : List ℕ) (v : ℤ)
    → scan_int buf ≡ some v
    → show attr (store_attr attr buf a) ≡ line attr (print_int v (10 ∷ []))
unfolding show store_attr attr1_show attr1_store attr23_show attr23_store same_text
show_stored attr1_attribute a buf v e = rw e refl
show_stored attr2_attribute a buf v e = rw e refl
show_stored attr3_attribute a buf v e = rw e refl

show_others :
    (attr other : Attribute) (a : Attrs) (buf : List ℕ)
    → other ≢ attr
    → show other (store_attr attr buf a) ≡ show other a
unfolding show store_attr attr1_show attr1_store attr23_show attr23_store same_text
show_others attr1_attribute attr1_attribute a buf d = absurd (d refl)
show_others attr1_attribute attr2_attribute a buf d = refl
show_others attr1_attribute attr3_attribute a buf d = refl
show_others attr2_attribute attr1_attribute a buf d = refl
show_others attr2_attribute attr2_attribute a buf d = absurd (d refl)
show_others attr2_attribute attr3_attribute a buf d = refl
show_others attr3_attribute attr1_attribute a buf d = refl
show_others attr3_attribute attr2_attribute a buf d = refl
show_others attr3_attribute attr3_attribute a buf d = absurd (d refl)

-- When the text of an int, with anything but a digit behind it, is stored in an attribute, the
-- attribute shows this int, and each other attribute shows what it showed before.
pub show-store_attr :
    (attr other : Attribute) (a : Attrs) (v : ℤ) (rest : List ℕ)
    → Fits v
    → starts_digit rest ≡ false
    → other ≢ attr
    → (show attr (store_attr attr (print_int v rest) a) ≡ line attr (print_int v (10 ∷ [])))
      × (show other (store_attr attr (print_int v rest) a) ≡ show other a)
show-store_attr attr other a v rest h w d = (
  show_stored attr a (print_int v rest) v (scan_int-print_int v rest h w),
  show_others attr other a (print_int v rest) d,
)

-- ===== src/Sysfs/Tests.antt =====
-- Runs of sysfs/simple.c.
use lkm.Prelude.{◌≡◌, refl, [], ◌∷◌, arith}
use lkm.Sysfs.{ℤ, pos, negsuc, print_int, Attrs, attr2_attribute, attr3_attribute, show, store_attr}
use lkm.Sysfs.Decimal.{Fits}
use lkm.Sysfs.Attributes.{line, show-store_attr}

abbrev fresh : Attrs
fresh = record { attr1 = pos 0; attr2 = pos 0; attr3 = pos 0 }

-- "-1234\n"
abbrev number : ℤ
number = negsuc 1233

show-store_attr_example :
    (show attr2_attribute (store_attr attr2_attribute (print_int number (10 ∷ [])) fresh)
      ≡ line attr2_attribute (print_int number (10 ∷ [])))
    × (show attr3_attribute (store_attr attr2_attribute (print_int number (10 ∷ [])) fresh)
        ≡ show attr3_attribute fresh)
show-store_attr_example =
    show-store_attr attr2_attribute attr3_attribute fresh number (10 ∷ [])
      (unfold Fits in omega arith) refl (λ e. cc e)

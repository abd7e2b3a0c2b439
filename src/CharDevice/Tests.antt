-- ===== src/CharDevice/Tests.antt =====
-- Runs of char_device/version2/simple.c.
use lkm.Prelude.{ℕ, Bool, refl, true, false, arith}
use lkm.CharDevice.Hello.{ReadingEnds, my_read-ReadingEnds}
use lkm.CharDevice.{Env}

abbrev granted : Env
granted = record {
  alloc_chrdev_region = false;
  cdev_add = false;
  class_create = false;
  device_create = false;
}

abbrev no_class : Env
no_class = record granted { class_create = true }

abbrev writable : ℕ → Bool
writable n = false

-- A read of fewer bytes than the text has.
reads_part : ReadingEnds writable 0 8
reads_part = my_read-ReadingEnds writable 0 8 (omega arith) (omega arith) (λ n. refl)

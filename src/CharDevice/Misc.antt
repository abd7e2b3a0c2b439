-- ===== src/CharDevice/Misc.antt =====
-- misc_device/simple.c: a device whose operations print and return constants.
use lkm.Prelude.{ℕ, ◌≡◌, refl, ◌⊎◌, inl, inr, false, [], ◌∷◌, ◌==◌, ==→eq, Bool-cases}
use lkm.Kernel.{Tagged, done, M, ◌>>=◌, pure, branch, take_res, remove_res, give}

-- What the operations print.
pub data Print : Type 0 where
  opened closed : Print
  command_num read_bytes write_bytes : ℕ → Print

abbrev pub my_ioctl : ℕ → Print × ℕ
my_ioctl command = (command_num command, 0)

abbrev pub my_open : Print × ℕ
my_open = (opened, 0)

abbrev pub my_close : Print × ℕ
my_close = (closed, 0)

-- A read gives nothing, which is the end of the file; a write takes all.
unfoldable pub my_read : ℕ → Print × ℕ
my_read len = (read_bytes len, 0)

unfoldable pub my_write : ℕ → Print × ℕ
my_write len = (write_bytes len, len)

pub data Res : Type 0 where
  my_miscdev : Res

instance abbrev pub res_tagged : Tagged Res
res_tagged = record { tag = λ r. 0 }

-- The error of `misc_register`, 0 for none, is returned.
unfoldable pub my_init : ℕ → M Res ℕ
my_init misc_register =
    branch (misc_register == 0) (do failed ← take_res false my_miscdev; pure 0) (pure misc_register)

unfoldable pub my_exit : M Res (Unit {0})
my_exit = give my_miscdev

-- The device is there exactly when 0 is returned, and the exit function takes it away.
pub my_exit-my_init :
    (err : ℕ)
    → ((err ≡ 0)
        × (my_init err [] ≡ done 0 (my_miscdev ∷ []))
        × (my_exit (my_miscdev ∷ []) ≡ done tt []))
      ⊎ (my_init err [] ≡ done err [])
unfolding my_init my_exit remove_res
my_exit-my_init err = elim (Bool-cases (err == 0)) [
  | inl none_ ↦ inl (==→eq err 0 none_, rw none_ refl, refl)
  | inr some_ ↦ inr (rw some_ refl)
]

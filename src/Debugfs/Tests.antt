-- ===== src/Debugfs/Tests.antt =====
-- Runs of debugfs/simple.c.
use lkm.Prelude.{ℕ, ◌+◌, ◌%◌, ◌^◌, ◌≡◌, List, [], ◌∷◌, arith}
use lkm.Debugfs.{write_all, total, write_all-eq-total}

abbrev large : List ℕ
large = 0x1ffffffff ∷ 3 ∷ []

-- The sum wraps.
write_all-eq-total_example : write_all large 5 ≡ (5 + total large) % 2 ^ 32
write_all-eq-total_example = write_all-eq-total large 5 (omega arith)

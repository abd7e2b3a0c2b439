-- ===== src/IoctlMmap/Tests.antt =====
-- Runs of ioctl_mmap/simple.c.
use lkm.Prelude.{true, false, ◌≡◌, refl, some, [], ◌∷◌}
use lkm.IoctlMmap.{MmapDev, mmap_vma_open, mmap_vma_close, sigbus, mmap_vm_fault}
use lkm.IoctlMmap.Setup.{Env}
use lkm.IoctlMmap.Program.{main, main_prints}

abbrev blank : MmapDev
blank = record { page_data = λ a. 0; f_pos = 2; counter = 0 }

opened_closed : mmap_vma_close (mmap_vma_open blank) ≡ blank
unfolding mmap_vma_close mmap_vma_open
opened_closed = refl

-- The second page of a mapping is not there.
second_page : mmap_vm_fault 12288 8192 ≡ sigbus
unfolding mmap_vm_fault
second_page = refl

-- The device's numbers and its node are refused, which the init function does not notice.
abbrev no_numbers : Env
no_numbers = record {
  cdev_alloc = false;
  alloc_chrdev_region = true;
  cdev_add = false;
  class_create = false;
  device_create = true;
  vmalloc = false;
}

prints_run :
    main blank
    ≡ some
        (0 ∷ 1 ∷ 2 ∷ 3 ∷ 4 ∷ 5 ∷ 6 ∷ 7 ∷ 8 ∷ 9 ∷ [], 0 ∷ 1 ∷ 2 ∷ 3 ∷ 4 ∷ 5 ∷ 6 ∷ 207 ∷ 8 ∷ 9 ∷ [])
prints_run = main_prints blank

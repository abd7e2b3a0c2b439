-- ===== src/Codec/Tests.antt =====
-- Runs of pci/unknown/simple.c.
use lkm.Prelude.{true, arith, refl, false, ◌==◌, List, [], ◌∷◌}
use lkm.Codec.{Res, enabled, vectors, irq, Env}
use lkm.Codec.Setup.{ModEnv}
use lkm.Codec.Setup.Ends.{ModInitEnds, mod_init-ModInitEnds}

abbrev granted : Env
granted = record {
  pci_enable_device = false;
  pci_request_region = λ i. false;
  pci_alloc_irq_vectors = false;
  request_irq = λ i. false;
  pci_iomap = λ i. false;
}

-- BAR 2 is not mapped.
abbrev no_bar : Env
no_bar = record granted { pci_iomap = λ i. i == 2 }

abbrev left : List Res
left = irq 1 ∷ irq 0 ∷ vectors ∷ enabled ∷ []

-- The driver is refused.
abbrev no_driver : ModEnv
no_driver = record {
  major = 240;
  alloc_chrdev_region = false;
  cdev_alloc = false;
  cdev_add = false;
  class_create = false;
  device_create = λ i. false;
  pci_register_driver = true;
}

mod_init-ModInitEnds_example : ModInitEnds no_driver
mod_init-ModInitEnds_example =
    mod_init-ModInitEnds no_driver (omega arith) (omega arith) (λ i. refl)

-- ===== src/Pci/Tests.antt =====
-- Runs of pci/my_pci_device.c and pci/driver_pci.c.
use lkm.Prelude.{◌+◌, ◌≡◌, ◌≢◌, refl, true, false, [], ◌∷◌, ◌⊎◌}
use lkm.Prelude.Bytes.{load, store}
use lkm.Kernel.{done}
use lkm.Pci.Device.{
  Qemu, HelloDev, random_bytes, throw_dma, hello_iowrite, hello_mmiowrite, io_write, mmio_write,
}
use lkm.Pci.Driver.{
  info, enabled, regions, mapping, irq, Env, Status, ok, probe_accesses, hello_tic_probe,
}
use lkm.Pci.Driver.Probe.{hello_tic_probe_all_or_nothing}

abbrev qemu : Qemu
qemu = record { rand = λ n. 300 + n; cpu_physical_memory_write = store }

-- A device with a buffer of two bytes.
abbrev small : HelloDev
small = record {
  dma_size = 2;
  dma_buf = 0 ∷ 0 ∷ [];
  threw_irq = 0;
  id = 4919;
  irq_level = false;
  irq_count = 0;
  ram = λ a. 0;
  rand_count = 0;
}

-- Two bytes go to address 1.
dma : load (probe_accesses qemu small).ram 0 4 ≡ 0 ∷ 44 ∷ 45 ∷ 0 ∷ []
unfolding probe_accesses io_write mmio_write hello_mmiowrite hello_iowrite throw_dma random_bytes
    load store
dma = refl

-- The write at 4 takes the line down while the interrupt is still thrown.
-- The interrupt is refused.
abbrev refused : Env
refused = record {
  kzalloc = false;
  pci_enable_device = false;
  pci_request_regions = false;
  pci_ioremap_bar = false;
  pci_read_config_byte = false;
  devm_request_irq = true;
}

abbrev granted : Env
granted = record refused { devm_request_irq = false }

hello_tic_probe_all_or_nothing_example :
    (hello_tic_probe qemu refused small []
      ≡ done (ok, probe_accesses qemu small) (irq ∷ mapping ∷ regions ∷ enabled ∷ info ∷ []))
    ⊎ ((e : Status) × (e ≢ ok) × (hello_tic_probe qemu refused small [] ≡ done (e, small) []))
hello_tic_probe_all_or_nothing_example = hello_tic_probe_all_or_nothing qemu refused small []

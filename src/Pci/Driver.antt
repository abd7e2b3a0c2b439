-- ===== src/Pci/Driver.antt =====
-- pci/driver_pci.c: probe, remove, and the interrupt handler, with the device of
-- pci/my_pci_device.c behind the two BARs.
pub mod Probe
use lkm.Prelude.{ℕ, ◌+◌, ◌%◌, ◌^◌, Bool, true, false, ◌==◌, if◌then◌else◌}
use lkm.Kernel.{Tagged, M, ◌>>=◌, ◌>>◌, pure, branch, take_res, remove_res, give}
use lkm.Pci.Device.{Qemu, HelloDev, io_write, io_read, mmio_write, mmio_read}

pub data Res : Type 0 where
  info enabled regions mapping irq : Res

abbrev tag_of : Res → ℕ
tag_of info = 0
tag_of enabled = 1
tag_of regions = 2
tag_of mapping = 3
tag_of irq = 4

instance abbrev pub res_tagged : Tagged Res
res_tagged = record { tag = tag_of }

-- Which calls of the probe function fail.
pub record Env : Type 0 where
  pub kzalloc : Bool
  pub pci_enable_device : Bool
  pub pci_request_regions : Bool
  pub pci_ioremap_bar : Bool
  pub pci_read_config_byte : Bool
  pub devm_request_irq : Bool

pub data Status : Type 0 where
  ok enomem enodev : Status

pub data IrqReturn : Type 0 where
  irq_none irq_handled : IrqReturn

-- `inl` and `outl` are accesses of four bytes at the start of BAR 0.
unfoldable pub hello_tic_handler : Qemu → HelloDev → IrqReturn × HelloDev
hello_tic_handler q d =
    if io_read 4 d 0 == 0 then (irq_none, d) else (irq_handled, io_write q 4 d 0 0)

-- The accesses of the probe function, in their order; the values read are only printed.
unfoldable pub probe_accesses : Qemu → HelloDev → HelloDev
probe_accesses q d =
    let d1 = mmio_write 4 d 4 2 in let d2 = io_write q 1 d1 0 1 in io_write q 4 d2 4 1

-- The labels from `out_unrequest` on, each with those below it.
unfoldable pub out_free : HelloDev → M Res (Status × HelloDev)
out_free d = do give info; pure (enodev, d)

unfoldable pub out_disable : HelloDev → M Res (Status × HelloDev)
out_disable d = do give enabled; out_free d

unfoldable pub out_unrequest : HelloDev → M Res (Status × HelloDev)
out_unrequest d = do give regions; out_disable d

unfoldable pub out_iounmap : HelloDev → M Res (Status × HelloDev)
out_iounmap d = do give mapping; out_unrequest d

unfoldable pub hello_tic_probe : Qemu → Env → HelloDev → M Res (Status × HelloDev)
hello_tic_probe q env d = do
  no_info ← take_res env.kzalloc info
  branch no_info (pure (enomem, d)) (do
    not_enabled ← take_res env.pci_enable_device enabled
    branch not_enabled (out_free d) (do
      no_regions ← take_res env.pci_request_regions regions
      branch no_regions (out_disable d) (do
        no_mapping ← take_res env.pci_ioremap_bar mapping
        branch no_mapping (out_unrequest d) (
            branch env.pci_read_config_byte (out_iounmap d) (do
              no_irq ← take_res env.devm_request_irq irq
              branch no_irq (out_iounmap d) (pure (ok, probe_accesses q d)))))))

unfoldable pub hello_tic_remove : M Res (Unit {0})
hello_tic_remove = do give regions; give enabled; give mapping; give info

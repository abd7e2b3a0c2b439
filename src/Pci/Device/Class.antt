-- ===== src/Pci/Device/Class.antt =====
-- pci/my_pci_device.c and pci/driver_pci.c: how the device is set up and announces itself, and which
-- devices the driver takes.
use lkm.Prelude.{ℕ, ◌≡◌, refl, Bool, true, false, ◌&&◌, ◌||◌, List, [], ◌∷◌, ◌==◌}
use lkm.Kernel.{Tagged, done, M, ◌>>=◌, pure, take_res, remove_res, give}
use lkm.Pci.Device.{HelloDev, pci_hellodev_init}

-- `1<<4` and `1<<6`
abbrev pub hello_io_size : ℕ
hello_io_size = 16

abbrev pub hello_mmio_size : ℕ
hello_mmio_size = 64

pub data Space : Type 0 where
  space_io space_memory : Space

pub record Bar : Type 0 where
  pub number : ℕ
  pub space : Space
  pub size : ℕ

-- The regions of `hello_io_setup`, as `pci_hellodev_init` registers them.
abbrev pub bars : List Bar
bars =
    record { number = 0; space = space_io; size = hello_io_size }
    ∷ record { number = 1; space = space_memory; size = hello_mmio_size }
    ∷ []

-- What `pci_hellodev_class_init` sets of the configuration space.
pub record DeviceClass : Type 0 where
  pub vendor_id : ℕ
  pub device_id : ℕ
  pub revision : ℕ

abbrev pub pci_hellodev_class_init : DeviceClass
pci_hellodev_class_init = record { vendor_id = 0x1337; device_id = 0x0001; revision = 0 }

-- `PCI_DEVICE(vendor, device)`; the entry of zeros ends the table.
pub record PciDeviceId : Type 0 where
  pub vendor : ℕ
  pub device : ℕ

abbrev pub pci_tic_vendor : ℕ
pci_tic_vendor = 0x1337

abbrev pub pci_tic_device : ℕ
pci_tic_device = 0x0001

abbrev pub hello_tic_ids : List PciDeviceId
hello_tic_ids = record { vendor = pci_tic_vendor; device = pci_tic_device } ∷ []

-- Does the kernel hand the device to a driver with this table?
unfoldable pub pci_match : List PciDeviceId → DeviceClass → Bool
pci_match [] k = false
pci_match (i ∷ ids) k = (i.vendor == k.vendor_id && i.device == k.device_id) || pci_match ids k

-- The buffer for the transfers.
pub data DevRes : Type 0 where
  dma_buf : DevRes

instance abbrev pub dev_tagged : Tagged DevRes
dev_tagged = record { tag = λ r. 0 }

-- `malloc` is not tested; a NULL is written through at the first transfer.
unfoldable pub realize : Bool → List ℕ → HelloDev → M DevRes HelloDev
realize malloc buf d = do failed ← take_res malloc dma_buf; pure (pci_hellodev_init buf d)

unfoldable pub pci_hellodev_uninit : M DevRes (Unit {0})
pci_hellodev_uninit = give dma_buf

-- The reset prints, and leaves the device as it is, its interrupt too.
unfoldable pub qdev_pci_hellodev_reset : HelloDev → HelloDev
qdev_pci_hellodev_reset d = d

-- The driver's table takes the device.
pub hello_tic_ids_match : pci_match hello_tic_ids pci_hellodev_class_init ≡ true
unfolding pci_match
hello_tic_ids_match = refl

-- The buffer that was taken is given back.
pub pci_hellodev_uninit-realize :
    (buf : List ℕ) (d : HelloDev)
    → ((do x ← realize false buf d; pci_hellodev_uninit) []) ≡ done tt []
unfolding realize pci_hellodev_uninit remove_res
pci_hellodev_uninit-realize buf d = refl

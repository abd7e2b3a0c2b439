-- ===== src/Pci.antt =====
-- pci: a device for QEMU, pci/my_pci_device.c, and the driver for it, pci/driver_pci.c.
pub mod Device
pub mod Driver
mod Tests

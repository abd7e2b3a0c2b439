-- ===== src/Pci/Device.antt =====
-- pci/my_pci_device.c: the device's registers, its interrupt and its DMA.

pub mod Registers
pub mod Class
use lkm.Prelude.{
  ℕ, zero, suc, ◌+◌, ◌-◌, ◌*◌, ◌%◌, ◌^◌, Bool, true, false, not, ◌&&◌, List, [], ◌∷◌, ◌==◌, ltb,
  leb, if◌then◌else◌,
}
use lkm.Prelude.Bytes.{Mem}

-- What the device takes from QEMU: the values of `rand`, in their order, and
-- `cpu_physical_memory_write` on the guest's memory.
pub record Qemu : Type 0 where
  pub rand : ℕ → ℕ
  pub cpu_physical_memory_write : Mem → ℕ → List ℕ → Mem

-- `PCIHelloDevState` with what the device acts on: the level of the interrupt line, how often it
-- was asserted, the guest's memory, and how many values `rand` has given. `id` is the 32-bit word,
-- and `dma_buf` has `dma_size` bytes.
pub record HelloDev : Type 0 where
  pub dma_size : ℕ
  pub dma_buf : List ℕ
  pub threw_irq : ℕ
  pub id : ℕ
  pub irq_level : Bool
  pub irq_count : ℕ
  pub ram : Mem
  pub rand_count : ℕ

abbrev pci_irq_assert : HelloDev → HelloDev
pci_irq_assert d = record d { irq_level = true; irq_count = 1 + d.irq_count }

abbrev pci_irq_deassert : HelloDev → HelloDev
pci_irq_deassert d = record d { irq_level = false }

-- The buffer after the loop of `rand`.
unfoldable pub random_bytes : Qemu → ℕ → ℕ → List ℕ
random_bytes q n zero = []
random_bytes q n (suc k) = q.rand n % 256 ∷ random_bytes q (suc n) k

-- The write at 4: the buffer is filled and copied to the guest's address.
unfoldable pub throw_dma : Qemu → HelloDev → ℕ → HelloDev
throw_dma q d value =
    let buf = random_bytes q d.rand_count d.dma_size in
    record d {
      dma_buf = buf;
      rand_count = d.rand_count + d.dma_size;
      ram = q.cpu_physical_memory_write d.ram value buf;
    }

unfoldable pub hello_iowrite : Qemu → HelloDev → ℕ → ℕ → HelloDev
hello_iowrite q d addr value =
    let d1 = pci_irq_deassert (pci_irq_assert d) in
    if addr == 0
    then if value == 0
      then record (pci_irq_deassert d1) { threw_irq = 0 }
      else pci_irq_assert (record d1 { threw_irq = 1 })
    else if addr == 4
    then throw_dma q d1 value
    else d1

-- An `int` returned as `uint64_t`
abbrev pub sign_extend : ℕ → ℕ
sign_extend x = if ltb x (2 ^ 31) then x else x + (2 ^ 64 - 2 ^ 32)

unfoldable pub hello_ioread : HelloDev → ℕ → ℕ
hello_ioread d addr = if addr == 0 then sign_extend d.threw_irq else 0

unfoldable pub hello_mmioread : HelloDev → ℕ → ℕ
hello_mmioread d addr =
    if addr == 0 then sign_extend d.threw_irq else if addr == 4 then sign_extend d.id else 0

unfoldable pub hello_mmiowrite : HelloDev → ℕ → ℕ → HelloDev
hello_mmiowrite d addr value = if addr == 4 then record d { id = value % 2 ^ 32 } else d

-- The `.valid` sizes of both regions. An access of another size is dropped.
abbrev pub valid_size : ℕ → Bool
valid_size size = leb 4 size && leb size 4

-- `hello_io_ops` and `hello_mmio_ops`, for accesses of `size` bytes
unfoldable pub io_write : Qemu → ℕ → HelloDev → ℕ → ℕ → HelloDev
io_write q size d addr value = if valid_size size then hello_iowrite q d addr value else d

unfoldable pub io_read : ℕ → HelloDev → ℕ → ℕ
io_read size d addr = if valid_size size then hello_ioread d addr % 2 ^ 32 else 0

unfoldable pub mmio_write : ℕ → HelloDev → ℕ → ℕ → HelloDev
mmio_write size d addr value = if valid_size size then hello_mmiowrite d addr value else d

unfoldable pub mmio_read : ℕ → HelloDev → ℕ → ℕ
mmio_read size d addr = if valid_size size then hello_mmioread d addr % 2 ^ 32 else 0

-- The state that `pci_hellodev_init` sets; the buffer from `malloc` is given.
unfoldable pub pci_hellodev_init : List ℕ → HelloDev → HelloDev
pci_hellodev_init buf d = record d { dma_size = 131071; dma_buf = buf; id = 4919; threw_irq = 0 }

-- ===== src/Pci/Device/Registers.antt =====
-- pci/my_pci_device.c: what the guest reads back, and when the interrupt line is up.
use lkm.Prelude.{
  ℕ, ◌^◌, ◌<◌, ◌≡◌, ◌≢◌, refl, ap, ◌∙◌, Bool, false, not, List, [], ◌∷◌, ◌==◌, if◌then◌else◌, arith,
}
use lkm.Pci.Device.{
  Qemu, HelloDev, throw_dma, hello_iowrite, hello_ioread, hello_mmioread, hello_mmiowrite, io_read,
  mmio_write, mmio_read,
}

-- Writes of the guest to the port region, an offset and a value each.
unfoldable pub write_all : Qemu → HelloDev → List (ℕ × ℕ) → HelloDev
write_all q d [] = d
write_all q d (w ∷ ws) = write_all q (hello_iowrite q d w.0 w.1) ws

-- Whether the last write at 0 has thrown an interrupt; `t` stands when there is none.
unfoldable pub thrown : Bool → List (ℕ × ℕ) → Bool
thrown t [] = t
thrown t (w ∷ ws) = thrown (if w.0 == 0 then not (w.1 == 0) else t) ws

-- Whether the line is up: the last write of all has thrown an interrupt.
unfoldable pub raised : Bool → List (ℕ × ℕ) → Bool
raised t [] = t
raised t (w ∷ ws) = raised (if w.0 == 0 then not (w.1 == 0) else false) ws

abbrev pub flag : Bool → ℕ
flag t = if t then 1 else 0

iowrite-thrown :
    (q : Qemu) (d : HelloDev) (addr value : ℕ) (t : Bool)
    → d.threw_irq ≡ flag t
    → (hello_iowrite q d addr value).threw_irq ≡ flag (if addr == 0 then not (value == 0) else t)
unfolding hello_iowrite throw_dma
iowrite-thrown q d addr value t h = ground arith

iowrite-raised :
    (q : Qemu) (d : HelloDev) (addr value : ℕ)
    → (hello_iowrite q d addr value).irq_level ≡ (if addr == 0 then not (value == 0) else false)
unfolding hello_iowrite throw_dma
iowrite-raised q d addr value = ground arith

-- After any writes of the guest, a read at 0 of either region tells whether the last write at 0
-- has thrown an interrupt; and the line is up only if that write was the last of all.
pub write_all_irq :
    (q : Qemu) (d : HelloDev) (ws : List (ℕ × ℕ)) (t : Bool)
    → d.threw_irq ≡ flag t
    → let e = write_all q d ws in
      (io_read 4 e 0 ≡ flag (thrown t ws))
      × (mmio_read 4 e 0 ≡ flag (thrown t ws))
      × (e.irq_level ≡ raised d.irq_level ws)
unfolding write_all thrown raised io_read mmio_read hello_ioread hello_mmioread
write_all_irq q d [] t h = (ground arith, ground arith, refl)
write_all_irq q d (w ∷ ws) t h =
    let r = write_all_irq q (hello_iowrite q d w.0 w.1) ws _ (iowrite-thrown q d w.0 w.1 t h) in
    (r.0, r.1, r.2 ∙ ap (λ b. raised b ws) (iowrite-raised q d w.0 w.1))

-- A 32-bit word written at 4 of the MMIO region is what a read at 4 gives, the reads at other
-- offsets give what they gave, and an access that is not of four bytes changes nothing.
pub mmio_read-mmio_write :
    (size value other addr : ℕ) (d : HelloDev)
    → value < 2 ^ 32
    → other ≢ 4
    → size ≢ 4
    → (mmio_read 4 (mmio_write 4 d 4 value) 4 ≡ value)
      × (mmio_read 4 (mmio_write 4 d 4 value) other ≡ mmio_read 4 d other)
      × (mmio_write size d addr value ≡ d)
unfolding mmio_read mmio_write hello_mmioread hello_mmiowrite
mmio_read-mmio_write size value other addr d b n k = (ground arith, ground arith, ground arith)

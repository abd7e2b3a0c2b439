-- ===== src/Pci/Driver/Probe.antt =====
-- pci/driver_pci.c: what probe and remove hold, and what they do to the device and the machine.
use lkm.Prelude.{◌≡◌, ◌≢◌, refl, Bool, true, false, List, ◌∷◌, ◌⊎◌, arith, if◌then◌else◌}
use lkm.Kernel.{done, remove_res}
use lkm.Pci.Device.{
  Qemu, HelloDev, random_bytes, throw_dma, hello_iowrite, hello_ioread, hello_mmioread,
  hello_mmiowrite, io_write, io_read, mmio_write, mmio_read,
}
use lkm.Pci.Device.Registers.{flag}
use lkm.Pci.Driver.{
  Res, info, enabled, regions, mapping, irq, res_tagged, Env, Status, ok, irq_none, irq_handled,
  hello_tic_handler, probe_accesses, out_free, out_disable, out_unrequest, out_iounmap,
  hello_tic_probe, hello_tic_remove,
}

-- The probe function ends with everything taken and the device's registers set, or with an error,
-- with what was held before and the device untouched.
pub hello_tic_probe_all_or_nothing :
    (q : Qemu) (env : Env) (d : HelloDev) (l : List Res)
    → (hello_tic_probe q env d l
        ≡ done (ok, probe_accesses q d) (irq ∷ mapping ∷ regions ∷ enabled ∷ info ∷ l))
      ⊎ ((e : Status) × (e ≢ ok) × (hello_tic_probe q env d l ≡ done (e, d) l))
unfolding hello_tic_probe out_free out_disable out_unrequest out_iounmap remove_res
hello_tic_probe_all_or_nothing q env d l = ground arith

-- After a probe that went through, the remove function gives everything back but the interrupt,
-- which is still requested, with the freed `info` as its argument, when the function returns.
pub hello_tic_remove_leaves_irq :
    (q : Qemu) (env : Env) (d d' : HelloDev) (l l' : List Res)
    → hello_tic_probe q env d l ≡ done (ok, d') l'
    → hello_tic_remove l' ≡ done tt (irq ∷ l)
unfolding hello_tic_probe hello_tic_remove out_free out_disable out_unrequest out_iounmap remove_res
hello_tic_remove_leaves_irq q env d d' l l' e = ground arith

-- The accesses of the probe function set the id to 2, leave the interrupt status as it was, since
-- the device drops the access of one byte, and have `dma_size` random bytes written over the
-- guest's memory at address 1.
pub probe_accesses_lem :
    (q : Qemu) (d : HelloDev)
    → let d' = probe_accesses q d in
      (mmio_read 4 d' 4 ≡ 2)
      × (d'.threw_irq ≡ d.threw_irq)
      × (d'.irq_level ≡ false)
      × (d'.ram ≡ q.cpu_physical_memory_write d.ram 1 (random_bytes q d.rand_count d.dma_size))
unfolding probe_accesses io_write mmio_write mmio_read hello_mmiowrite hello_mmioread hello_iowrite
    throw_dma
probe_accesses_lem q d = (refl, refl, refl, refl)

-- With the status at `flag t`, the handler answers IRQ_HANDLED if `t` and takes the interrupt back
-- with the line down, or else answers IRQ_NONE and changes nothing; a second call always answers
-- IRQ_NONE and changes nothing.
pub hello_tic_handler_once :
    (q : Qemu) (d : HelloDev) (t : Bool)
    → d.threw_irq ≡ flag t
    → let r = hello_tic_handler q d in
      (r.0 ≡ (if t then irq_handled else irq_none))
      × (r.1.irq_level ≡ (if t then false else d.irq_level))
      × (hello_tic_handler q r.1 ≡ (irq_none, r.1))
unfolding hello_tic_handler io_read io_write hello_ioread hello_iowrite
hello_tic_handler_once q d true h = (ground arith, ground arith, ground arith)
hello_tic_handler_once q d false h = (ground arith, ground arith, ground arith)

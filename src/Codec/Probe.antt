-- ===== src/Codec/Probe.antt =====
-- pci/unknown/simple.c: what a probe leaves held.
use lkm.Prelude.{ℕ, ◌≡◌, true, false, List, ◌∷◌, ◌⊎◌, arith}
use lkm.Kernel.{done, remove_res}
use lkm.Codec.{
  Res, enabled, vectors, irq, res_tagged, Env, request_regions, map_bars, cleanup, device_init,
  release_regions, unmap_bars, device_deinit,
}

-- After a probe that returned 0 with its vectors allocated, the remove function gives back all that
-- it took, and nothing else.
pub device_deinit-device_init :
    (env : Env) (l l' : List Res)
    → env.pci_alloc_irq_vectors ≡ false
    → device_init env l ≡ done true l'
    → device_deinit l' ≡ done tt l
unfolding device_init device_deinit request_regions map_bars cleanup release_regions unmap_bars
    remove_res
device_deinit-device_init env l l' v e = ground arith

-- With the device enabled, its regions granted and its vectors allocated, a probe that fails gives back the regions and
-- the mappings, but neither the interrupts that it has requested, nor the vectors, nor the device.
pub device_init_error :
    (env : Env) (l l' : List Res)
    → env.pci_enable_device ≡ false
    → ((i : ℕ) → env.pci_request_region i ≡ false)
    → env.pci_alloc_irq_vectors ≡ false
    → device_init env l ≡ done false l'
    → (l' ≡ vectors ∷ enabled ∷ l)
      ⊎ ((l' ≡ irq 0 ∷ vectors ∷ enabled ∷ l) ⊎ (l' ≡ irq 1 ∷ irq 0 ∷ vectors ∷ enabled ∷ l))
unfolding device_init request_regions map_bars cleanup remove_res
device_init_error env l l' h r v e = ground (arith, r 0, r 1, r 2, r 3)

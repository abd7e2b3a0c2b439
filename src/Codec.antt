-- ===== src/Codec.antt =====
-- pci/unknown/simple.c: the probe and remove functions of the codec driver.
pub mod Probe
pub mod Setup
mod Tests
use lkm.Prelude.{ℕ, zero, suc, ◌+◌, Bool, true, false, List, [], ◌∷◌, ◌==◌, ltb, if◌then◌else◌}
use lkm.Kernel.{Tagged, M, ◌>>=◌, ◌>>◌, pure, branch, take_res, remove_res, give}

-- `region i` and `bar i` are of BAR `i`; `irq i` is of `msi_i`.
pub data Res : Type 0 where
  enabled vectors : Res
  region irq bar : ℕ → Res

abbrev tag_of : Res → ℕ
tag_of enabled = 0
tag_of vectors = 1
tag_of (irq i) = 10 + i
tag_of (region i) = 20 + i
tag_of (bar i) = 30 + i

instance abbrev pub res_tagged : Tagged Res
res_tagged = record { tag = tag_of }

-- Which calls of the probe function fail.
pub record Env : Type 0 where
  pub pci_enable_device : Bool
  pub pci_request_region : ℕ → Bool
  pub pci_alloc_irq_vectors : Bool
  pub request_irq : ℕ → Bool
  pub pci_iomap : ℕ → Bool

abbrev pub pcie_bars : ℕ
pcie_bars = 4

-- The loop over the BARs from `i`, with `n` left; whether a region was refused.
unfoldable pub request_regions : Env → ℕ → ℕ → M Res Bool
request_regions env i zero = pure false
request_regions env i (suc n) = do
  refused ← take_res (env.pci_request_region i) (region i)
  branch refused (pure true) (request_regions env (suc i) n)

-- The loop that maps the BARs from `i`, with `n` left; the value is how many are mapped when it ends.
-- `bars[]` is as a probe of the first device finds it, all NULL.
unfoldable pub map_bars : Env → ℕ → ℕ → M Res ℕ
map_bars env i zero = pure i
map_bars env i (suc n) = do
  refused ← take_res (env.pci_iomap i) (bar i)
  branch refused (pure i) (map_bars env (suc i) n)

-- The loop at `cleanup` from BAR `i`, with `n` left, when the first `mapped` are mapped.
unfoldable pub cleanup : ℕ → ℕ → ℕ → M Res (Unit {0})
cleanup mapped i zero = pure tt
cleanup mapped i (suc n) = do
  branch (ltb i mapped) (give (bar i)) (pure tt)
  give (region i)
  cleanup mapped (suc i) n

-- `false` is -EIO.
unfoldable pub device_init : Env → M Res Bool
device_init env = do
  disabled ← take_res env.pci_enable_device enabled
  branch disabled (pure false) (do
    refused ← request_regions env 0 pcie_bars
    branch refused (pure false) (do
      ignored ← take_res env.pci_alloc_irq_vectors vectors
      no_irq_0 ← take_res (env.request_irq 0) (irq 0)
      branch no_irq_0 (do cleanup 0 0 pcie_bars; pure false)
          (do
            no_irq_1 ← take_res (env.request_irq 1) (irq 1)
            branch no_irq_1 (do cleanup 0 0 pcie_bars; pure false)
                (do
                  mapped ← map_bars env 0 pcie_bars
                  branch (mapped == pcie_bars) (pure true)
                      (do cleanup mapped 0 pcie_bars; pure false)))))

unfoldable pub release_regions : ℕ → ℕ → M Res (Unit {0})
release_regions i zero = pure tt
release_regions i (suc n) = do give (region i); release_regions (suc i) n

unfoldable pub unmap_bars : ℕ → ℕ → M Res (Unit {0})
unmap_bars i zero = pure tt
unmap_bars i (suc n) = do give (bar i); unmap_bars (suc i) n

-- With both interrupts and every BAR there, as after a probe that returned 0.
unfoldable pub device_deinit : M Res (Unit {0})
device_deinit = do
  give (irq 0)
  give (irq 1)
  give vectors
  release_regions 0 pcie_bars
  unmap_bars 0 pcie_bars
  give enabled

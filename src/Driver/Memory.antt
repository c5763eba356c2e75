-- ===== src/Driver/Memory.antt =====
-- The list of mapped memory in project-spec/meta-user/recipes-modules/axi-tangxi/axitangxi_dev.c:
-- axitangxi_mmap, axitangxi_vma_close and axitangxi_uservirt_to_phys. What the kernel's allocators
-- answer is an argument.
use soc.Common.{
  ℕ, ◌%◌, ◌^◌, ◌≡◌, ◌≢◌, refl, List, [], ◌∷◌, Option, none, some, false, ◌==◌, ==-self,
  if◌then◌else◌, arith,
}
use soc.Common.Effects.{Call, returns, faults, ℤ, pos, negsuc}

-- `struct axitangxi_allocation`; `address` is the address of the struct itself, which a `vma` keeps.
pub record AxitangxiAllocation : Type 0 where
  pub address : ℕ
  pub size : ℕ
  pub user_addr : ℕ
  pub kern_addr : ℕ
  pub phys_addr : ℕ
  pub dma_addr : ℕ

-- What dma_alloc_coherent returns.
pub record DmaRegion : Type 0 where
  pub kern_addr : ℕ
  pub dma_addr : ℕ

-- The result, and `addr_list`. Without DMA memory the labels fall through: the struct is freed and
-- then read. If the region cannot be mapped (`rc` is -(k + 1)) the struct stays allocated.
unfoldable pub axitangxi_mmap :
    Option ℕ
    → Option DmaRegion
    → Option ℕ
    → ℕ
    → ℕ
    → List AxitangxiAllocation
    → Call (ℤ × List AxitangxiAllocation)
axitangxi_mmap none dma remap_error vm_start size addr_list = returns (negsuc 11, addr_list)
axitangxi_mmap (some address) none remap_error vm_start size addr_list = faults
axitangxi_mmap (some address) (some dma) (some k) vm_start size addr_list =
    returns (negsuc k, addr_list)
axitangxi_mmap (some address) (some dma) none vm_start size addr_list = returns (
  pos 0,
  record {
    address = address;
    size = size;
    user_addr = vm_start;
    kern_addr = dma.kern_addr;
    phys_addr = dma.dma_addr % 2 ^ 32;
    dma_addr = dma.dma_addr;
  }
      ∷ addr_list,
)

-- `list_del` of the struct at `address`
unfoldable pub axitangxi_vma_close : ℕ → List AxitangxiAllocation → List AxitangxiAllocation
axitangxi_vma_close address [] = []
axitangxi_vma_close address (a ∷ addr_list) =
    if a.address == address then addr_list else a ∷ axitangxi_vma_close address addr_list

unfoldable pub axitangxi_uservirt_to_phys : List AxitangxiAllocation → ℕ → ℕ
axitangxi_uservirt_to_phys [] user_addr = 0
axitangxi_uservirt_to_phys (a ∷ addr_list) user_addr =
    if a.user_addr == user_addr then a.phys_addr else axitangxi_uservirt_to_phys addr_list user_addr

==-false : (a b : ℕ) → a ≢ b → (a == b) ≡ false
==-false a b h = ground arith

-- If axitangxi_mmap succeeds, its memory is translated to the low 32 bits of the bus address, every
-- other user address is translated as before, and axitangxi_vma_close of the new struct gives the list
-- back.
pub mmap-translates :
    (address vm_start size : ℕ) (dma : DmaRegion) (addr_list : List AxitangxiAllocation)
    → (after : List AxitangxiAllocation) × (axitangxi_mmap
          (some address)
          (some dma)
          none
          vm_start
          size
          addr_list
        ≡ returns (pos 0, after))
      × (axitangxi_uservirt_to_phys after vm_start ≡ dma.dma_addr % 2 ^ 32)
      × ((other : ℕ)
          → vm_start ≢ other
          → axitangxi_uservirt_to_phys after other ≡ axitangxi_uservirt_to_phys addr_list other)
      × (axitangxi_vma_close address after ≡ addr_list)
unfolding axitangxi_mmap axitangxi_uservirt_to_phys axitangxi_vma_close
mmap-translates address vm_start size dma addr_list = (
  _,
  refl,
  rw (==-self vm_start) refl,
  λ other ne. rw (==-false vm_start other ne) refl,
  rw (==-self address) refl,
)

-- ===== src/Driver/Lifecycle.antt =====
-- What the driver acquires when it is loaded and releases when it is removed: axitangxi_probe and
-- axitangxi_remove of project-spec/meta-user/recipes-modules/axi-tangxi/axi_tangxi_platform.c, and
-- axitangxi_chrdev_init, axitangxi_chrdev_exit, reg_map and reg_unmap of axitangxi_dev.c. What the
-- kernel answers is an argument.
pub mod Balance
use soc.Common.{
  ℕ, ◌+◌, ◌≡◌, refl, List, [], ◌∷◌, ◌++◌, map, Option, none, some, Bool, true, false, not, ◌&&◌,
  ◌⊎◌, inl, inr, Bool-cases, Option-cases, if◌then◌else◌, arith,
}
use soc.Common.Effects.{ℤ, pos, negsuc, is_negative}
use soc.Driver.Registers.{
  Register, dma_mm2s_ps_addr, dma_mm2s_ps_size, dma_s2mm_ps_addr, dma_s2mm_ps_size,
  dma_mm2s_pl_addr, dma_mm2s_pl_size, dma_s2mm_pl_addr, dma_s2mm_pl_size, noc_data_pkg_addr,
  noc_data_pkg_ctl, noc_ctl_pkg_ctl, csram_write_ctl, result_read_addr, result_read_ctl,
  tx_riscv_reset_ctl, pl_irq_task_num, network_acc_control, network_acc_weight_addr,
  network_acc_weight_size, network_acc_quantify_addr, network_acc_quantify_size,
  network_acc_picture_addr, network_acc_picture_size, network_acc_trans_addr,
  network_acc_trans_size, network_acc_entropy_addr, network_acc_entropy_size,
}

-- What stays with the driver until it gives it back.
pub data Resource : Type 0 where
  node_reference : Resource
  irq_mapping : Resource
  irq_line : Resource
  chrdev_region : Resource
  cdev : Resource
  device_class : Resource
  device_node : Resource
  mapping : Register → Resource

-- What reg_map hands to ioremap: each register and its physical address.
abbrev pub reg_map : List (Register × ℕ)
reg_map =
    (dma_mm2s_ps_addr, 0x80000000)
    ∷ (dma_mm2s_ps_size, 0x80000004)
    ∷ (noc_data_pkg_addr, 0x80000008)
    ∷ (noc_data_pkg_ctl, 0x8000000c)
    ∷ (noc_ctl_pkg_ctl, 0x80000010)
    ∷ (csram_write_ctl, 0x80000014)
    ∷ (dma_s2mm_ps_addr, 0x80000018)
    ∷ (dma_s2mm_ps_size, 0x8000001c)
    ∷ (result_read_addr, 0x80000020)
    ∷ (result_read_ctl, 0x80000024)
    ∷ (tx_riscv_reset_ctl, 0x80000028)
    ∷ (dma_mm2s_pl_addr, 0x80000030)
    ∷ (dma_mm2s_pl_size, 0x80000034)
    ∷ (dma_s2mm_pl_addr, 0x80000038)
    ∷ (dma_s2mm_pl_size, 0x8000003c)
    ∷ (pl_irq_task_num, 0x8000002c)
    ∷ (network_acc_control, 0x80000100)
    ∷ (network_acc_weight_addr, 0x80000104)
    ∷ (network_acc_weight_size, 0x80000108)
    ∷ (network_acc_quantify_addr, 0x8000010c)
    ∷ (network_acc_quantify_size, 0x80000110)
    ∷ (network_acc_picture_addr, 0x80000114)
    ∷ (network_acc_picture_size, 0x80000118)
    ∷ (network_acc_trans_addr, 0x8000011c)
    ∷ (network_acc_trans_size, 0x80000120)
    ∷ (network_acc_entropy_addr, 0x80000124)
    ∷ (network_acc_entropy_size, 0x80000128)
    ∷ []

abbrev pub if_done : Bool → Resource → List Resource
if_done done r = if done then r ∷ [] else []

-- What ioremap maps; reg_map does not look at its results.
abbrev pub map_all : (Register → Bool) → List (Register × ℕ) → List Resource
map_all mapped [] = []
map_all mapped ((register, addr) ∷ registers) =
    if_done (mapped register) (mapping register) ++ map_all mapped registers

-- reg_unmap
abbrev pub reg_unmap : List Register
reg_unmap =
    dma_mm2s_ps_addr ∷ dma_mm2s_ps_size ∷ noc_data_pkg_addr ∷ noc_data_pkg_ctl ∷ noc_ctl_pkg_ctl
    ∷ csram_write_ctl ∷ dma_s2mm_ps_addr ∷ dma_s2mm_ps_size ∷ result_read_addr ∷ result_read_ctl
    ∷ tx_riscv_reset_ctl ∷ dma_mm2s_pl_addr ∷ dma_mm2s_pl_size ∷ dma_s2mm_pl_addr ∷ dma_s2mm_pl_size
    ∷ pl_irq_task_num ∷ network_acc_control ∷ network_acc_weight_addr ∷ network_acc_weight_size
    ∷ network_acc_quantify_addr ∷ network_acc_quantify_size ∷ network_acc_picture_addr
    ∷ network_acc_picture_size ∷ network_acc_trans_addr ∷ network_acc_trans_size
    ∷ network_acc_entropy_addr ∷ network_acc_entropy_size ∷ []

-- What the kernel answers to axitangxi_chrdev_init: an error of class_create and of device_create is
-- -(k + 1). The other calls are said to succeed or not: `irq_mapped` is for irq_of_parse_and_map and
-- `mapped` for ioremap.
pub record InitAnswers : Type 0 where
  pub node_found : Bool
  pub reg_read : Bool
  pub irq_mapped : Bool
  pub irq_requested : Bool
  pub region_allocated : Bool
  pub cdev_added : Bool
  pub class_error : Option ℕ
  pub device_error : Option ℕ
  pub mapped : Register → Bool

-- What of_find_node_by_path and irq_of_parse_and_map give and nothing gives back.
abbrev pub kept : InitAnswers → List Resource
kept a = node_reference ∷ if_done a.irq_mapped irq_mapping

-- `ret` is a `u32`, which is never below 0, so a failure of of_property_read_u32_array or request_irq
-- goes unnoticed; the results of alloc_chrdev_region and cdev_add are not looked at.
abbrev pub before_class : InitAnswers → List Resource
before_class a =
    kept a
    ++ (if_done a.irq_requested irq_line
        ++ (if_done a.region_allocated chrdev_region ++ if_done a.cdev_added cdev))

-- The result of axitangxi_chrdev_init, and what the driver holds then.
unfoldable pub axitangxi_chrdev_init : InitAnswers → ℤ × List Resource
axitangxi_chrdev_init a =
    if a.node_found
    then elim a.class_error [
      | some k ↦ (negsuc k, before_class a)
      | none ↦ elim a.device_error [
        | some k ↦ (negsuc k, before_class a ++ device_class ∷ [])
        | none ↦ (pos 0, before_class a ++ (device_class ∷ device_node ∷ map_all a.mapped reg_map))
      ]
    ]
    else (negsuc 21, [])

-- What axitangxi_chrdev_exit gives back.
unfoldable pub axitangxi_chrdev_exit : List Resource
axitangxi_chrdev_exit =
    irq_line ∷ map mapping reg_unmap ++ (cdev ∷ chrdev_region ∷ device_node ∷ device_class ∷ [])

-- axitangxi_probe: the result, whether the device structure stays allocated, and what the driver
-- holds. `allocated` and `mask_set` are what kmalloc and dma_set_coherent_mask answer.
pub record Probe : Type 0 where
  pub result : ℤ
  pub device : Bool
  pub held : List Resource

unfoldable pub axitangxi_probe : Bool → Bool → InitAnswers → Probe
axitangxi_probe allocated mask_set a =
    if allocated
    then if mask_set
      then (let init = axitangxi_chrdev_init a in
          if is_negative init.0
          then record { result = negsuc 37; device = false; held = init.1 }
          else record { result = pos 0; device = true; held = init.1 })
      else record { result = negsuc 37; device = false; held = [] }
    else record { result = negsuc 11; device = false; held = [] }

-- axitangxi_remove: what it gives back, and whether the device structure stays allocated.
unfoldable pub axitangxi_remove : List Resource × Bool
unfolding axitangxi_chrdev_exit
axitangxi_remove = (axitangxi_chrdev_exit, false)

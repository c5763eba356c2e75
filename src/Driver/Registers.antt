-- ===== src/Driver/Registers.antt =====
-- The register writes of project-spec/meta-user/recipes-modules/axi-tangxi/axi_tangxi.c, in order.
-- An argument is a `uint32_t` and so is each value written.
use soc.Common.{ℕ, ◌+◌, ◌-◌, ◌*◌, ◌%◌, ◌^◌, bit_or, List, [], ◌∷◌}

-- The mapped registers of the driver.
pub data Register : Type 0 where
  dma_mm2s_ps_addr : Register
  dma_mm2s_ps_size : Register
  dma_s2mm_ps_addr : Register
  dma_s2mm_ps_size : Register
  dma_mm2s_pl_addr : Register
  dma_mm2s_pl_size : Register
  dma_s2mm_pl_addr : Register
  dma_s2mm_pl_size : Register
  noc_data_pkg_addr : Register
  noc_data_pkg_ctl : Register
  noc_ctl_pkg_ctl : Register
  csram_write_ctl : Register
  result_read_addr : Register
  result_read_ctl : Register
  tx_riscv_reset_ctl : Register
  pl_irq_task_num : Register
  network_acc_control : Register
  network_acc_weight_addr : Register
  network_acc_weight_size : Register
  network_acc_quantify_addr : Register
  network_acc_quantify_size : Register
  network_acc_picture_addr : Register
  network_acc_picture_size : Register
  network_acc_trans_addr : Register
  network_acc_trans_size : Register
  network_acc_entropy_addr : Register
  network_acc_entropy_size : Register

-- writel(value, register)
pub record Write : Type 0 where
  pub register : Register
  pub value : ℕ

abbrev pub writel : ℕ → Register → Write
writel value register = record { register = register; value = value }

-- `burst_size - 1`
abbrev pub beats_field : ℕ → ℕ
beats_field burst_size = (burst_size + 2 ^ 32 - 1) % 2 ^ 32

unfoldable pub mm2s_ps_data_tangxi : ℕ → ℕ → ℕ → ℕ → ℕ → List Write
mm2s_ps_data_tangxi tx_data_ps_addr rx_data_pl_addr burst_size chip_position node =
    writel tx_data_ps_addr dma_mm2s_ps_addr
    ∷ writel (beats_field burst_size) dma_mm2s_ps_size
    ∷ writel noc_data_size_addr noc_data_pkg_addr
    ∷ writel noc_data_node_type_cmd noc_data_pkg_ctl
    ∷ []
  where
    noc_data_size_addr : ℕ
    noc_data_size_addr =
        bit_or (bit_or (chip_position * 2 ^ 28 % 2 ^ 32) (node * 2 ^ 20 % 2 ^ 32)) rx_data_pl_addr

    noc_data_node_type_cmd : ℕ
    noc_data_node_type_cmd = bit_or (beats_field burst_size * 2 ^ 10 % 2 ^ 32) 2

unfoldable pub s2mm_ps_data_tangxi : ℕ → ℕ → List Write
s2mm_ps_data_tangxi rx_data_ps_addr burst_size =
    writel (bit_or (beats_field burst_size * 2 ^ 20 % 2 ^ 32) 0x100) result_read_addr
    ∷ writel (beats_field burst_size) result_read_ctl
    ∷ writel rx_data_ps_addr dma_s2mm_ps_addr
    ∷ writel (beats_field burst_size) dma_s2mm_ps_size
    ∷ []

unfoldable pub mm2s_ps_data_s2mm_pl : ℕ → ℕ → ℕ → List Write
mm2s_ps_data_s2mm_pl tx_data_ps_addr rx_data_pl_addr burst_size =
    writel tx_data_ps_addr dma_mm2s_ps_addr
    ∷ writel (beats_field burst_size) dma_mm2s_ps_size
    ∷ writel rx_data_pl_addr dma_s2mm_pl_addr
    ∷ writel (beats_field burst_size) dma_s2mm_pl_size
    ∷ []

unfoldable pub s2mm_ps_data_mm2s_pl : ℕ → ℕ → ℕ → List Write
s2mm_ps_data_mm2s_pl rx_data_ps_addr tx_data_pl_addr burst_size =
    writel tx_data_pl_addr dma_mm2s_pl_addr
    ∷ writel (beats_field burst_size) dma_mm2s_pl_size
    ∷ writel rx_data_ps_addr dma_s2mm_ps_addr
    ∷ writel (beats_field burst_size) dma_s2mm_ps_size
    ∷ []

-- `struct network_acc_reg`
pub record NetworkAccReg : Type 0 where
  pub control : ℕ
  pub weight_addr : ℕ
  pub weight_size : ℕ
  pub quantify_addr : ℕ
  pub quantify_size : ℕ
  pub picture_addr : ℕ
  pub picture_size : ℕ
  pub trans_addr : ℕ
  pub trans_size : ℕ
  pub entropy_addr : ℕ
  pub entropy_size : ℕ

unfoldable pub acc_config : NetworkAccReg → List Write
acc_config args =
    writel args.weight_addr network_acc_weight_addr
    ∷ writel args.weight_size network_acc_weight_size
    ∷ writel args.quantify_addr network_acc_quantify_addr
    ∷ writel args.quantify_size network_acc_quantify_size
    ∷ writel args.picture_addr network_acc_picture_addr
    ∷ writel args.picture_size network_acc_picture_size
    ∷ []

unfoldable pub acc_start : List Write
acc_start = writel 1 network_acc_control ∷ []

-- ===== src/Driver/Requests.antt =====
-- A transfer from the application to the bursts: init_trans of
-- project-spec/meta-user/recipes-apps/autostart/src/axitangxi.c, and psddr_to_plddr and plddr_to_psddr
-- of project-spec/meta-user/recipes-modules/axi-tangxi/axi_tangxi.c.
use soc.Common.{
  ℕ, ◌+◌, ◌-◌, ◌*◌, ◌/◌, ◌%◌, ◌^◌, ◌≤◌, ◌<◌, ◌≡◌, refl, sym, ◌∙◌, inl, inr, length, subst, List,
  Option, some, arith, true,
}
use soc.Driver.Registers.{Write, mm2s_ps_data_s2mm_pl, s2mm_ps_data_mm2s_pl}
use soc.Driver.Bursts.{axitangxi_psddr_plddr, axitangxi_plddr_psddr}
use soc.Driver.Bursts.Coverage.{Burst, Chain, round_16, writes, burst_loop-Chain}
use soc.Driver.Memory.{AxitangxiAllocation, axitangxi_uservirt_to_phys}

-- `struct axitangxi_transaction`; the pointers to PS memory are addresses of the process.
pub record AxitangxiTransaction : Type 0 where
  pub tx_data_size : ℕ
  pub rx_data_size : ℕ
  pub burst_size : ℕ
  pub burst_count : ℕ
  pub burst_data : ℕ
  pub tx_data_ps_ptr : ℕ
  pub rx_data_ps_ptr : ℕ
  pub tx_data_pl_ptr : ℕ
  pub rx_data_pl_ptr : ℕ

-- BURST_SIZE
abbrev pub burst_size_max : ℕ
burst_size_max = 65536

-- `size` is a `uint32_t`.
unfoldable pub init_trans : ℕ → ℕ → ℕ → AxitangxiTransaction
init_trans ps_addr pl_addr size = record {
  tx_data_size = size;
  rx_data_size = size;
  burst_size = burst_size_max;
  burst_data = 16 * burst_size_max;
  burst_count = (size + 2 ^ 32 - 1) % 2 ^ 32 / (16 * burst_size_max) + 1;
  tx_data_ps_ptr = ps_addr;
  rx_data_ps_ptr = ps_addr;
  rx_data_pl_ptr = pl_addr;
  tx_data_pl_ptr = pl_addr;
}

-- The two pointers of `axitx_trans` that stay unset are 0 here; the loop does not read them.
unfoldable pub psddr_to_plddr :
    ℕ → List AxitangxiAllocation → AxitangxiTransaction → Option (List Write)
psddr_to_plddr fuel addr_list trans = axitangxi_psddr_plddr fuel (record {
  tx_data_size = trans.tx_data_size;
  rx_data_size = trans.rx_data_size;
  burst_size = trans.burst_size;
  burst_data = trans.burst_data;
  tx_data_ps_ptr = axitangxi_uservirt_to_phys addr_list trans.tx_data_ps_ptr;
  rx_data_ps_ptr = 0;
  tx_data_pl_ptr = 0;
  rx_data_pl_ptr = trans.rx_data_pl_ptr;
})

unfoldable pub plddr_to_psddr :
    ℕ → List AxitangxiAllocation → AxitangxiTransaction → Option (List Write)
plddr_to_psddr fuel addr_list trans = axitangxi_plddr_psddr fuel (record {
  tx_data_size = trans.tx_data_size;
  rx_data_size = trans.rx_data_size;
  burst_size = trans.burst_size;
  burst_data = trans.burst_data;
  tx_data_ps_ptr = 0;
  rx_data_ps_ptr = axitangxi_uservirt_to_phys addr_list trans.rx_data_ps_ptr;
  tx_data_pl_ptr = trans.tx_data_pl_ptr;
  rx_data_pl_ptr = 0;
})

-- The number of bursts in a chain of bursts of 65536 units.
Chain-length :
    {ps pl n : ℕ} {bursts : List Burst}
    → Chain true 65536 ps pl n bursts
    → length bursts ≡ (n + 1048575) / 1048576
Chain-length Chain.done = refl
Chain-length (Chain.link beats size total more which s t chain) = elim which [
  | inl full ↦ omega (arith, Chain-length chain)
  | inr (small, last) ↦ omega (arith, Chain-length chain)
]

burst_count-round_16 :
    (size : ℕ)
    → 0 < size
    → size ≤ 2 ^ 32 - 16
    → (size + 2 ^ 32 - 1) % 2 ^ 32 / 1048576 + 1 ≡ (round_16 size + 1048575) / 1048576
burst_count-round_16 size more h = omega arith

-- A transfer of 1 to 2^32 - 16 bytes that init_trans prepares ends in both directions, and writes the
-- registers for bursts that follow each other in PS memory, from the translated address on, and in
-- PL memory, and that cover the size rounded up to 16 bytes, all but the last with 65536 units,
-- as many as init_trans puts into burst_count.
pub transfer-Chain :
    (fuel ps_addr pl_addr size : ℕ) (addr_list : List AxitangxiAllocation)
    → 0 < size
    → size ≤ 2 ^ 32 - 16
    → size < fuel
    → (bursts : List Burst) × (psddr_to_plddr fuel addr_list (init_trans ps_addr pl_addr size)
        ≡ some (writes mm2s_ps_data_s2mm_pl true bursts))
      × (plddr_to_psddr fuel addr_list (init_trans ps_addr pl_addr size)
          ≡ some (writes s2mm_ps_data_mm2s_pl true bursts))
      × Chain true 65536
          (axitangxi_uservirt_to_phys addr_list ps_addr)
          pl_addr
          (round_16 size)
          bursts
      × ((init_trans ps_addr pl_addr size).burst_count ≡ length bursts)
unfolding psddr_to_plddr plddr_to_psddr init_trans axitangxi_psddr_plddr axitangxi_plddr_psddr
transfer-Chain fuel ps_addr pl_addr size addr_list more h f =
    let fits : size % 2 ^ 32 ≡ size = omega arith in
    let (bursts, e, chain) =
      burst_loop-Chain true fuel
        (record {
          data_remaining = size % 2 ^ 32;
          burst_size = 65536;
          burst_data = 1048576;
          ps_next = axitangxi_uservirt_to_phys addr_list ps_addr;
          pl_next = pl_addr;
        })
        refl (omega arith) (omega arith) (omega arith) in
    let covers =
      subst
        (λ n.
          Chain true 65536 (axitangxi_uservirt_to_phys addr_list ps_addr) pl_addr (round_16 n)
            bursts)
        fits chain in
    (
      bursts,
      e mm2s_ps_data_s2mm_pl,
      e s2mm_ps_data_mm2s_pl,
      covers,
      burst_count-round_16 size more h ∙ sym (Chain-length covers),
    )

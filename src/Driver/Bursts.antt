-- ===== src/Driver/Bursts.antt =====
-- The loops of project-spec/meta-user/recipes-modules/axi-tangxi/axi_tangxi.c that cut a transfer
-- into bursts. A wait for the interrupt that times out is logged and changes nothing, so the waits are
-- left out.
pub mod Coverage
pub mod Batches
use soc.Common.{
  ℕ, zero, suc, ◌+◌, ◌-◌, ◌*◌, ◌/◌, ◌%◌, ◌^◌, bit_and, List, [], ◌∷◌, ◌++◌, Option, none, some,
  map_some, Bool, true, false, ltb, ◌==◌, if◌then◌else◌,
}
use soc.Driver.Registers.{Write, mm2s_ps_data_tangxi, mm2s_ps_data_s2mm_pl, s2mm_ps_data_mm2s_pl}

-- `struct axitangxi_transfer`; burst_count and node are read by nothing.
pub record AxitangxiTransfer : Type 0 where
  pub tx_data_size : ℕ
  pub rx_data_size : ℕ
  pub burst_size : ℕ
  pub burst_data : ℕ
  pub tx_data_ps_ptr : ℕ
  pub rx_data_ps_ptr : ℕ
  pub tx_data_pl_ptr : ℕ
  pub rx_data_pl_ptr : ℕ

-- The `uint32_t` variables of a loop; `ps_next` and `pl_next` are the two addresses.
pub record Cursor : Type 0 where
  pub data_remaining : ℕ
  pub burst_size : ℕ
  pub burst_data : ℕ
  pub ps_next : ℕ
  pub pl_next : ℕ

-- `data_remaining` rounded up to 16 bytes
unfoldable pub align_16 : ℕ → ℕ
align_16 data_remaining =
    if bit_and data_remaining 15 == 0
    then data_remaining
    else (data_remaining + (16 - bit_and data_remaining 15)) % 2 ^ 32

-- The last burst, of fewer than `burst_data` bytes.
unfoldable pub last_burst : Cursor → Cursor
unfolding align_16
last_burst c =
    if ltb c.data_remaining c.burst_data
    then record c {
      data_remaining = align_16 c.data_remaining;
      burst_size = align_16 c.data_remaining / 16;
      burst_data = align_16 c.data_remaining;
    }
    else c

-- One loop for the four functions: `program` writes the registers of a burst, and `pl_step` says
-- whether the address in PL memory moves on. `none` is for too little fuel.
module _ (program : ℕ → ℕ → ℕ → List Write) (pl_step : Bool) where
  unfoldable pub burst_loop : ℕ → Cursor → Option (List Write)
  unfolding last_burst
  burst_loop zero c = none
  burst_loop (suc fuel) c =
      let b = last_burst c in
      let rest = burst_loop fuel (record b {
        data_remaining = (b.data_remaining + 2 ^ 32 - b.burst_data) % 2 ^ 32;
        ps_next = (b.ps_next + b.burst_data) % 2 ^ 32;
        pl_next = if pl_step then (b.pl_next + b.burst_data) % 2 ^ 32 else b.pl_next;
      }) in
      if ltb 0 c.data_remaining
      then map_some (◌++◌ (program b.ps_next b.pl_next b.burst_size)) rest
      else some []

-- The variables at the start, each a `uint32_t`.
abbrev pub cursor : AxitangxiTransfer → ℕ → ℕ → ℕ → Cursor
cursor trans data_size ps_ptr pl_ptr = record {
  data_remaining = data_size % 2 ^ 32;
  burst_size = trans.burst_size % 2 ^ 32;
  burst_data = trans.burst_data % 2 ^ 32;
  ps_next = ps_ptr;
  pl_next = pl_ptr;
}

unfoldable pub axitangxi_psddr_plddr : ℕ → AxitangxiTransfer → Option (List Write)
axitangxi_psddr_plddr fuel trans =
    burst_loop mm2s_ps_data_s2mm_pl true fuel
      (cursor trans trans.tx_data_size trans.tx_data_ps_ptr trans.rx_data_pl_ptr)

unfoldable pub axitangxi_plddr_psddr : ℕ → AxitangxiTransfer → Option (List Write)
axitangxi_plddr_psddr fuel trans =
    burst_loop s2mm_ps_data_mm2s_pl true fuel
      (cursor trans trans.rx_data_size trans.rx_data_ps_ptr trans.tx_data_pl_ptr)

unfoldable pub batch_mm2s_ps_data_tangxi : ℕ → AxitangxiTransfer → Option (List Write)
batch_mm2s_ps_data_tangxi fuel trans =
    burst_loop (λ ps pl size. mm2s_ps_data_tangxi ps pl size 0 3) false fuel
      (cursor trans trans.tx_data_size trans.tx_data_ps_ptr trans.rx_data_pl_ptr)

-- The address in PL memory is `rx_data_pl_ptr`, and it stays the same for every burst.
unfoldable pub batch_s2mm_ps_data_mm2s_pl : ℕ → AxitangxiTransfer → Option (List Write)
batch_s2mm_ps_data_mm2s_pl fuel trans =
    burst_loop s2mm_ps_data_mm2s_pl false fuel
      (cursor trans trans.rx_data_size trans.rx_data_ps_ptr trans.rx_data_pl_ptr)

abbrev both : Option (List Write) → Option (List Write) → Option (List Write)
both (some sent) (some got) = some (sent ++ got)
both none got = none
both (some sent) none = none

-- The loopback through the chip; the pauses are left out.
unfoldable pub axi_tangxi_loopback : ℕ → AxitangxiTransfer → Option (List Write)
axi_tangxi_loopback fuel trans =
    both (batch_mm2s_ps_data_tangxi fuel trans) (batch_s2mm_ps_data_mm2s_pl fuel trans)

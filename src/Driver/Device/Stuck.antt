-- ===== src/Driver/Device/Stuck.antt =====
-- A request that never ends: the loop of axitangxi_psddr_plddr trusts `burst_data`.
use soc.Common.{
  ℕ, zero, suc, ◌%◌, ◌^◌, ◌<◌, ◌≡◌, refl, ap, ltb, map_some, List, none, some, Bool, true, false,
  arith,
}
use soc.Driver.Registers.{Write, mm2s_ps_data_s2mm_pl}
use soc.Driver.Bursts.{Cursor, burst_loop, last_burst, axitangxi_psddr_plddr}
use soc.Driver.Memory.{AxitangxiAllocation, axitangxi_uservirt_to_phys}
use soc.Driver.Requests.{AxitangxiTransaction, psddr_to_plddr}
use soc.Driver.Device.{Request, succeeded, axitangxi_ioctl, psddr_to_plddr_cmd}

-- A transaction of some bytes with `burst_data` 0: the loop programs a burst and takes nothing off.
stuck_loop :
    (program : ℕ → ℕ → ℕ → List Write) (pl_step : Bool) (fuel : ℕ) (c : Cursor)
    → 0 < c.data_remaining
    → c.data_remaining < 2 ^ 32
    → c.burst_data ≡ 0
    → burst_loop program pl_step fuel c ≡ none
unfolding burst_loop last_burst
stuck_loop program pl_step zero c more small none_taken = refl
stuck_loop program pl_step (suc fuel) c more small none_taken =
    let goes_on : ltb 0 c.data_remaining ≡ true = ground arith in
    let not_last : ltb c.data_remaining c.burst_data ≡ false = ground arith in
    rw (goes_on, not_last)
      (ap (map_some _) (
        stuck_loop program pl_step fuel _ (omega (arith, more, small, none_taken))
          (omega (arith, more, small, none_taken)) none_taken))

-- The device does not check `burst_data`: with 0 in it, a request to move some bytes to PL memory never
-- ends, however many rounds the loop makes.
pub axitangxi_ioctl_stuck :
    (fuel : ℕ) (addr_list : List AxitangxiAllocation) (r : Request) (trans : AxitangxiTransaction)
    → r.trans ≡ some trans
    → trans.burst_data ≡ 0
    → 0 < trans.tx_data_size
    → trans.tx_data_size < 2 ^ 32
    → axitangxi_ioctl fuel addr_list r psddr_to_plddr_cmd ≡ none
unfolding axitangxi_ioctl psddr_to_plddr axitangxi_psddr_plddr
axitangxi_ioctl_stuck fuel addr_list r trans e zero_burst more small = rw e (
    ap (map_some succeeded) (
      stuck_loop mm2s_ps_data_s2mm_pl true fuel
        (record {
          data_remaining = trans.tx_data_size % 2 ^ 32;
          burst_size = trans.burst_size % 2 ^ 32;
          burst_data = trans.burst_data % 2 ^ 32;
          ps_next = axitangxi_uservirt_to_phys addr_list trans.tx_data_ps_ptr;
          pl_next = trans.rx_data_pl_ptr;
        })
        (omega (arith, more, small)) (omega arith) (omega (arith, zero_burst))))

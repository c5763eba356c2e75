-- ===== src/Driver/Device.antt =====
-- The requests of the device: axitangxi_ioctl of
-- project-spec/meta-user/recipes-modules/axi-tangxi/axitangxi_dev.c, with acc_complete, the reads of the
-- results and axitangxi_psddr_plddr_loopback of axi_tangxi.c.
pub mod Session
pub mod Stuck
use soc.Common.{
  ℕ, ◌/◌, ◌%◌, ◌≡◌, ◌≢◌, refl, ◌⊎◌, inl, inr, List, [], ◌++◌, Option, none, some, map_some, Bool,
  true, false, not, ◌==◌, ◌||◌, leb, if◌then◌else◌, Bool-cases, Option-cases, arith, subst, sym,
  ==_iff,
}
use soc.Common.Effects.{ℤ, pos, negsuc}
use soc.Driver.Registers.{Write, NetworkAccReg, acc_config, acc_start}
use soc.Driver.Bursts.{AxitangxiTransfer, axitangxi_psddr_plddr, axitangxi_plddr_psddr}
use soc.Driver.Memory.{AxitangxiAllocation, axitangxi_uservirt_to_phys}
use soc.Driver.Requests.{AxitangxiTransaction, psddr_to_plddr, plddr_to_psddr}

-- The numbers of the requests: direction, size of the argument, 'Y' and the command.
abbrev pub axitangxi_psddr_plddr_loopback_cmd : ℕ
axitangxi_psddr_plddr_loopback_cmd = 0x80485900

abbrev pub axitangxi_psddr_tangxi_loopback_cmd : ℕ
axitangxi_psddr_tangxi_loopback_cmd = 0x80485901

abbrev pub network_acc_config : ℕ
network_acc_config = 0x802c5902

abbrev pub network_acc_start : ℕ
network_acc_start = 0x5903

abbrev pub network_acc_get : ℕ
network_acc_get = 0x802c5904

abbrev pub psddr_to_plddr_cmd : ℕ
psddr_to_plddr_cmd = 0x80485905

abbrev pub plddr_to_psddr_cmd : ℕ
plddr_to_psddr_cmd = 0x80485906

-- _IOC_TYPE and _IOC_NR
abbrev pub ioc_type : ℕ → ℕ
ioc_type cmd = cmd / 256 % 256

abbrev pub ioc_nr : ℕ → ℕ
ioc_nr cmd = cmd % 256

-- Both transfers use the physical address of the data that is sent, also as the address in PL memory.
-- The comparisons of the data for the log are left out.
unfoldable pub axitangxi_psddr_plddr_loopback :
    ℕ → List AxitangxiAllocation → AxitangxiTransaction → Option (List Write)
axitangxi_psddr_plddr_loopback fuel addr_list trans =
    let tx : ℕ = axitangxi_uservirt_to_phys addr_list trans.tx_data_ps_ptr in
    let axitx_trans : AxitangxiTransfer = record {
      tx_data_size = trans.tx_data_size;
      rx_data_size = trans.rx_data_size;
      burst_size = trans.burst_size;
      burst_data = trans.burst_data;
      tx_data_ps_ptr = tx;
      rx_data_ps_ptr = axitangxi_uservirt_to_phys addr_list trans.rx_data_ps_ptr;
      tx_data_pl_ptr = tx;
      rx_data_pl_ptr = tx;
    } in
    elim (axitangxi_psddr_plddr fuel axitx_trans) [
      | none ↦ none
      | some there ↦ map_some (λ back. there ++ back) (axitangxi_plddr_psddr fuel axitx_trans)
    ]

-- acc_complete: ETIME if the wait times out.
unfoldable pub acc_complete : Bool → ℤ
acc_complete completed = if completed then pos 0 else negsuc 61

-- What the accelerator's result registers hold when they are read.
pub record AccResults : Type 0 where
  pub trans_addr : ℕ
  pub trans_size : ℕ
  pub entropy_addr : ℕ
  pub entropy_size : ℕ

-- What a request finds: the argument, as far as copy_from_user can copy it, whether the accelerator
-- is done in time, the result registers, whether copy_to_user succeeds, and what `iargs` holds on the
-- stack before anything is written to it.
pub record Request : Type 0 where
  pub trans : Option AxitangxiTransaction
  pub regs : Option NetworkAccReg
  pub completed : Bool
  pub results : AccResults
  pub copied_out : Bool
  pub iargs : NetworkAccReg

-- The result, the register writes, and the `struct network_acc_reg` that the caller gets back.
pub record Reply : Type 0 where
  pub rc : ℤ
  pub writes : List Write
  pub regs : Option NetworkAccReg

abbrev pub failed : ℕ → Reply
failed k = record { rc = negsuc k; writes = []; regs = none }

abbrev pub succeeded : List Write → Reply
succeeded writes = record { rc = pos 0; writes = writes; regs = none }

-- A request whose argument is a transaction; EFAULT if it cannot be copied.
unfoldable pub with_trans :
    Option AxitangxiTransaction → (AxitangxiTransaction → Option (List Write)) → Option Reply
with_trans none run = some (failed 13)
with_trans (some trans) run = map_some succeeded (run trans)

unfoldable pub with_regs : Option NetworkAccReg → (NetworkAccReg → List Write) → Reply
with_regs none run = failed 13
with_regs (some regs) run = succeeded (run regs)

-- NETWORK_ACC_GET: what acc_complete returns is not looked at.
unfoldable pub get_results : Request → Reply
unfolding acc_complete
get_results r =
    let waited : ℤ = acc_complete r.completed in
    if r.copied_out
    then record {
      rc = pos 0;
      writes = [];
      regs = some (record r.iargs {
        trans_addr = r.results.trans_addr;
        trans_size = r.results.trans_size;
        entropy_addr = r.results.entropy_addr;
        entropy_size = r.results.entropy_size;
      });
    }
    else failed 13

-- `none` is for too little fuel in the loops over bursts.
unfoldable pub axitangxi_ioctl : ℕ → List AxitangxiAllocation → Request → ℕ → Option Reply
unfolding axitangxi_psddr_plddr_loopback with_trans with_regs get_results
axitangxi_ioctl fuel addr_list r cmd =
    if not (ioc_type cmd == b'Y')
    then some (failed 24)
    else if leb 10 (ioc_nr cmd)
    then some (failed 24)
    else if cmd == axitangxi_psddr_plddr_loopback_cmd
    then with_trans r.trans (axitangxi_psddr_plddr_loopback fuel addr_list)
    else if cmd == axitangxi_psddr_tangxi_loopback_cmd
    then with_trans r.trans (λ trans. some [])
    else if cmd == network_acc_config
    then some (with_regs r.regs acc_config)
    else if cmd == network_acc_start
    then some (succeeded acc_start)
    else if cmd == network_acc_get
    then some (get_results r)
    else if cmd == psddr_to_plddr_cmd
    then with_trans r.trans (psddr_to_plddr fuel addr_list)
    else if cmd == plddr_to_psddr_cmd
    then with_trans r.trans (plddr_to_psddr fuel addr_list)
    else some (failed 24)

-- ===== src/Driver/Device/Session.antt =====
-- What the application does with the requests: pl_run and pl_get of
-- project-spec/meta-user/recipes-apps/autostart/src/axitangxi.c, on the device that answers them.
use soc.Common.{
  ℕ, ◌-◌, ◌^◌, ◌≤◌, ◌<◌, ◌≡◌, refl, sym, ap, List, ◌++◌, Option, none, some, Bool, true, false,
  if◌then◌else◌, Bool-cases, inl, inr, arith,
}
use soc.Common.Effects.{Call, returns, exits, ◌>?>◌, is_negative, some_of_returns}
use soc.Driver.Registers.{
  Write, NetworkAccReg, acc_config, acc_start, mm2s_ps_data_s2mm_pl, s2mm_ps_data_mm2s_pl,
}
use soc.Driver.Memory.{AxitangxiAllocation, axitangxi_uservirt_to_phys}
use soc.Driver.Requests.{init_trans, transfer-Chain}
use soc.Driver.Bursts.Coverage.{Burst, Chain, round_16, writes}
use soc.Driver.Access.{Pointer, PlIo, pl_io, is_minus_one}
use soc.Driver.Device.{
  Request, Reply, succeeded, axitangxi_ioctl, get_results, network_acc_config, network_acc_start,
  network_acc_get, psddr_to_plddr_cmd, plddr_to_psddr_cmd,
}

-- ioctl(2) answers -1 if the driver's result is negative, and then err(3) ends the process.
abbrev pub or_exit : Option Reply → Call (Option Reply)
or_exit none = returns none
or_exit (some reply) = if is_negative reply.rc then exits else returns (some reply)

module _ (fuel : ℕ) (addr_list : List AxitangxiAllocation) where
  -- The register writes of the two requests of pl_run; `config` and `start` are what they find but for
  -- the registers.
  unfoldable pub pl_run : Request → Request → NetworkAccReg → Call (Option (List Write))
  unfolding axitangxi_ioctl
  pl_run config start reg =
      or_exit
        (axitangxi_ioctl fuel addr_list (record config { regs = some reg }) network_acc_config)
      >?> λ configured.
          or_exit (axitangxi_ioctl fuel addr_list start network_acc_start) >?> λ started.
          returns (some (configured.writes ++ started.writes))

-- What pl_get leaves: the registers, and the two buffers.
pub record Got : Type 0 where
  pub reg : NetworkAccReg
  pub trans_addr : Pointer
  pub entropy_addr : Pointer

-- What a pl_read finds: whether its ioctl succeeds, and what mmap answers.
pub record ReadAnswers : Type 0 where
  pub done : Bool
  pub mapped : Pointer

-- `*reg` after the request.
abbrev pub regs_after : NetworkAccReg → Option NetworkAccReg → NetworkAccReg
regs_after reg none = reg
regs_after reg (some r) = r

abbrev pub read_or_exit : PlIo → Call (Option Pointer)
read_or_exit io = if is_minus_one io.result then exits else returns (some io.ps_addr)

-- The two calls of pl_read in pl_get.
unfoldable pub read_results :
    ReadAnswers → ReadAnswers → NetworkAccReg → Pointer → Pointer → Call (Option Got)
unfolding pl_io
read_results trans entropy r trans_addr entropy_addr =
    read_or_exit (pl_io trans.done trans.mapped trans_addr r.trans_addr r.trans_size)
    >?> λ trans_read.
        read_or_exit (pl_io entropy.done entropy.mapped entropy_addr r.entropy_addr r.entropy_size)
        >?> λ entropy_read.
            returns
              (some (record { reg = r; trans_addr = trans_read; entropy_addr = entropy_read }))

module _ (fuel : ℕ) (addr_list : List AxitangxiAllocation) where
  unfoldable pub pl_get :
      Request → ReadAnswers → ReadAnswers → NetworkAccReg → Pointer → Pointer → Call (Option Got)
  unfolding axitangxi_ioctl
  pl_get get trans entropy reg trans_addr entropy_addr =
      or_exit (axitangxi_ioctl fuel addr_list get network_acc_get) >?> λ reply.
      read_results trans entropy (regs_after reg reply.regs) trans_addr entropy_addr

-- pl_write and pl_read of 1 to 2^32 - 16 bytes: the request that init_trans prepares succeeds, and
-- programs bursts that follow each other in PS and PL memory and cover the size rounded up to 16.
pub axitangxi_ioctl-Chain :
    (fuel ps_addr pl_addr size : ℕ) (addr_list : List AxitangxiAllocation) (r : Request)
    → r.trans ≡ some (init_trans ps_addr pl_addr size)
    → 0 < size
    → size ≤ 2 ^ 32 - 16
    → size < fuel
    → (bursts : List Burst) × (axitangxi_ioctl fuel addr_list r psddr_to_plddr_cmd
        ≡ some (succeeded (writes mm2s_ps_data_s2mm_pl true bursts)))
      × (axitangxi_ioctl fuel addr_list r plddr_to_psddr_cmd
          ≡ some (succeeded (writes s2mm_ps_data_mm2s_pl true bursts)))
      × Chain true 65536
          (axitangxi_uservirt_to_phys addr_list ps_addr)
          pl_addr
          (round_16 size)
          bursts
unfolding axitangxi_ioctl
axitangxi_ioctl-Chain fuel ps_addr pl_addr size addr_list r e more h f =
    let (bursts, there, back, chain, count) =
      transfer-Chain fuel ps_addr pl_addr size addr_list more h f in
    (bursts, rw (e, there) refl, rw (e, back) refl, chain)

got_of :
    (one other : Bool) (p q : Pointer) (r : NetworkAccReg) (got : Got)
    → ((if one then exits else returns (some p)) >?> λ trans_read.
        (if other then exits else returns (some q)) >?> λ entropy_read.
        returns (some (record { reg = r; trans_addr = trans_read; entropy_addr = entropy_read })))
      ≡ returns (some got)
    → got.reg ≡ r
got_of true other p q r got e = absurd (ground arith)
got_of false true p q r got e = absurd (ground arith)
got_of false false p q r got e = sym (ap (λ (g : Got). g.reg) (some_of_returns _ got e))

read_results_reg :
    (trans entropy : ReadAnswers) (r : NetworkAccReg) (trans_addr entropy_addr : Pointer)
    (got : Got)
    → read_results trans entropy r trans_addr entropy_addr ≡ returns (some got)
    → got.reg ≡ r
unfolding read_results
read_results_reg trans entropy r trans_addr entropy_addr got e =
    let first : PlIo = pl_io trans.done trans.mapped trans_addr r.trans_addr r.trans_size in
    let second : PlIo =
      pl_io entropy.done entropy.mapped entropy_addr r.entropy_addr r.entropy_size in
    got_of (is_minus_one first.result) (is_minus_one second.result) first.ps_addr second.ps_addr r
      got e

-- The registers that pl_get leaves.
pl_get_reg :
    (fuel : ℕ) (addr_list : List AxitangxiAllocation) (get : Request) (trans entropy : ReadAnswers)
    (reg : NetworkAccReg) (trans_addr entropy_addr : Pointer) (got : Got)
    → pl_get fuel addr_list get trans entropy reg trans_addr entropy_addr ≡ returns (some got)
    → got.reg ≡ record get.iargs {
      trans_addr = get.results.trans_addr;
      trans_size = get.results.trans_size;
      entropy_addr = get.results.entropy_addr;
      entropy_size = get.results.entropy_size;
    }
unfolding pl_get get_results
pl_get_reg fuel addr_list get trans entropy reg trans_addr entropy_addr got e =
    elim (Bool-cases get.copied_out) [
      | inr failed ↦ absurd (exit_ne got (rw failed at e))
      | inl done ↦ read_results_reg trans entropy _ trans_addr entropy_addr got (rw done at e)
    ]
  where
    exit_ne : (got : Got) → ◌≡◌ {A = Call (Option Got)} exits (returns (some got)) → ⊥
    exit_ne got e = absurd (ground arith)

-- pl_get copies the request's `struct network_acc_reg` back as a whole, and the driver fills only the
-- four results in: whatever registers went in, the addresses and sizes of the weights and of the
-- quantification that a later pl_run hands to the accelerator are those that the kernel's stack held.
pub pl_run-pl_get :
    (fuel : ℕ) (addr_list : List AxitangxiAllocation) (config start get : Request)
    (trans entropy : ReadAnswers) (reg : NetworkAccReg) (trans_addr entropy_addr : Pointer)
    (got : Got) (picture_addr picture_size : ℕ)
    → pl_get fuel addr_list get trans entropy reg trans_addr entropy_addr ≡ returns (some got)
    → pl_run fuel addr_list config start
        (record got.reg { picture_addr = picture_addr; picture_size = picture_size })
      ≡ returns (
          some (
            acc_config
              (record get.iargs { picture_addr = picture_addr; picture_size = picture_size })
            ++ acc_start))
unfolding pl_run acc_config
pl_run-pl_get fuel addr_list config start get trans entropy reg trans_addr entropy_addr got
      picture_addr picture_size e =
    ap
      (λ (r : NetworkAccReg). returns (
        some (
          acc_config (record r { picture_addr = picture_addr; picture_size = picture_size })
          ++ acc_start)))
      (pl_get_reg fuel addr_list get trans entropy reg trans_addr entropy_addr got e)

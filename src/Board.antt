-- ===== src/Board.antt =====
-- The bare-metal driver of hw/src/axi_tangxi.c: how a copy is cut into bursts, the four flags, and
-- the interrupt handler. The registers and the writes of one burst are those of Driver/Registers, of
-- which the file has a copy, as of the rounding of the last burst. An `int` of the source is not
-- negative here, and a `UINTPTR` has 64 bits. The clock and what is printed are left out.
pub mod Loop
pub mod Flags
pub mod Copies
pub mod Loopback
pub mod Iwave
mod Tests
use soc.Common.{
  ℕ, zero, suc, ◌+◌, ◌-◌, ◌*◌, ◌/◌, ◌%◌, ◌^◌, List, [], ◌++◌, Option, none, some, map_some, Bool,
  true, false, ◌||◌, ltb, ◌==◌, if◌then◌else◌,
}
use soc.Driver.Registers.{Write, mm2s_ps_data_tangxi, mm2s_ps_data_s2mm_pl, s2mm_ps_data_mm2s_pl}
use soc.Driver.Bursts.{Cursor, last_burst}

-- `AxiTangxi_args`; `node` is read by nothing.
pub record AxiTangxiArgs : Type 0 where
  pub tx_data_size : ℕ
  pub rx_data_size : ℕ
  pub burst_size : ℕ
  pub burst_count : ℕ
  pub burst_data : ℕ
  pub tx_data_ps_ptr : ℕ
  pub rx_data_ps_ptr : ℕ
  pub tx_data_pl_ptr : ℕ
  pub rx_data_pl_ptr : ℕ

-- The flags of the loops and of the interrupt handler.
pub record DoneFlags : Type 0 where
  pub ps_conf_done : Bool
  pub pl_conf_done : Bool
  pub ps_transfer_done : Bool
  pub pl_transfer_done : Bool

-- BURST_SIZE, in units of 16 bytes.
abbrev pub burst_size_max : ℕ
burst_size_max = 65536

-- `(addr + 0xfff) & ~0xfff` on a `UINTPTR`
abbrev pub addr_aligned_4096 : ℕ → ℕ
addr_aligned_4096 addr = (addr + 4095) % 2 ^ 64 / 4096 * 4096

-- The arguments with the bursts of `tx_data_size` bytes and the address of the copy back. With a
-- size of 0, -1 divided is 0, as `0 - 1` divided is here.
unfoldable pub init_axi : AxiTangxiArgs → AxiTangxiArgs × DoneFlags
init_axi axi_args = (
  record axi_args {
    burst_size = burst_size_max;
    burst_count = (axi_args.tx_data_size - 1) / (burst_size_max * 16) + 1;
    burst_data = burst_size_max * 16;
    rx_data_ps_ptr =
        addr_aligned_4096 ((axi_args.tx_data_ps_ptr + axi_args.tx_data_size + 0x1000000) % 2 ^ 64);
    tx_data_pl_ptr = axi_args.rx_data_pl_ptr;
  },
  record {
    ps_conf_done = false;
    pl_conf_done = false;
    ps_transfer_done = false;
    pl_transfer_done = false;
  },
)

-- The `while (data_remaining > 0)` loop of the three batch functions: the writes, and the flag, which
-- the last burst sets if it has fewer than `burst_data` bytes. The address in PL memory does not move.
-- `none` is for too little fuel.
module _ (program : ℕ → ℕ → ℕ → List Write) where
  unfoldable pub batch_loop : ℕ → Cursor → Bool → Option (List Write × Bool)
  batch_loop zero c conf_done = none
  batch_loop (suc fuel) c conf_done =
      let b = last_burst c in
      let rest =
        batch_loop fuel
          (record b {
            data_remaining = (b.data_remaining + 2 ^ 32 - b.burst_data) % 2 ^ 32;
            ps_next = (b.ps_next + b.burst_data) % 2 ^ 32;
          })
          (ltb c.data_remaining c.burst_data || conf_done) in
      if ltb 0 c.data_remaining
      then map_some (λ r. (program b.ps_next b.pl_next b.burst_size ++ r.0, r.1)) rest
      else some ([], conf_done)

-- The variables at the start, each a `uint32_t`.
abbrev pub args_cursor : AxiTangxiArgs → ℕ → ℕ → ℕ → Cursor
args_cursor axi_args data_size ps_ptr pl_ptr = record {
  data_remaining = data_size % 2 ^ 32;
  burst_size = axi_args.burst_size % 2 ^ 32;
  burst_data = axi_args.burst_data % 2 ^ 32;
  ps_next = ps_ptr % 2 ^ 32;
  pl_next = pl_ptr % 2 ^ 32;
}

abbrev pub with_ps_conf : DoneFlags → List Write × Bool → List Write × DoneFlags
with_ps_conf flags r = (r.0, record flags { ps_conf_done = r.1 })

abbrev pub with_pl_conf : DoneFlags → List Write × Bool → List Write × DoneFlags
with_pl_conf flags r = (r.0, record flags { pl_conf_done = r.1 })

-- PS memory to the chip.
unfoldable pub batch_mm2s_ps_data_tangxi :
    ℕ → AxiTangxiArgs → DoneFlags → Option (List Write × DoneFlags)
batch_mm2s_ps_data_tangxi fuel axi_args flags = map_some (with_ps_conf flags) (
    batch_loop (λ ps pl size. mm2s_ps_data_tangxi ps pl size 0 3) fuel
      (args_cursor axi_args axi_args.tx_data_size axi_args.tx_data_ps_ptr axi_args.rx_data_pl_ptr)
      flags.ps_conf_done)

-- PS memory to PL memory.
unfoldable pub batch_mm2s_ps_data_s2mm_pl :
    ℕ → AxiTangxiArgs → DoneFlags → Option (List Write × DoneFlags)
batch_mm2s_ps_data_s2mm_pl fuel axi_args flags = map_some (with_pl_conf flags) (
    batch_loop mm2s_ps_data_s2mm_pl fuel
      (args_cursor axi_args axi_args.tx_data_size axi_args.tx_data_ps_ptr axi_args.rx_data_pl_ptr)
      flags.pl_conf_done)

-- PL memory to PS memory.
unfoldable pub batch_s2mm_ps_data_mm2s_pl :
    ℕ → AxiTangxiArgs → DoneFlags → Option (List Write × DoneFlags)
batch_s2mm_ps_data_mm2s_pl fuel axi_args flags = map_some (with_pl_conf flags) (
    batch_loop s2mm_ps_data_mm2s_pl fuel
      (args_cursor axi_args axi_args.rx_data_size axi_args.rx_data_ps_ptr axi_args.tx_data_pl_ptr)
      flags.pl_conf_done)

abbrev pub s2mm_ps_done : ℕ
s2mm_ps_done = 257

abbrev pub req_data_done : ℕ
req_data_done = 260

-- What the handler does for the number in PL_IRQ_TASK_NUM, which it then clears.
unfoldable pub interrupt_handler : ℕ → DoneFlags → DoneFlags
interrupt_handler irq flags =
    if irq == s2mm_ps_done
    then (if flags.pl_conf_done then record flags { pl_transfer_done = true } else flags)
    else if irq == req_data_done
    then (if flags.ps_conf_done then record flags { ps_transfer_done = true } else flags)
    else flags

-- The loops of axi_ps_pl_ddr and axi_pl_ps_ddr over `burst_count_temp`, from `k` on with `n` rounds
-- left: whole bursts, at an address that is cut to 32 bits. The product is an `int`.
module _ (program : ℕ → ℕ → ℕ → List Write) where
  unfoldable pub ddr_loop : ℕ → ℕ → ℕ → ℕ → List Write
  ddr_loop zero k ps_ptr pl_ptr = []
  ddr_loop (suc n) k ps_ptr pl_ptr =
      program ((ps_ptr + burst_size_max * 16 * k) % 2 ^ 32)
        ((pl_ptr + burst_size_max * 16 * k) % 2 ^ 32) burst_size_max
      ++ ddr_loop n (k + 1) ps_ptr pl_ptr

unfoldable pub axi_ps_pl_ddr : AxiTangxiArgs → List Write
axi_ps_pl_ddr axi_args =
    ddr_loop mm2s_ps_data_s2mm_pl axi_args.burst_count 0 axi_args.tx_data_ps_ptr
      axi_args.rx_data_pl_ptr

-- Without the comparison at its end.
unfoldable pub axi_pl_ps_ddr : AxiTangxiArgs → List Write
axi_pl_ps_ddr axi_args =
    ddr_loop s2mm_ps_data_mm2s_pl axi_args.burst_count 0 axi_args.rx_data_ps_ptr
      axi_args.tx_data_pl_ptr

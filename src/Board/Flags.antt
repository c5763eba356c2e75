-- ===== src/Board/Flags.antt =====
-- The flags: which copies tell the interrupt handler that they are configured.
use soc.Common.{
  ℕ, ◌%◌, ◌^◌, ◌<◌, ◌≡◌, refl, ap, subst, ◌∙◌, List, some, map_some, Bool, true, false, ◌||◌, not,
  ◌==◌, Bool-cases, inl, inr, arith,
}
use soc.Driver.Registers.{Write, mm2s_ps_data_tangxi, mm2s_ps_data_s2mm_pl, s2mm_ps_data_mm2s_pl}
use soc.Driver.Bursts.{Cursor}
use soc.Driver.Bursts.Coverage.{Burst, Chain, round_16, writes, burst_loop-Chain}
use soc.Board.{
  AxiTangxiArgs, DoneFlags, init_axi, batch_loop, args_cursor, with_ps_conf, with_pl_conf,
  batch_mm2s_ps_data_tangxi, batch_mm2s_ps_data_s2mm_pl, batch_s2mm_ps_data_mm2s_pl,
  interrupt_handler,
}
use soc.Board.Loop.{is_partial, flagged, batch_loop-flagged}

or_false : (b : Bool) → (b || false) ≡ b
or_false true = refl
or_false false = refl

-- One copy with the bursts of init_axi.
pub batch_loop-Chain :
    (program : ℕ → ℕ → ℕ → List Write) (fuel : ℕ) (axi_args : AxiTangxiArgs) (size ps pl : ℕ)
    → size < 2 ^ 31
    → size < fuel
    → (bursts : List Burst) × (batch_loop program fuel
          (args_cursor (init_axi axi_args).0 size ps pl)
          false
        ≡ some (writes program false bursts, is_partial size))
      × Chain false 65536 (ps % 2 ^ 32) (pl % 2 ^ 32) (round_16 size) bursts
unfolding init_axi
batch_loop-Chain program fuel axi_args size ps pl fits h =
    let c : Cursor = args_cursor (init_axi axi_args).0 size ps pl in
    let whole : size % 2 ^ 32 ≡ size = omega arith in
    let (bursts, e, chain) =
      burst_loop-Chain false fuel c refl (omega arith) (omega arith) (omega arith) in
    let flag : (is_partial (size % 2 ^ 32) || false) ≡ is_partial size =
      or_false (is_partial (size % 2 ^ 32)) ∙ ap is_partial whole in
    (
      bursts,
      batch_loop-flagged program fuel c false refl (omega arith)
          ∙ ap (flagged (is_partial (size % 2 ^ 32) || false)) (e program)
          ∙ ap (λ f. some (writes program false bursts, f)) flag,
      subst (λ k. Chain false 65536 (ps % 2 ^ 32) (pl % 2 ^ 32) (round_16 k) bursts) whole chain,
    )

interrupt-ps :
    (flags : DoneFlags)
    → flags.ps_transfer_done ≡ false
    → (interrupt_handler 260 flags).ps_transfer_done ≡ flags.ps_conf_done
unfolding interrupt_handler
interrupt-ps flags new = elim (Bool-cases flags.ps_conf_done) [
  | inl configured ↦ rw configured refl
  | inr other ↦ rw other new
]

interrupt-pl :
    (flags : DoneFlags)
    → flags.pl_transfer_done ≡ false
    → (interrupt_handler 257 flags).pl_transfer_done ≡ flags.pl_conf_done
unfolding interrupt_handler
interrupt-pl flags new = elim (Bool-cases flags.pl_conf_done) [
  | inl configured ↦ rw configured refl
  | inr other ↦ rw other new
]

-- After init_axi, each of the three copies of a size that fits an `int` ends. Its bursts, of 65536 units
-- but for the last, follow each other in PS memory and cover the size rounded up to 16 bytes, all with
-- one address in PL memory; and the interrupt after it marks the transfer as done exactly if the size
-- is not a whole number of bursts.
pub batches-interrupt :
    (fuel : ℕ) (axi_args : AxiTangxiArgs)
    → axi_args.tx_data_size < 2 ^ 31
    → axi_args.rx_data_size < 2 ^ 31
    → axi_args.tx_data_size < fuel
    → axi_args.rx_data_size < fuel
    → ((bursts : List Burst) × (flags : DoneFlags) × (batch_mm2s_ps_data_tangxi fuel
            (init_axi axi_args).0
            (init_axi axi_args).1
          ≡ some (writes (λ ps pl size. mm2s_ps_data_tangxi ps pl size 0 3) false bursts, flags))
        × Chain false 65536
            (axi_args.tx_data_ps_ptr % 2 ^ 32)
            (axi_args.rx_data_pl_ptr % 2 ^ 32)
            (round_16 axi_args.tx_data_size)
            bursts
        × ((interrupt_handler 260 flags).ps_transfer_done
            ≡ not (axi_args.tx_data_size % 1048576 == 0)))
      × ((bursts : List Burst) × (flags : DoneFlags) × (batch_mm2s_ps_data_s2mm_pl fuel
              (init_axi axi_args).0
              (init_axi axi_args).1
            ≡ some (writes mm2s_ps_data_s2mm_pl false bursts, flags))
          × Chain false 65536
              (axi_args.tx_data_ps_ptr % 2 ^ 32)
              (axi_args.rx_data_pl_ptr % 2 ^ 32)
              (round_16 axi_args.tx_data_size)
              bursts
          × ((interrupt_handler 257 flags).pl_transfer_done
              ≡ not (axi_args.tx_data_size % 1048576 == 0)))
      × ((bursts : List Burst) × (flags : DoneFlags) × (batch_s2mm_ps_data_mm2s_pl fuel
              (init_axi axi_args).0
              (init_axi axi_args).1
            ≡ some (writes s2mm_ps_data_mm2s_pl false bursts, flags))
          × Chain false 65536
              ((init_axi axi_args).0.rx_data_ps_ptr % 2 ^ 32)
              (axi_args.rx_data_pl_ptr % 2 ^ 32)
              (round_16 axi_args.rx_data_size)
              bursts
          × ((interrupt_handler 257 flags).pl_transfer_done
              ≡ not (axi_args.rx_data_size % 1048576 == 0)))
unfolding init_axi batch_mm2s_ps_data_tangxi batch_mm2s_ps_data_s2mm_pl batch_s2mm_ps_data_mm2s_pl
batches-interrupt fuel axi_args tx rx ftx frx =
    let a : AxiTangxiArgs = (init_axi axi_args).0 in
    let f : DoneFlags = (init_axi axi_args).1 in
    let (chip, e, chip_chain) =
      batch_loop-Chain (λ ps pl size. mm2s_ps_data_tangxi ps pl size 0 3) fuel axi_args
        axi_args.tx_data_size axi_args.tx_data_ps_ptr axi_args.rx_data_pl_ptr tx ftx in
    let (there, e', there_chain) =
      batch_loop-Chain mm2s_ps_data_s2mm_pl fuel axi_args axi_args.tx_data_size
        axi_args.tx_data_ps_ptr axi_args.rx_data_pl_ptr tx ftx in
    let (back, e'', back_chain) =
      batch_loop-Chain s2mm_ps_data_mm2s_pl fuel axi_args axi_args.rx_data_size a.rx_data_ps_ptr
        axi_args.rx_data_pl_ptr rx frx in
    (
      (
        chip,
        record f { ps_conf_done = is_partial axi_args.tx_data_size },
        ap (map_some (with_ps_conf f)) e,
        chip_chain,
        interrupt-ps _ refl,
      ),
      (
        there,
        record f { pl_conf_done = is_partial axi_args.tx_data_size },
        ap (map_some (with_pl_conf f)) e',
        there_chain,
        interrupt-pl _ refl,
      ),
      (
        back,
        record f { pl_conf_done = is_partial axi_args.rx_data_size },
        ap (map_some (with_pl_conf f)) e'',
        back_chain,
        interrupt-pl _ refl,
      ),
    )

-- ===== src/Board/Loopback.antt =====
-- axi_tangxi_loopback of hw/src/axi_tangxi.c, which sends data to the chip, copies it back from PL
-- memory and compares it.
use soc.Common.{
  ℕ, zero, suc, ◌+◌, ◌/◌, ◌%◌, ◌^◌, ◌<◌, ◌≡◌, refl, ap, ◌∙◌, List, [], ◌∷◌, ◌++◌, Option, none,
  some, map_some, Bool-cases, inl, inr, false, ◌==◌, if◌then◌else◌, arith,
}
use soc.Driver.Registers.{Write, mm2s_ps_data_tangxi}
use soc.Driver.Bursts.Coverage.{Burst, Chain, round_16, writes}
use soc.Board.{
  AxiTangxiArgs, DoneFlags, init_axi, with_ps_conf, batch_mm2s_ps_data_tangxi,
  batch_s2mm_ps_data_mm2s_pl, interrupt_handler,
}
use soc.Board.Loop.{is_partial}
use soc.Board.Flags.{batch_loop-Chain}

-- The interrupts that come, by the number that each finds in PL_IRQ_TASK_NUM.
unfoldable pub interrupts : List ℕ → DoneFlags → DoneFlags
interrupts [] flags = flags
interrupts (irq ∷ irqs) flags = interrupts irqs (interrupt_handler irq flags)

-- How many of `n` words from the i-th on differ.
unfoldable pub different_words : ℕ → ℕ → (ℕ → ℕ) → (ℕ → ℕ) → ℕ
different_words zero i tx rx = 0
different_words (suc n) i tx rx =
    let rest = different_words n (i + 1) tx rx in if rx i == tx i then rest else rest + 1

-- What the loopback leaves: the writes, the flags, and the number of different words if it compares.
pub record Loopback : Type 0 where
  pub writes : List Write
  pub flags : DoneFlags
  pub different : Option ℕ

-- The second half, once the chip has the data: `irqs` come until pl_transfer_done is read.
unfoldable pub copy_back :
    ℕ → AxiTangxiArgs → (ℕ → ℕ) → (ℕ → ℕ) → List ℕ → DoneFlags → Option Loopback
copy_back fuel axi_args tx rx irqs flags =
    map_some
      (λ r. record {
        writes = r.0;
        flags = interrupts irqs r.1;
        different =
            if (interrupts irqs r.1).pl_transfer_done
            then some (different_words (axi_args.tx_data_size / 4) 0 tx rx)
            else none;
      })
      (batch_s2mm_ps_data_mm2s_pl fuel axi_args flags)

-- What follows the copy to the chip, of which `r` is what it has written, and the flags. `sent` and
-- `back` are the interrupts that come until ps_transfer_done is read, and after that. `tx` and `rx` are
-- the words at the two PS addresses when they are compared. Each flag is read once.
unfoldable pub after_sent :
    ℕ
    → AxiTangxiArgs
    → (ℕ → ℕ)
    → (ℕ → ℕ)
    → List ℕ
    → List ℕ
    → Option (List Write × DoneFlags)
    → Option Loopback
after_sent fuel axi_args tx rx sent back none = none
after_sent fuel axi_args tx rx sent back (some r) =
    let flags = interrupts sent r.1 in
    if flags.ps_transfer_done
    then map_some {A = Loopback} {B = Loopback} (λ l. record l { writes = r.0 ++ l.writes })
        (copy_back fuel axi_args tx rx back flags)
    else some (record {
      writes = r.0;
      flags = interrupts back flags;
      different =
          if (interrupts back flags).pl_transfer_done
          then some (different_words (axi_args.tx_data_size / 4) 0 tx rx)
          else none;
    })

unfoldable pub axi_tangxi_loopback :
    ℕ → AxiTangxiArgs → (ℕ → ℕ) → (ℕ → ℕ) → List ℕ → List ℕ → DoneFlags → Option Loopback
axi_tangxi_loopback fuel axi_args tx rx sent back flags =
    after_sent fuel axi_args tx rx sent back (batch_mm2s_ps_data_tangxi fuel axi_args flags)

-- No copy is configured and none is done.
abbrev quiet : DoneFlags
quiet = record {
  ps_conf_done = false;
  pl_conf_done = false;
  ps_transfer_done = false;
  pl_transfer_done = false;
}

interrupts-quiet : (irqs : List ℕ) → interrupts irqs quiet ≡ quiet
unfolding interrupts interrupt_handler
interrupts-quiet [] = refl
interrupts-quiet (irq ∷ irqs) = elim (Bool-cases (irq == 257)) [
  | inl copied ↦ rw copied (interrupts-quiet irqs)
  | inr other ↦ elim (Bool-cases (irq == 260)) [
    | inl asked ↦ rw (other, asked) (interrupts-quiet irqs)
    | inr unknown ↦ rw (other, unknown) (interrupts-quiet irqs)
  ]
]

loopback-quiet :
    (fuel : ℕ) (axi_args : AxiTangxiArgs) (tx rx : ℕ → ℕ) (sent back : List ℕ) (flags : DoneFlags)
    (wire : List Write)
    → batch_mm2s_ps_data_tangxi fuel axi_args flags ≡ some (wire, quiet)
    → axi_tangxi_loopback fuel axi_args tx rx sent back flags
      ≡ some (record { writes = wire; flags = quiet; different = none })
unfolding axi_tangxi_loopback after_sent
loopback-quiet fuel axi_args tx rx sent back flags wire e =
    rw (e, interrupts-quiet sent, interrupts-quiet back) refl

-- After init_axi for a whole number of bursts, of a size that fits an `int`, the loopback sends the data to the chip,
-- in bursts of 65536 units that cover the size, and then, whatever interrupts come, neither copies it back nor
-- compares it.
pub axi_tangxi_loopback-whole :
    (fuel : ℕ) (axi_args : AxiTangxiArgs) (tx rx : ℕ → ℕ) (sent back : List ℕ)
    → axi_args.tx_data_size < 2 ^ 31
    → axi_args.tx_data_size < fuel
    → axi_args.tx_data_size % 1048576 ≡ 0
    → (bursts : List Burst) × (axi_tangxi_loopback fuel
          (init_axi axi_args).0
          tx
          rx
          sent
          back
          (init_axi axi_args).1
        ≡ some (record {
          writes = writes (λ ps pl size. mm2s_ps_data_tangxi ps pl size 0 3) false bursts;
          flags = quiet;
          different = none;
        }))
      × Chain false 65536
          (axi_args.tx_data_ps_ptr % 2 ^ 32)
          (axi_args.rx_data_pl_ptr % 2 ^ 32)
          (round_16 axi_args.tx_data_size)
          bursts
unfolding batch_mm2s_ps_data_tangxi init_axi
axi_tangxi_loopback-whole fuel axi_args tx rx sent back fits enough whole =
    let program : ℕ → ℕ → ℕ → List Write = λ ps pl size. mm2s_ps_data_tangxi ps pl size 0 3 in
    let (bursts, e, chain) =
      batch_loop-Chain program fuel axi_args axi_args.tx_data_size axi_args.tx_data_ps_ptr
        axi_args.rx_data_pl_ptr fits enough in
    let full : is_partial axi_args.tx_data_size ≡ false = ground arith in
    (
      bursts,
      loopback-quiet fuel (init_axi axi_args).0 tx rx sent back (init_axi axi_args).1
          (writes program false bursts)
          (ap (map_some (with_ps_conf (init_axi axi_args).1)) e
            ∙ ap (λ f. some (writes program false bursts, record quiet { ps_conf_done = f })) full),
      chain,
    )

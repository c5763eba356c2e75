-- ===== src/Board/Tests.antt =====
-- The theorems about the bare-metal driver, applied to a copy of 1048576 bytes back and 100 bytes on.
use soc.Common.{ℕ, ◌+◌, ◌%◌, ◌^◌, ◌≤◌, ◌<◌, ◌≡◌, List, some, true, false, arith}
use soc.Driver.Registers.{mm2s_ps_data_tangxi, mm2s_ps_data_s2mm_pl, s2mm_ps_data_mm2s_pl}
use soc.Driver.Bursts.Coverage.{Burst, Chain, writes}
use soc.Board.{
  AxiTangxiArgs, DoneFlags, init_axi, batch_mm2s_ps_data_tangxi, batch_mm2s_ps_data_s2mm_pl,
  batch_s2mm_ps_data_mm2s_pl, interrupt_handler, axi_ps_pl_ddr, axi_pl_ps_ddr,
}
use soc.Board.Flags.{batches-interrupt}
use soc.Board.Copies.{axi_ddr-Chain}

abbrev two_copies : AxiTangxiArgs
two_copies = record {
  tx_data_size = 100;
  rx_data_size = 1048576;
  burst_size = 0;
  burst_count = 0;
  burst_data = 0;
  tx_data_ps_ptr = 0x10000000;
  rx_data_ps_ptr = 0;
  tx_data_pl_ptr = 0;
  rx_data_pl_ptr = 0x10000000;
}

axi_ddr-Chain_example :
    (moved : ℕ) × (sent back : List Burst) × (axi_ps_pl_ddr (init_axi two_copies).0
      ≡ writes mm2s_ps_data_s2mm_pl true sent)
    × (axi_pl_ps_ddr (init_axi two_copies).0 ≡ writes s2mm_ps_data_mm2s_pl true back)
    × Chain true 65536 0x10000000 0x10000000 moved sent
    × Chain true 65536 ((init_axi two_copies).0.rx_data_ps_ptr % 2 ^ 32) 0x10000000 moved back
    × (100 ≤ moved)
    × (moved < 100 + 1048576)
    × (0x10000000 + moved ≤ (init_axi two_copies).0.rx_data_ps_ptr)
axi_ddr-Chain_example = axi_ddr-Chain two_copies (omega arith) (omega arith) (omega arith)

batches-interrupt_example :
    ((bursts : List Burst) × (flags : DoneFlags) × (batch_mm2s_ps_data_tangxi 2000000
          (init_axi two_copies).0
          (init_axi two_copies).1
        ≡ some (writes (λ ps pl size. mm2s_ps_data_tangxi ps pl size 0 3) false bursts, flags))
      × Chain false 65536 0x10000000 0x10000000 112 bursts
      × ((interrupt_handler 260 flags).ps_transfer_done ≡ true))
    × ((bursts : List Burst) × (flags : DoneFlags) × (batch_mm2s_ps_data_s2mm_pl 2000000
            (init_axi two_copies).0
            (init_axi two_copies).1
          ≡ some (writes mm2s_ps_data_s2mm_pl false bursts, flags))
        × Chain false 65536 0x10000000 0x10000000 112 bursts
        × ((interrupt_handler 257 flags).pl_transfer_done ≡ true))
    × ((bursts : List Burst) × (flags : DoneFlags) × (batch_s2mm_ps_data_mm2s_pl 2000000
            (init_axi two_copies).0
            (init_axi two_copies).1
          ≡ some (writes s2mm_ps_data_mm2s_pl false bursts, flags))
        × Chain false 65536
            ((init_axi two_copies).0.rx_data_ps_ptr % 2 ^ 32)
            0x10000000
            1048576
            bursts
        × ((interrupt_handler 257 flags).pl_transfer_done ≡ false))
batches-interrupt_example =
    batches-interrupt 2000000 two_copies (omega arith) (omega arith) (omega arith) (omega arith)

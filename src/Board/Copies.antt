-- ===== src/Board/Copies.antt =====
-- The copies of whole bursts, and where the copy back lies.
use soc.Common.{
  ℕ, zero, suc, ◌+◌, ◌-◌, ◌*◌, ◌/◌, ◌%◌, ◌^◌, ◌≤◌, ◌<◌, ◌≡◌, refl, inl, List, [], ◌∷◌, true, arith,
}
use soc.Driver.Registers.{Write, mm2s_ps_data_s2mm_pl, s2mm_ps_data_mm2s_pl}
use soc.Driver.Bursts.Coverage.{Burst, Chain, done, link, writes}
use soc.Board.{AxiTangxiArgs, init_axi, ddr_loop, axi_ps_pl_ddr, axi_pl_ps_ddr}

ddr_bursts : ℕ → ℕ → ℕ → ℕ → List Burst
ddr_bursts zero k ps pl = []
ddr_bursts (suc n) k ps pl =
    record { ps = (ps + 1048576 * k) % 2 ^ 32; pl = (pl + 1048576 * k) % 2 ^ 32; beats = 65536 }
    ∷ ddr_bursts n (k + 1) ps pl

ddr_loop-writes :
    (program : ℕ → ℕ → ℕ → List Write) (n k ps pl : ℕ)
    → ddr_loop program n k ps pl ≡ writes program true (ddr_bursts n k ps pl)
unfolding ddr_loop ddr_bursts
ddr_loop-writes program zero k ps pl = refl
ddr_loop-writes program (suc n) k ps pl = rw (ddr_loop-writes program n (k + 1) ps pl) refl

ddr_bursts-Chain :
    (n k ps pl : ℕ)
    → Chain true 65536
        ((ps + 1048576 * k) % 2 ^ 32)
        ((pl + 1048576 * k) % 2 ^ 32)
        (1048576 * n)
        (ddr_bursts n k ps pl)
unfolding ddr_bursts
ddr_bursts-Chain zero k ps pl = done
ddr_bursts-Chain (suc n) k ps pl =
    let next_ps : (ps + 1048576 * (k + 1)) % 2 ^ 32
        ≡ ((ps + 1048576 * k) % 2 ^ 32 + 1048576) % 2 ^ 32 =
      omega arith in
    let next_pl : (pl + 1048576 * (k + 1)) % 2 ^ 32
        ≡ ((pl + 1048576 * k) % 2 ^ 32 + 1048576) % 2 ^ 32 =
      omega arith in
    link 65536 1048576 (1048576 * suc n) (omega arith) (inl refl) refl (omega arith)
      (rw (next_ps, next_pl) at (ddr_bursts-Chain n (k + 1) ps pl))

ddr_bursts-Chain_whole :
    (n ps pl : ℕ)
    → Chain true 65536 (ps % 2 ^ 32) (pl % 2 ^ 32) (1048576 * n) (ddr_bursts n 0 ps pl)
ddr_bursts-Chain_whole n ps pl =
    let at_ps : ps + 1048576 * 0 ≡ ps = omega arith in
    let at_pl : pl + 1048576 * 0 ≡ pl = omega arith in
    rw (at_ps, at_pl) at (ddr_bursts-Chain n 0 ps pl)

-- After init_axi for a size that fits an `int`, if the memory before and after the data ends below
-- 2^64, both copies are bursts of 65536 units that follow each other in PS and PL memory, from the
-- addresses on, cut to 32 bits; they move the size rounded up to whole bursts, and the copy back
-- lies behind all that is moved.
pub axi_ddr-Chain :
    (axi_args : AxiTangxiArgs)
    → 0 < axi_args.tx_data_size
    → axi_args.tx_data_size < 2 ^ 31
    → axi_args.tx_data_ps_ptr + axi_args.tx_data_size + 2 ^ 25 < 2 ^ 64
    → (moved : ℕ) × (sent back : List Burst) × (axi_ps_pl_ddr (init_axi axi_args).0
        ≡ writes mm2s_ps_data_s2mm_pl true sent)
      × (axi_pl_ps_ddr (init_axi axi_args).0 ≡ writes s2mm_ps_data_mm2s_pl true back)
      × Chain true 65536
          (axi_args.tx_data_ps_ptr % 2 ^ 32)
          (axi_args.rx_data_pl_ptr % 2 ^ 32)
          moved
          sent
      × Chain true 65536
          ((init_axi axi_args).0.rx_data_ps_ptr % 2 ^ 32)
          (axi_args.rx_data_pl_ptr % 2 ^ 32)
          moved
          back
      × (axi_args.tx_data_size ≤ moved)
      × (moved < axi_args.tx_data_size + 1048576)
      × (axi_args.tx_data_ps_ptr + moved ≤ (init_axi axi_args).0.rx_data_ps_ptr)
unfolding init_axi axi_ps_pl_ddr axi_pl_ps_ddr
axi_ddr-Chain axi_args some_data fits room =
    let count : ℕ = (axi_args.tx_data_size - 1) / 1048576 + 1 in
    let rx : ℕ = (init_axi axi_args).0.rx_data_ps_ptr in
    (
      1048576 * count,
      ddr_bursts count 0 axi_args.tx_data_ps_ptr axi_args.rx_data_pl_ptr,
      ddr_bursts count 0 rx axi_args.rx_data_pl_ptr,
      ddr_loop-writes mm2s_ps_data_s2mm_pl count 0 axi_args.tx_data_ps_ptr axi_args.rx_data_pl_ptr,
      ddr_loop-writes s2mm_ps_data_mm2s_pl count 0 rx axi_args.rx_data_pl_ptr,
      ddr_bursts-Chain_whole count axi_args.tx_data_ps_ptr axi_args.rx_data_pl_ptr,
      ddr_bursts-Chain_whole count rx axi_args.rx_data_pl_ptr,
      omega arith,
      omega arith,
      omega arith,
    )

-- ===== src/Driver/Bursts/Batches.antt =====
-- The loops of axi_tangxi_loopback end, and how their bursts lie.
use soc.Common.{ℕ, ◌*◌, ◌%◌, ◌^◌, ◌-◌, ◌≤◌, ◌<◌, ◌≡◌, refl, List, ◌++◌, some, false, arith}
use soc.Driver.Registers.{mm2s_ps_data_tangxi, s2mm_ps_data_mm2s_pl}
use soc.Driver.Bursts.{
  AxitangxiTransfer, cursor, batch_mm2s_ps_data_tangxi, batch_s2mm_ps_data_mm2s_pl,
  axi_tangxi_loopback,
}
use soc.Driver.Bursts.Coverage.{Burst, Chain, round_16, writes, burst_loop-Chain}

-- If a burst of a transfer has 1 to 2^28 - 1 units of 16 bytes and the sizes are at most 2^32 - 16,
-- both batch functions end. Their bursts follow each other in PS memory and cover the size rounded
-- up to 16 bytes, but each burst has the same address in PL memory, `rx_data_pl_ptr`.
pub batches-Chain :
    (fuel : ℕ) (trans : AxitangxiTransfer)
    → 0 < trans.burst_size
    → trans.burst_size < 2 ^ 28
    → trans.burst_data ≡ 16 * trans.burst_size
    → trans.tx_data_size ≤ 2 ^ 32 - 16
    → trans.rx_data_size ≤ 2 ^ 32 - 16
    → trans.tx_data_size < fuel
    → trans.rx_data_size < fuel
    → ((bursts : List Burst) × (batch_mm2s_ps_data_tangxi fuel trans
          ≡ some (writes (λ ps pl size. mm2s_ps_data_tangxi ps pl size 0 3) false bursts))
        × Chain false
            (trans.burst_size % 2 ^ 32)
            trans.tx_data_ps_ptr
            trans.rx_data_pl_ptr
            (round_16 (trans.tx_data_size % 2 ^ 32))
            bursts)
      × ((bursts : List Burst) × (batch_s2mm_ps_data_mm2s_pl fuel trans
            ≡ some (writes s2mm_ps_data_mm2s_pl false bursts))
          × Chain false
              (trans.burst_size % 2 ^ 32)
              trans.rx_data_ps_ptr
              trans.rx_data_pl_ptr
              (round_16 (trans.rx_data_size % 2 ^ 32))
              bursts)
unfolding batch_mm2s_ps_data_tangxi batch_s2mm_ps_data_mm2s_pl
batches-Chain fuel trans more small d tx rx ftx frx =
    let (sent, es, cs) =
      burst_loop-Chain false fuel
        (cursor trans trans.tx_data_size trans.tx_data_ps_ptr trans.rx_data_pl_ptr) (omega arith)
        (omega arith) (omega arith) (omega arith) in
    let (got, eg, cg) =
      burst_loop-Chain false fuel
        (cursor trans trans.rx_data_size trans.rx_data_ps_ptr trans.rx_data_pl_ptr) (omega arith)
        (omega arith) (omega arith) (omega arith) in
    (
      (sent, es (λ ps pl size. mm2s_ps_data_tangxi ps pl size 0 3), cs),
      (got, eg s2mm_ps_data_mm2s_pl, cg),
    )

-- On the same conditions the loopback ends, with the writes of all bursts to the chip and then of all
-- bursts back, as many bytes of PS memory each as the size rounded up to 16 bytes.
pub axi_tangxi_loopback-Chain :
    (fuel : ℕ) (trans : AxitangxiTransfer)
    → 0 < trans.burst_size
    → trans.burst_size < 2 ^ 28
    → trans.burst_data ≡ 16 * trans.burst_size
    → trans.tx_data_size ≤ 2 ^ 32 - 16
    → trans.rx_data_size ≤ 2 ^ 32 - 16
    → trans.tx_data_size < fuel
    → trans.rx_data_size < fuel
    → (sent got : List Burst) × (axi_tangxi_loopback fuel trans
        ≡ some (
            writes (λ ps pl size. mm2s_ps_data_tangxi ps pl size 0 3) false sent
            ++ writes s2mm_ps_data_mm2s_pl false got))
      × Chain false
          (trans.burst_size % 2 ^ 32)
          trans.tx_data_ps_ptr
          trans.rx_data_pl_ptr
          (round_16 (trans.tx_data_size % 2 ^ 32))
          sent
      × Chain false
          (trans.burst_size % 2 ^ 32)
          trans.rx_data_ps_ptr
          trans.rx_data_pl_ptr
          (round_16 (trans.rx_data_size % 2 ^ 32))
          got
unfolding axi_tangxi_loopback
axi_tangxi_loopback-Chain fuel trans more small d tx rx ftx frx =
    let ((sent, es, cs), (got, eg, cg)) = batches-Chain fuel trans more small d tx rx ftx frx in
    (sent, got, rw (es, eg) refl, cs, cg)

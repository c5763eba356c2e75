-- ===== src/Driver/Bursts/Coverage.antt =====
-- The bursts of a transfer cover its bytes in order, rounded up to 16.
use soc.Common.{
  ℕ, zero, suc, ◌+◌, ◌-◌, ◌*◌, ◌/◌, ◌%◌, ◌^◌, ◌≤◌, ◌<◌, ◌≡◌, refl, ◌⊎◌, inl, inr, bit_and, List, [],
  ◌∷◌, ◌++◌, map, concat, some, Bool, ltb, if◌then◌else◌, ltb→lt, lt→ltb, le→ltb, Bool-cases, arith,
}
use soc.Common.Masks.{bit_and_low}
use soc.Driver.Registers.{Write}
use soc.Driver.Bursts.{Cursor, align_16, last_burst, burst_loop}

-- One burst: its addresses, and its size in units of 16 bytes.
pub record Burst : Type 0 where
  pub ps : ℕ
  pub pl : ℕ
  pub beats : ℕ

-- Bursts of `n` bytes in all from the two addresses on: each starts where the one before it ends (in
-- PL memory if `pl_step` says so), and all but the last have `m` units.
pub data Chain (pl_step : Bool) (m : ℕ) : ℕ → ℕ → ℕ → List Burst → Type 0 where
  done : {ps pl : ℕ} → Chain pl_step m ps pl 0 []
  link :
      {ps pl n : ℕ} {bursts : List Burst} (beats size total : ℕ)
      → 0 < beats
      → (beats ≡ m) ⊎ ((beats ≤ m) × (n ≡ 0))
      → size ≡ 16 * beats
      → total ≡ size + n
      → Chain pl_step m
          ((ps + size) % 2 ^ 32)
          (if pl_step then (pl + size) % 2 ^ 32 else pl)
          n
          bursts
      → Chain pl_step m ps pl total (record { ps = ps; pl = pl; beats = beats } ∷ bursts)

-- The size of a transfer, rounded up.
abbrev pub round_16 : ℕ → ℕ
round_16 n = (n + 15) / 16 * 16

align_16-round_16 : (n : ℕ) → n ≤ 2 ^ 32 - 16 → align_16 n ≡ round_16 n
unfolding align_16
align_16-round_16 n h = let low : bit_and n 15 ≡ n % 16 = bit_and_low 4 n in rw low (ground arith)

module _ (program : ℕ → ℕ → ℕ → List Write) (pl_step : Bool) where
  -- The writes of bursts.
  abbrev pub writes : List Burst → List Write
  writes bursts = concat (map (λ b. program b.ps b.pl b.beats) bursts)

  burst_loop-empty :
      (fuel : ℕ) (c : Cursor)
      → c.data_remaining ≡ 0
      → burst_loop program pl_step (suc fuel) c ≡ some []
  unfolding burst_loop
  burst_loop-empty fuel c e = rw e refl

  burst_loop-spare :
      (fuel : ℕ) (c : Cursor)
      → 0 < fuel
      → c.data_remaining ≡ 0
      → burst_loop program pl_step fuel c ≡ some []
  burst_loop-spare zero c h e = absurd (omega arith)
  burst_loop-spare (suc fuel) c h e = burst_loop-empty fuel c e

  -- One round of the loop, on the variables that last_burst leaves.
  burst_loop-step :
      (fuel : ℕ) (c : Cursor) (remaining beats size : ℕ) (ws : List Write)
      → 0 < c.data_remaining
      → last_burst c
        ≡ record c { data_remaining = remaining; burst_size = beats; burst_data = size }
      → burst_loop program pl_step fuel (record c {
        data_remaining = (remaining + 2 ^ 32 - size) % 2 ^ 32;
        burst_size = beats;
        burst_data = size;
        ps_next = (c.ps_next + size) % 2 ^ 32;
        pl_next = if pl_step then (c.pl_next + size) % 2 ^ 32 else c.pl_next;
      })
        ≡ some ws
      → burst_loop program pl_step (suc fuel) c ≡ some (program c.ps_next c.pl_next beats ++ ws)
  unfolding burst_loop
  burst_loop-step fuel c remaining beats size ws more b e =
      rw (lt→ltb 0 c.data_remaining more, b, e) refl

  -- The last round takes what is left, and a round before it takes `burst_data` bytes.
  pub last_burst-last :
      (c : Cursor)
      → c.data_remaining < c.burst_data
      → c.data_remaining ≤ 2 ^ 32 - 16
      → last_burst c ≡ record c {
        data_remaining = round_16 c.data_remaining;
        burst_size = (c.data_remaining + 15) / 16;
        burst_data = round_16 c.data_remaining;
      }
  unfolding last_burst
  last_burst-last c h k =
      let beats : round_16 c.data_remaining / 16 ≡ (c.data_remaining + 15) / 16 = omega arith in
      rw (lt→ltb c.data_remaining c.burst_data h, align_16-round_16 c.data_remaining k, beats) refl

  pub last_burst-full : (c : Cursor) → c.burst_data ≤ c.data_remaining → last_burst c ≡ c
  unfolding last_burst
  last_burst-full c h = rw (le→ltb c.data_remaining c.burst_data h) refl

module _ (pl_step : Bool) where
  pub burst_loop-Chain :
      (fuel : ℕ) (c : Cursor)
      → c.burst_data ≡ 16 * c.burst_size
      → 0 < c.burst_size
      → c.data_remaining ≤ 2 ^ 32 - 16
      → c.data_remaining < fuel
      → (bursts : List Burst) × ((program : ℕ → ℕ → ℕ → List Write)
          → burst_loop program pl_step fuel c ≡ some (writes program pl_step bursts))
        × Chain pl_step c.burst_size c.ps_next c.pl_next (round_16 c.data_remaining) bursts
  burst_loop-Chain zero c d s r f = absurd (omega arith)
  burst_loop-Chain (suc fuel) c d s r f = elim (Bool-cases (ltb 0 c.data_remaining)) [
    | inr none_left ↦
        let zero_left : c.data_remaining ≡ 0 = ground arith in
        ([], λ program. burst_loop-empty program pl_step fuel c zero_left, rw zero_left done)
    | inl some_left ↦
        let more : 0 < c.data_remaining = ltb→lt _ _ some_left in
        elim (Bool-cases (ltb c.data_remaining c.burst_data)) [
          | inl less ↦
              let short : c.data_remaining < c.burst_data = ltb→lt _ _ less in
              let left : (round_16 c.data_remaining + 2 ^ 32 - round_16 c.data_remaining) % 2 ^ 32
                  ≡ 0 =
                omega arith in
              (
                record { ps = c.ps_next; pl = c.pl_next; beats = (c.data_remaining + 15) / 16 }
                    ∷ [],
                λ program.
                    burst_loop-step program pl_step fuel c (round_16 c.data_remaining)
                      ((c.data_remaining + 15) / 16) (round_16 c.data_remaining) [] more
                      (last_burst-last program pl_step c short r)
                      (burst_loop-spare program pl_step fuel _ (omega arith) left),
                link ((c.data_remaining + 15) / 16) (round_16 c.data_remaining)
                    (round_16 c.data_remaining) (omega arith) (inr (omega arith, refl))
                    (omega arith) (omega arith) done,
              )
          | inr full ↦
              let long : c.burst_data ≤ c.data_remaining = ground arith in
              let left : (c.data_remaining + 2 ^ 32 - c.burst_data) % 2 ^ 32
                  ≡ c.data_remaining - c.burst_data =
                omega arith in
              let (bursts, e, chain) =
                burst_loop-Chain fuel
                  (record c {
                    data_remaining = (c.data_remaining + 2 ^ 32 - c.burst_data) % 2 ^ 32;
                    ps_next = (c.ps_next + c.burst_data) % 2 ^ 32;
                    pl_next = if pl_step then (c.pl_next + c.burst_data) % 2 ^ 32 else c.pl_next;
                  })
                  d s (omega arith) (omega arith) in
              (
                record { ps = c.ps_next; pl = c.pl_next; beats = c.burst_size } ∷ bursts,
                λ program.
                    burst_loop-step program pl_step fuel c c.data_remaining c.burst_size
                      c.burst_data _ more (last_burst-full program pl_step c long) (e program),
                link c.burst_size c.burst_data (round_16 c.data_remaining) s (inl refl) d
                    (omega arith) chain,
              )
        ]
  ]

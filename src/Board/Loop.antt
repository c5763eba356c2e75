-- ===== src/Board/Loop.antt =====
-- The loop of the three copies against the loop of the driver, and the flag that it sets.
use soc.Common.{
  ℕ, zero, suc, ◌+◌, ◌-◌, ◌/◌, ◌%◌, ◌^◌, ◌≤◌, ◌<◌, ◌≡◌, refl, sym, ap, ◌∙◌, List, ◌++◌, Option,
  none, some, map_some, Bool, true, false, ◌||◌, not, ltb, ◌==◌, ltb→lt, lt→ltb, Bool-cases, inl,
  inr, arith,
}
use soc.Driver.Registers.{Write}
use soc.Driver.Bursts.{Cursor, last_burst, burst_loop}
use soc.Driver.Bursts.Coverage.{round_16, last_burst-last, last_burst-full}
use soc.Board.{batch_loop}

-- A size that is not a whole number of bursts.
abbrev pub is_partial : ℕ → Bool
is_partial size = not (size % 1048576 == 0)

add_flag :
    (rest : Option (List Write)) (ws : List Write) (f : Bool)
    → map_some {B = List Write × Bool}
        (λ (r : List Write × Bool). (ws ++ r.0, r.1))
        (map_some {B = List Write × Bool} (λ (l : List Write). (l, f)) rest)
      ≡ map_some {B = List Write × Bool} (λ (l : List Write). (l, f)) (map_some (◌++◌ ws) rest)
add_flag none ws f = refl
add_flag (some l) ws f = refl

-- The writes of the driver's loop, with a flag.
abbrev pub flagged : Bool → Option (List Write) → Option (List Write × Bool)
flagged f rest = map_some (λ l. (l, f)) rest

module _ (program : ℕ → ℕ → ℕ → List Write) where
  batch_loop-spent :
      (fuel : ℕ) (c : Cursor) (d : Bool)
      → c.data_remaining ≡ 0
      → batch_loop program fuel c d ≡ flagged d (burst_loop program false fuel c)
  unfolding batch_loop burst_loop
  batch_loop-spent zero c d e = refl
  batch_loop-spent (suc fuel) c d e = rw e refl

  batch_loop_empty :
      (c : Cursor) (d f : Bool)
      → batch_loop program zero c d ≡ flagged f (burst_loop program false zero c)
  unfolding batch_loop burst_loop
  batch_loop_empty c d f = refl

  batch_loop-step :
      (fuel : ℕ) (c : Cursor) (remaining beats size : ℕ) (d f : Bool)
      → 0 < c.data_remaining
      → last_burst c
        ≡ record c { data_remaining = remaining; burst_size = beats; burst_data = size }
      → batch_loop program fuel
          (record c {
            data_remaining = (remaining + 2 ^ 32 - size) % 2 ^ 32;
            burst_size = beats;
            burst_data = size;
            ps_next = (c.ps_next + size) % 2 ^ 32;
          })
          (ltb c.data_remaining c.burst_data || d)
        ≡ flagged f (
            burst_loop program false fuel (record c {
              data_remaining = (remaining + 2 ^ 32 - size) % 2 ^ 32;
              burst_size = beats;
              burst_data = size;
              ps_next = (c.ps_next + size) % 2 ^ 32;
            }))
      → batch_loop program (suc fuel) c d ≡ flagged f (burst_loop program false (suc fuel) c)
  unfolding batch_loop burst_loop
  batch_loop-step fuel c remaining beats size d f more b e =
      rw (lt→ltb 0 c.data_remaining more, b, e)
        (add_flag (burst_loop program false fuel _) (program c.ps_next c.pl_next beats) f)

  -- The loop is the driver's, and sets the flag exactly if there is a last burst that is not whole.
  pub batch_loop-flagged :
      (fuel : ℕ) (c : Cursor) (d : Bool)
      → c.burst_data ≡ 1048576
      → c.data_remaining ≤ 2 ^ 32 - 16
      → batch_loop program fuel c d
        ≡ flagged (is_partial c.data_remaining || d) (burst_loop program false fuel c)
  batch_loop-flagged zero c d b r = batch_loop_empty c d (is_partial c.data_remaining || d)
  batch_loop-flagged (suc fuel) c d b r = elim (Bool-cases (ltb 0 c.data_remaining)) [
    | inr none_left ↦
        let whole : is_partial c.data_remaining ≡ false = ground arith in
        batch_loop-spent (suc fuel) c d (ground arith)
        ∙ ap (λ f. flagged (f || d) (burst_loop program false (suc fuel) c)) (sym whole)
    | inl some_left ↦
        let more : 0 < c.data_remaining = ltb→lt _ _ some_left in
        elim (Bool-cases (ltb c.data_remaining c.burst_data)) [
          | inl less ↦
              let short : c.data_remaining < c.burst_data = ltb→lt _ _ less in
              let part : is_partial c.data_remaining ≡ true = ground arith in
              let size : ℕ = round_16 c.data_remaining in
              let none_left : (size + 2 ^ 32 - size) % 2 ^ 32 ≡ 0 = omega arith in
              let next : Cursor = record c {
                data_remaining = (size + 2 ^ 32 - size) % 2 ^ 32;
                burst_size = (c.data_remaining + 15) / 16;
                burst_data = size;
                ps_next = (c.ps_next + size) % 2 ^ 32;
              } in
              batch_loop-step fuel c size ((c.data_remaining + 15) / 16) size d
                (is_partial c.data_remaining || d) more (last_burst-last program false c short r)
                (batch_loop-spent fuel next (ltb c.data_remaining c.burst_data || d) none_left
                  ∙ ap (λ f. flagged (f || d) (burst_loop program false fuel next))
                      (less ∙ sym part))
          | inr full ↦
              let long : c.burst_data ≤ c.data_remaining = ground arith in
              let same : is_partial ((c.data_remaining + 2 ^ 32 - c.burst_data) % 2 ^ 32)
                  ≡ is_partial c.data_remaining =
                ap (λ k. not (k == 0)) (omega arith) in
              let next : Cursor = record c {
                data_remaining = (c.data_remaining + 2 ^ 32 - c.burst_data) % 2 ^ 32;
                ps_next = (c.ps_next + c.burst_data) % 2 ^ 32;
              } in
              batch_loop-step fuel c c.data_remaining c.burst_size c.burst_data d
                (is_partial c.data_remaining || d) more (last_burst-full program false c long)
                (batch_loop-flagged fuel next (ltb c.data_remaining c.burst_data || d) b
                    (omega arith)
                  ∙ ap
                      (λ f.
                        flagged (f || (ltb c.data_remaining c.burst_data || d))
                          (burst_loop program false fuel next))
                      same
                  ∙ ap
                      (λ f.
                        flagged (is_partial c.data_remaining || (f || d))
                          (burst_loop program false fuel next))
                      full)
        ]
  ]

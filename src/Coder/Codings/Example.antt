-- ===== src/Coder/Codings/Example.antt =====
-- Tables for the tests: weights and a distribution that grow with the index.
use soc.Common.{ℕ, zero, suc, ◌+◌, ◌<◌, ◌≡◌, refl, ap, ◌∙◌, List, [], ◌∷◌, length, get_or, arith}
use soc.Coder.Table.{Tables}
use soc.Coder.Table.Shares.{IsTables}

-- The numbers from `start` on.
pub ramp : ℕ → ℕ → List ℕ
ramp zero start = []
ramp (suc n) start = start ∷ ramp n (suc start)

length-ramp : (n start : ℕ) → length (ramp n start) ≡ n
unfolding ramp
length-ramp zero start = refl
length-ramp (suc n) start = ap suc (length-ramp n (suc start))

get_or-ramp : (n start i : ℕ) → i < n → get_or (ramp n start) i 0 ≡ start + i
unfolding ramp
get_or-ramp zero start i h = absurd (omega arith)
get_or-ramp (suc n) start zero h = omega arith
get_or-ramp (suc n) start (suc i) h = get_or-ramp n (suc start) i (omega arith) ∙ omega arith

abbrev pub example_tables : Tables
example_tables = record { exp_table = ramp 12001 0; cdf_table = ramp 100001 0 }

pub example_tables-IsTables : IsTables example_tables
example_tables-IsTables = record {
  exp_size = omega (arith, length-ramp 12001 0);
  exp_last = omega (arith, get_or-ramp 12001 0 12000 (omega arith));
  cdf_size = omega (arith, length-ramp 100001 0);
  cdf_grows = λ i j h k.
      omega (arith, get_or-ramp 100001 0 i (omega arith), get_or-ramp 100001 0 j (omega arith));
  cdf_small = λ i h. omega (arith, get_or-ramp 100001 0 i (omega arith));
}

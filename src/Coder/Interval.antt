-- ===== src/Coder/Interval.antt =====
-- Arithmetic coding by intervals of fractions, as a description that is independent of the encoder:
-- each symbol takes its share of the interval, and the code is a fraction in the last one.
use soc.Common.{ℕ, ◌+◌, ◌-◌, ◌*◌, ◌/◌, ◌≤◌, ◌<◌, ◌≡◌, List, [], ◌∷◌}
use soc.Coder.{Symbol}

-- From lowest / scale to (lowest + width) / scale, the end left out.
pub record Interval : Type 0 where
  pub lowest : ℕ
  pub width : ℕ
  pub scale : ℕ

-- `x` of `s.total` parts of the interval, in whole units.
abbrev pub parts : ℕ → Symbol → Interval → ℕ
parts x s i = x * i.width / s.total

-- The share of a symbol.
abbrev pub share : Symbol → Interval → Interval
share s i = record {
  lowest = i.lowest + parts s.sym_low s i;
  width = parts s.sym_high s i - parts s.sym_low s i;
  scale = i.scale;
}

-- The same interval in units of 1 / (k * scale).
abbrev pub finer : ℕ → Interval → Interval
finer k i = record { lowest = k * i.lowest; width = k * i.width; scale = k * i.scale }

-- The fraction c / d lies in the interval.
pub record Inside (c d : ℕ) (i : Interval) : Type 0 where
  pub above : i.lowest * d ≤ c * i.scale
  pub below : c * i.scale < (i.lowest + i.width) * d

-- The fraction lies in the share of each symbol in turn, and an interval is divided in units so fine
-- that it has at least 2^30 + 2 of them.
pub data Decodes (c d : ℕ) : Interval → List Symbol → Type 0 where
  end : {i : Interval} → Inside c d i → Decodes c d i []
  next :
      {i j : Interval} {s : Symbol} {symbols : List Symbol}
      → Inside c d (share s i)
      → (k : ℕ) → j ≡ finer k (share s i)
      → 1073741825 < j.width
      → Decodes c d j symbols
      → Decodes c d i (s ∷ symbols)

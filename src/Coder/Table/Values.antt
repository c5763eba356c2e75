-- ===== src/Coder/Table/Values.antt =====
-- EncTable::update and get_bound together: the symbols of the values of a channel.
use soc.Common.{ℕ, ◌≤◌, ◌<◌, ◌≡◌, refl, sym, subst, List, ◌∷◌, All, arith}
use soc.Common.Effects.{returns, ℤ}
use soc.Common.Int.{◌≤ℤ◌, ◌<ℤ◌}
use soc.Coder.{Symbol}
use soc.Coder.Update.{IsSymbol}
use soc.Coder.Table.{Component, Tables, enc_symbol}
use soc.Coder.Table.Index.{IsInt16}
use soc.Coder.Table.Shares.{IsTables, softmax_lem}
use soc.Coder.Table.Sums.{IsComponent}
use soc.Coder.Table.Symbols.{symbol_of, symbol_of-IsSymbol, symbol_of_apart, get_bound_lem}

-- The function that gives the symbols of the values between two bounds under one mixture.
pub record IsShares (lo hi : ℤ) (f : ℤ → Symbol) : Type 0 where
  pub symbols : (x : ℤ) → lo ≤ℤ x → x ≤ℤ hi → IsSymbol (f x)
  pub apart : (x y : ℤ) → lo ≤ℤ x → x <ℤ y → Symbol.sym_high (f x) ≤ Symbol.sym_low (f y)
  pub totals : (x y : ℤ) → Symbol.total (f x) ≡ Symbol.total (f y)

pub enc_symbol_lem :
    (t : Tables) (scale : ℕ) (lo hi : ℤ) (c : Component) (cs : List Component)
    → IsTables t
    → 0 < scale
    → scale ≤ 16384
    → IsInt16 lo
    → IsInt16 hi
    → All IsComponent (c ∷ cs)
    → (f : ℤ → Symbol) × ((x : ℤ)
        → lo ≤ℤ x
        → x ≤ℤ hi
        → enc_symbol t scale lo hi (c ∷ cs) x ≡ returns (f x))
      × IsShares lo hi f
unfolding enc_symbol
enc_symbol_lem t scale lo hi c cs it more small lo16 hi16 good =
    let (ws, e, same, some_weight) = softmax_lem t scale c cs it more small in
    let good' = subst (All IsComponent) (sym same) good in
    (
      symbol_of t scale lo hi ws it lo16 hi16 small good' some_weight,
      λ x h h'. rw e (get_bound_lem t scale lo hi ws it lo16 hi16 small good' some_weight x h h'),
      record {
        symbols = symbol_of-IsSymbol t scale lo hi ws it lo16 hi16 small good' some_weight;
        apart = symbol_of_apart t scale lo hi ws it lo16 hi16 small good' some_weight;
        totals = λ x y. refl;
      },
    )

-- With good tables, a scale of 1 to 16384, bounds and means in 16 bits and positive deviations, two
-- values x < y between the bounds get symbols that the coder takes, of one total, and the share of
-- x ends before the share of y starts: no division by zero, no index out of a table and no overflow.
pub enc_symbol-IsSymbol :
    (t : Tables) (scale : ℕ) (lo hi : ℤ) (c : Component) (cs : List Component)
    → IsTables t
    → 0 < scale
    → scale ≤ 16384
    → IsInt16 lo
    → IsInt16 hi
    → All IsComponent (c ∷ cs)
    → (x y : ℤ) → lo ≤ℤ x
    → x <ℤ y
    → y ≤ℤ hi
    → (s s' : Symbol) × (enc_symbol t scale lo hi (c ∷ cs) x ≡ returns s)
      × (enc_symbol t scale lo hi (c ∷ cs) y ≡ returns s')
      × IsSymbol s
      × IsSymbol s'
      × (s.total ≡ s'.total)
      × (s.sym_high ≤ s'.sym_low)
enc_symbol-IsSymbol t scale lo hi c cs it more small lo16 hi16 good x y low less high =
    let (f, runs, shares) = enc_symbol_lem t scale lo hi c cs it more small lo16 hi16 good in
    let low' : lo ≤ℤ y = omega (arith, low, less) in
    let high' : x ≤ℤ hi = omega (arith, less, high) in
    (
      f x,
      f y,
      runs x low high',
      runs y low' high,
      shares.symbols x low high',
      shares.symbols y low' high,
      shares.totals x y,
      shares.apart x y low less,
    )

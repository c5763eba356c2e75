-- ===== src/Coder/Table/Symbols.antt =====
-- EncTable::get_bound: the shares of the values between the bounds are symbols for the coder, they
-- do not meet and they lie in the order of the values.
use soc.Common.{
  ℕ, ◌+◌, ◌-◌, ◌/◌, ◌≤◌, ◌<◌, ◌≡◌, refl, ap, ◌∙◌, List, [], ◌∷◌, All, Bool, true, false, arith,
}
use soc.Common.Effects.{returns, ℤ, pos, negsuc}
use soc.Common.Int.{◌+ℤ◌, ◌-ℤ◌, ◌≤ℤ◌, ◌<ℤ◌, pos_part, neg_part, int_laws, div_mono}
use soc.Coder.{Symbol}
use soc.Coder.Update.{IsSymbol}
use soc.Coder.Table.{Component, Tables, cumulate, between, get_bound}
use soc.Coder.Table.Index.{
  IsInt16, edge_of, edge_mono, edge_ordered, edge_next, cdf_index_mono, cdf_index-le,
}
use soc.Coder.Table.Shares.{IsTables, total_weight, components_of}
use soc.Coder.Table.Sums.{IsComponent, sum_of, index_of, sum_of_mono, sum_of_fits, cumulate_lem}

-- The distance of two integers, the smaller first.
abbrev pub distance : ℤ → ℤ → ℕ
distance a b = pos_part b + neg_part a - (pos_part a + neg_part b)

distance_lem : (a b : ℤ) → a ≤ℤ b → b -ℤ a ≡ pos (distance a b)
distance_lem a b h = omega int_laws

distance_next : (a b : ℤ) → a ≤ℤ b → b -ℤ a +ℤ pos 1 ≡ pos (distance a b + 1)
distance_next a b h = omega int_laws

distance_fits : (a b : ℤ) → IsInt16 a → IsInt16 b → distance a b < 65536
distance_fits a b ha hb = omega (arith, ha.above, ha.below, hb.above, hb.below)

between_lem :
    (a b n : ℕ)
    → b ≤ a
    → a ≤ 4294967295000000
    → n ≤ 65536
    → between a b (pos n) ≡ a / 4294967295 - b / 4294967295 + n
between_lem a b n h small few =
    let ordered = div_mono b a 4294967295 (omega arith) h in
    let million = div_mono a 4294967295000000 4294967295 (omega arith) small in
    omega (arith, ordered, million)

IsInt16-between : (x a b : ℤ) → IsInt16 a → IsInt16 b → a ≤ℤ x → x ≤ℤ b → IsInt16 x
IsInt16-between (pos n) a b ha hb h h' = record {
  above = omega arith;
  below = omega (arith, h', hb.below);
}
IsInt16-between (negsuc n) a b ha hb h h' = record {
  above = omega (arith, h, ha.above);
  below = omega arith;
}

-- The shares of the values that lie in 16 bits under the bounds `lo` and `hi`.
module _ (t : Tables) (scale : ℕ) (lo hi : ℤ) (ws : List (ℕ × Component)) (it : IsTables t)
    (lo16 : IsInt16 lo) (hi16 : IsInt16 hi) (small : scale ≤ 16384)
    (good : All IsComponent (components_of ws)) (some_weight : 0 < total_weight ws) where
  -- A sum of get_bound.
  abbrev sum_at : Bool → ℤ → ℕ
  sum_at upper x = sum_of t (total_weight ws) (index_of scale upper x) ws

  sum_at-le : (upper : Bool) (x : ℤ) → sum_at upper x ≤ 4294967295000000
  sum_at-le upper x = sum_of_fits t (total_weight ws) scale upper x ws it some_weight (omega arith)

  sum_at_mono :
      (b b' : Bool) (x y : ℤ)
      → ((mean : ℤ) → edge_of b x scale mean ≤ℤ edge_of b' y scale mean)
      → sum_at b x ≤ sum_at b' y
  sum_at_mono b b' x y h =
      sum_of_mono t (total_weight ws) (index_of scale b x) (index_of scale b' y) ws it some_weight
        (ordered (components_of ws) good)
    where
      ordered :
          (cs : List Component)
          → All IsComponent cs
          → All
              (λ c.
                (index_of scale b x c ≤ index_of scale b' y c) × (index_of scale b' y c ≤ 100000))
              cs
      ordered [] g = tt
      ordered (c ∷ cs) g = (
        (
          cdf_index_mono (edge_of b x scale c.mean) (edge_of b' y scale c.mean) c.std g.0.std
              (h c.mean),
          cdf_index-le (edge_of b' y scale c.mean) c.std,
        ),
        ordered cs g.1,
      )

  -- The symbol of a value, without the machine's arithmetic.
  abbrev pub symbol_of : ℤ → Symbol
  symbol_of x = record {
    total = sum_at true hi / 4294967295 - sum_at false lo / 4294967295 + (distance lo hi + 1);
    sym_low = sum_at false x / 4294967295 - sum_at false lo / 4294967295 + distance lo x;
    sym_high = sum_at true x / 4294967295 - sum_at false lo / 4294967295 + (distance lo x + 1);
  }

  from_below : (upper : Bool) (x : ℤ) → lo ≤ℤ x → sum_at false lo ≤ sum_at upper x
  from_below true x h =
      sum_at_mono false true lo x
        (λ mean. omega (arith, edge_ordered lo scale mean, edge_mono true lo x scale mean h))
  from_below false x h = sum_at_mono false false lo x (λ mean. edge_mono false lo x scale mean h)

  share_of-le : (upper : Bool) (x : ℤ) → sum_at upper x / 4294967295 ≤ 1000000
  share_of-le upper x =
      div_mono (sum_at upper x) 4294967295000000 4294967295 (omega arith) (sum_at-le upper x)

  share_of_mono :
      (b b' : Bool) (x y : ℤ)
      → sum_at b x ≤ sum_at b' y
      → sum_at b x / 4294967295 ≤ sum_at b' y / 4294967295
  share_of_mono b b' x y h = div_mono (sum_at b x) (sum_at b' y) 4294967295 (omega arith) h

  pub symbol_of-IsSymbol : (x : ℤ) → lo ≤ℤ x → x ≤ℤ hi → IsSymbol (symbol_of x)
  symbol_of-IsSymbol x h h' = record {
    some_share = omega (
      arith,
      share_of_mono false true x x (sum_at_mono false true x x (λ mean. edge_ordered x scale mean)),
    );
    inside = omega (
      arith,
      share_of_mono true true x hi
          (sum_at_mono true true x hi (λ mean. edge_mono true x hi scale mean h')),
    );
    few = omega (arith, share_of-le true hi, distance_fits lo hi lo16 hi16);
  }

  pub symbol_of_apart :
      (x y : ℤ) → lo ≤ℤ x → x <ℤ y → Symbol.sym_high (symbol_of x) ≤ Symbol.sym_low (symbol_of y)
  symbol_of_apart x y h more = omega (
    arith,
    share_of_mono true false x y
        (sum_at_mono true false x y (λ mean. edge_next x y scale mean more)),
  )

  cumulate_at :
      (upper : Bool) (x : ℤ)
      → IsInt16 x
      → cumulate t scale upper x (total_weight ws) ws ≡ returns (sum_at upper x)
  cumulate_at upper x hx =
      cumulate_lem t scale (total_weight ws) upper x ws it hx small some_weight good (omega arith)

  total_of :
      lo ≤ℤ hi
      → between (sum_at true hi) (sum_at false lo) (hi -ℤ lo +ℤ pos 1)
        ≡ sum_at true hi / 4294967295 - sum_at false lo / 4294967295 + (distance lo hi + 1)
  total_of h =
      ap (between (sum_at true hi) (sum_at false lo)) (distance_next lo hi h)
      ∙ between_lem (sum_at true hi) (sum_at false lo) (distance lo hi + 1) (from_below true hi h)
          (sum_at-le true hi) (omega (arith, distance_fits lo hi lo16 hi16))

  low_of :
      (x : ℤ)
      → IsInt16 x
      → lo ≤ℤ x
      → between (sum_at false x) (sum_at false lo) (x -ℤ lo)
        ≡ sum_at false x / 4294967295 - sum_at false lo / 4294967295 + distance lo x
  low_of x hx h =
      ap (between (sum_at false x) (sum_at false lo)) (distance_lem lo x h)
      ∙ between_lem (sum_at false x) (sum_at false lo) (distance lo x) (from_below false x h)
          (sum_at-le false x) (omega (arith, distance_fits lo x lo16 hx))

  high_of :
      (x : ℤ)
      → IsInt16 x
      → lo ≤ℤ x
      → between (sum_at true x) (sum_at false lo) (x -ℤ lo +ℤ pos 1)
        ≡ sum_at true x / 4294967295 - sum_at false lo / 4294967295 + (distance lo x + 1)
  high_of x hx h =
      ap (between (sum_at true x) (sum_at false lo)) (distance_next lo x h)
      ∙ between_lem (sum_at true x) (sum_at false lo) (distance lo x + 1) (from_below true x h)
          (sum_at-le true x) (omega (arith, distance_fits lo x lo16 hx))

  pub get_bound_lem :
      (x : ℤ)
      → lo ≤ℤ x
      → x ≤ℤ hi
      → get_bound t scale lo hi (ws, total_weight ws) x ≡ returns (symbol_of x)
  unfolding get_bound
  get_bound_lem x h h' =
      let hx = IsInt16-between x lo hi lo16 hi16 h h' in
      rw
        (
          cumulate_at false lo lo16,
          cumulate_at true hi hi16,
          cumulate_at false x hx,
          cumulate_at true x hx,
          total_of (omega (arith, h, h')),
          low_of x hx h,
          high_of x hx h,
        )
        refl

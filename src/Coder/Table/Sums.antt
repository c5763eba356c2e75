-- ===== src/Coder/Table/Sums.antt =====
-- The sums of get_bound: they end, and they grow with the indices.
use soc.Common.{
  ℕ, ◌+◌, ◌*◌, ◌/◌, ◌%◌, ◌^◌, ◌≤◌, ◌<◌, ◌≡◌, refl, ap, ◌∙◌, List, [], ◌∷◌, All, get_or, Bool, false,
  ◌==◌, arith,
}
use soc.Common.Effects.{returns, ℤ}
use soc.Common.Int.{pos_part, is_zero, div_mono}
use native.Mathlib.Nat.{mul-le-mul_right, div-mul-le_self, mul-le-mul_left}
use soc.Coder.Table.{Component, Tables, table_element, cdf_index, edge, cumulate}
use soc.Coder.Table.Index.{IsInt16, edge_of, edge_fits, cdf_index-le}
use soc.Coder.Table.Shares.{IsTables, table_element-lt, total_weight, components_of}

-- A density whose mean is an `int16_t` and whose deviation is positive.
pub record IsComponent (c : Component) : Type 0 where
  pub mean : IsInt16 c.mean
  pub std : 0 < pos_part c.std

-- The sums, by the index for each density.
unfoldable pub sum_of : Tables → ℕ → (Component → ℕ) → List (ℕ × Component) → ℕ
sum_of t prob_sum f [] = 0
sum_of t prob_sum f ((w, c) ∷ ws) =
    1000000 * get_or t.cdf_table (f c) 0 / prob_sum * w + sum_of t prob_sum f ws

abbrev pub index_of : ℕ → Bool → ℤ → Component → ℕ
index_of scale upper x c = cdf_index (edge_of upper x scale c.mean) c.std

term-le :
    (t : Tables) (sum i w : ℕ)
    → IsTables t
    → 0 < sum
    → i ≤ 100000
    → 1000000 * get_or t.cdf_table i 0 / sum * w ≤ 4294967295000000 / sum * w
term-le t sum i w it more h = mul-le-mul_right w (
    div_mono (1000000 * get_or t.cdf_table i 0) 4294967295000000 sum more
      (omega (arith, it.cdf_small i h)))

pub sum_of-le :
    (t : Tables) (sum : ℕ) (f : Component → ℕ) (ws : List (ℕ × Component))
    → IsTables t
    → 0 < sum
    → ((c : Component) → f c ≤ 100000)
    → sum_of t sum f ws ≤ 4294967295000000 / sum * total_weight ws
unfolding sum_of
sum_of-le t sum f [] it more h = omega arith
sum_of-le t sum f ((w, c) ∷ ws) it more h =
    omega (arith, term-le t sum (f c) w it more (h c), sum_of-le t sum f ws it more h)

pub sum_of_mono :
    (t : Tables) (sum : ℕ) (f g : Component → ℕ) (ws : List (ℕ × Component))
    → IsTables t
    → 0 < sum
    → All (λ c. (f c ≤ g c) × (g c ≤ 100000)) (components_of ws)
    → sum_of t sum f ws ≤ sum_of t sum g ws
unfolding sum_of
sum_of_mono t sum f g [] it more h = omega arith
sum_of_mono t sum f g ((w, c) ∷ ws) it more h =
    let term : 1000000 * get_or t.cdf_table (f c) 0 / sum * w
        ≤ 1000000 * get_or t.cdf_table (g c) 0 / sum * w =
      mul-le-mul_right w (
        div_mono (1000000 * get_or t.cdf_table (f c) 0) (1000000 * get_or t.cdf_table (g c) 0) sum
          more (omega (arith, it.cdf_grows (f c) (g c) h.0.0 h.0.1))) in
    omega (arith, term, sum_of_mono t sum f g ws it more h.1)

pub sum_of_fits :
    (t : Tables) (sum scale : ℕ) (upper : Bool) (x : ℤ) (ws : List (ℕ × Component))
    → IsTables t
    → 0 < sum
    → total_weight ws ≤ sum
    → sum_of t sum (index_of scale upper x) ws ≤ 4294967295000000
sum_of_fits t sum scale upper x ws it more part = omega (
  arith,
  sum_of-le t sum (index_of scale upper x) ws it more
      (λ c. cdf_index-le (edge_of upper x scale c.mean) c.std),
  mul-le-mul_left (4294967295000000 / sum) part,
  div-mul-le_self 4294967295000000 sum,
)

cumulate_end :
    (t : Tables) (scale sum : ℕ) (upper : Bool) (x : ℤ)
    → cumulate t scale upper x sum [] ≡ returns 0
unfolding cumulate
cumulate_end t scale sum upper x = refl

cumulate_step :
    (t : Tables) (scale sum w d : ℕ) (upper : Bool) (x : ℤ) (e : ℤ) (c : Component)
    (ws : List (ℕ × Component)) (rest : ℕ)
    → edge upper x scale c.mean ≡ returns e
    → is_zero c.std ≡ false
    → table_element t.cdf_table (cdf_index e c.std) ≡ returns d
    → cumulate t scale upper x sum ws ≡ returns rest
    → (sum == 0) ≡ false
    → cumulate t scale upper x sum ((w, c) ∷ ws)
      ≡ returns ((1000000 * d % 2 ^ 64 / sum * w + rest) % 2 ^ 64)
unfolding cumulate
cumulate_step t scale sum w d upper x e c ws rest he hz hd hr hs = rw (he, hz, hd, hr, hs) refl

no_wrap :
    (k m n w : ℕ)
    → k ≤ 4294967295
    → 1000000 * k / n * w + m ≤ 4294967295000000
    → (1000000 * k % 2 ^ 64 / n * w + m) % 2 ^ 64 ≡ 1000000 * k / n * w + m
no_wrap k m n w small fits =
    let whole : 1000000 * k % 2 ^ 64 ≡ 1000000 * k = omega arith in rw whole (omega arith)

pub cumulate_lem :
    (t : Tables) (scale sum : ℕ) (upper : Bool) (x : ℤ) (ws : List (ℕ × Component))
    → IsTables t
    → IsInt16 x
    → scale ≤ 16384
    → 0 < sum
    → All IsComponent (components_of ws)
    → total_weight ws ≤ sum
    → cumulate t scale upper x sum ws ≡ returns (sum_of t sum (index_of scale upper x) ws)
unfolding sum_of
cumulate_lem t scale sum upper x [] it hx small more good part = cumulate_end t scale sum upper x
cumulate_lem t scale sum upper x ((w, c) ∷ ws) it hx small more good part =
    let fits = sum_of_fits t sum scale upper x ((w, c) ∷ ws) it more part in
    let index = index_of scale upper x c in
    let small_index = cdf_index-le (edge_of upper x scale c.mean) c.std in
    cumulate_step t scale sum w (get_or t.cdf_table index 0) upper x (edge_of upper x scale c.mean)
      c ws (sum_of t sum (index_of scale upper x) ws)
      (edge_fits upper x scale c.mean hx good.0.mean small) (positive c good.0)
      (table_element-lt t.cdf_table index (omega (arith, small_index, it.cdf_size)))
      (cumulate_lem t scale sum upper x ws it hx small more good.1 (omega arith)) (ground arith)
    ∙ ap returns (no_wrap _ _ sum w (it.cdf_small index small_index) fits)
  where
    positive : (c : Component) → IsComponent c → is_zero c.std ≡ false
    positive c g = ground (arith, g.std)

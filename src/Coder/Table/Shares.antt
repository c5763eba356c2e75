-- ===== src/Coder/Table/Shares.antt =====
-- softmax: it ends, with a weight that is not 0.
use soc.Common.{
  ℕ, suc, zero, ◌+◌, ◌%◌, ◌≤◌, ◌<◌, ◌≡◌, refl, ap, sym, ◌∙◌, inl, inr, List, [], ◌∷◌, length, All,
  get_or, false, ◌==◌, arith,
}
use soc.Common.Effects.{returns, ℤ, pos}
use soc.Common.Int.{
  ◌+ℤ◌, ◌-ℤ◌, ◌*ℤ◌, ◌≤ℤ◌, quot, max_element, Among, max_element-le, max_element-Among,
  pos_part_mono, quot_mono, *ℤ_parts, int_laws,
}
use native.Mathlib.Nat.{zero-div}
use soc.Coder.Table.{Component, Tables, table_element, exp_index, weigh, probs_of, softmax}

-- What the coder relies on: entries for every index that it makes, a weight for the greatest
-- probability, and a distribution that grows, in `uint32_t`.
pub record IsTables (t : Tables) : Type 0 where
  pub exp_size : 12000 < length t.exp_table
  pub exp_last : 0 < get_or t.exp_table 12000 0
  pub cdf_size : 100000 < length t.cdf_table
  pub cdf_grows : (i j : ℕ) → i ≤ j → j ≤ 100000 → get_or t.cdf_table i 0 ≤ get_or t.cdf_table j 0
  pub cdf_small : (i : ℕ) → i ≤ 100000 → get_or t.cdf_table i 0 ≤ 4294967295

pub table_element-lt :
    (xs : List ℕ) (i : ℕ) → i < length xs → table_element xs i ≡ returns (get_or xs i 0)
unfolding table_element
table_element-lt [] i h = absurd (omega arith)
table_element-lt (x ∷ xs) zero h = refl
table_element-lt (x ∷ xs) (suc i) h = table_element-lt xs i (omega arith)

quot-zero : (s : ℕ) → quot (pos 0) (pos s) ≡ pos 0
unfolding quot
quot-zero s = ap pos (zero-div s)

exp_index-le : (mx : ℤ) (s : ℕ) (p : ℤ) → 0 < s → p ≤ℤ mx → exp_index mx s p ≤ 12000
unfolding exp_index
exp_index-le mx s p more h =
    pos_part_mono (quot ((p -ℤ mx) *ℤ pos 1000) (pos s) +ℤ pos 12000) (pos 12000)
      (omega (int_laws, below))
  where
    below : quot ((p -ℤ mx) *ℤ pos 1000) (pos s) ≤ℤ pos 0
    below = rw (quot-zero s) at (
        quot_mono ((p -ℤ mx) *ℤ pos 1000) (pos 0) s more
          (omega (int_laws, *ℤ_parts (p -ℤ mx) 1000)))

exp_index-max : (mx : ℤ) (s : ℕ) → exp_index mx s mx ≡ 12000
unfolding exp_index
exp_index-max mx s =
    let nothing : (mx -ℤ mx) *ℤ pos 1000 ≡ pos 0 = omega (int_laws, *ℤ_parts (mx -ℤ mx) 1000) in
    let all : pos 0 +ℤ pos 12000 ≡ pos 12000 = omega int_laws in rw (nothing, quot-zero s, all) refl

-- The sum of the weights.
abbrev pub total_weight : List (ℕ × Component) → ℕ
total_weight [] = 0
total_weight ((w, c) ∷ ws) = w + total_weight ws

abbrev pub components_of : List (ℕ × Component) → List Component
components_of [] = []
components_of ((w, c) ∷ ws) = c ∷ components_of ws

weigh_lem :
    (t : Tables) (mx : ℤ) (s : ℕ) (cs : List Component)
    → IsTables t
    → 0 < s
    → All (λ p. p ≤ℤ mx) (probs_of cs)
    → (ws : List (ℕ × Component)) × (weigh t mx s cs ≡ returns (ws, total_weight ws))
      × (components_of ws ≡ cs)
      × (Among mx (probs_of cs) → 0 < total_weight ws)
unfolding weigh
weigh_lem t mx s [] i more h = ([], refl, refl, λ a. absurd a)
weigh_lem t mx s (c ∷ cs) i more h =
    let (ws, e, same, some_weight) = weigh_lem t mx s cs i more h.1 in
    let weight : ℕ = get_or t.exp_table (exp_index mx s c.prob) 0 in
    let found : table_element t.exp_table (exp_index mx s c.prob) ≡ returns weight =
      table_element-lt t.exp_table (exp_index mx s c.prob)
        (omega (arith, exp_index-le mx s c.prob more h.0, i.exp_size)) in
    (
      (weight, c) ∷ ws,
      rw (found, e) refl,
      ap (◌∷◌ c) same,
      λ a. elim a [
        | inl this ↦
            let greatest : weight ≡ get_or t.exp_table 12000 0 =
              ap (λ p. get_or t.exp_table (exp_index mx s p) 0) (sym this)
              ∙ ap (λ k. get_or t.exp_table k 0) (exp_index-max mx s) in
            omega (arith, i.exp_last, greatest)
        | inr later ↦ omega (arith, some_weight later)
      ],
    )

pub softmax_lem :
    (t : Tables) (scale : ℕ) (c : Component) (cs : List Component)
    → IsTables t
    → 0 < scale
    → scale ≤ 16384
    → (ws : List (ℕ × Component)) × (softmax t scale (c ∷ cs) ≡ returns (ws, total_weight ws))
      × (components_of ws ≡ c ∷ cs)
      × (0 < total_weight ws)
unfolding softmax
softmax_lem t scale c cs i more small =
    let nonzero : (scale % 65536 == 0) ≡ false = ground arith in
    let mx : ℤ = max_element c.prob (probs_of cs) in
    let (ws, e, same, some_weight) =
      weigh_lem t mx (scale % 65536) (c ∷ cs) i (omega arith)
        (max_element-le c.prob (probs_of cs)) in
    (ws, rw nonzero e, same, some_weight (max_element-Among c.prob (probs_of cs)))

-- ===== src/Coder/Codings/Differ.antt =====
-- Channels that differ, with the same entries and extremes, have symbols that differ.
use soc.Common.{
  ℕ, ◌≤◌, ◌<◌, ◌≡◌, refl, ap, ap₂, sym, subst, ◌∙◌, ◌⊎◌, inl, inr, List, [], ◌∷◌, ◌++◌, length, All,
  Bool-cases, ltb→lt, append_assoc, arith,
}
use soc.Common.Effects.{ℤ}
use soc.Common.Int.{◌≤ℤ◌, ◌<ℤ◌, leb_ℤ, ltb_ℤ, eq_of_parts}
use soc.Protocol.Gmm.{GmmT}
use soc.Coder.{Symbol}
use soc.Coder.Table.{Tables}
use soc.Coder.Table.Index.{IsInt16}
use soc.Coder.Table.Shares.{IsTables}
use soc.Coder.Codings.Symbols.{
  share_at, data_symbols, least, greatest, channel_symbols, IsEntry, InRange, InRange-extremes,
  greatest-IsInt16, least-IsInt16, share_at_apart,
}

-- The first two symbols that differ have disjoint shares of one total.
pub record Differ (xs ys : List Symbol) : Type 0 where
  pub common : List Symbol
  pub one : Symbol
  pub other : Symbol
  pub one_rest : List Symbol
  pub other_rest : List Symbol
  pub one_whole : xs ≡ common ++ one ∷ one_rest
  pub other_whole : ys ≡ common ++ other ∷ other_rest
  pub totals : one.total ≡ other.total
  pub apart : (one.sym_high ≤ other.sym_low) ⊎ (other.sym_high ≤ one.sym_low)

Differ-here :
    (s s' : Symbol) (xs ys : List Symbol)
    → s.total ≡ s'.total
    → (s.sym_high ≤ s'.sym_low) ⊎ (s'.sym_high ≤ s.sym_low)
    → Differ (s ∷ xs) (s' ∷ ys)
Differ-here s s' xs ys same apart = record {
  common = [];
  one = s;
  other = s';
  one_rest = xs;
  other_rest = ys;
  one_whole = refl;
  other_whole = refl;
  totals = same;
  apart = apart;
}

Differ-later : (s : Symbol) (xs ys : List Symbol) → Differ xs ys → Differ (s ∷ xs) (s ∷ ys)
Differ-later s xs ys d = record {
  common = s ∷ d.common;
  one = d.one;
  other = d.other;
  one_rest = d.one_rest;
  other_rest = d.other_rest;
  one_whole = ap (◌∷◌ s) d.one_whole;
  other_whole = ap (◌∷◌ s) d.other_whole;
  totals = d.totals;
  apart = d.apart;
}

pub Differ-after : (zs xs ys : List Symbol) → Differ xs ys → Differ (zs ++ xs) (zs ++ ys)
Differ-after [] xs ys d = d
Differ-after (z ∷ zs) xs ys d = Differ-later z (zs ++ xs) (zs ++ ys) (Differ-after zs xs ys d)

pub Differ-append : (xs ys us vs : List Symbol) → Differ xs ys → Differ (xs ++ us) (ys ++ vs)
Differ-append xs ys us vs d = record {
  common = d.common;
  one = d.one;
  other = d.other;
  one_rest = d.one_rest ++ us;
  other_rest = d.other_rest ++ vs;
  one_whole = ap (λ zs. zs ++ us) d.one_whole ∙ append_assoc d.common (d.one ∷ d.one_rest) us;
  other_whole =
      ap (λ zs. zs ++ vs) d.other_whole ∙ append_assoc d.common (d.other ∷ d.other_rest) vs;
  totals = d.totals;
  apart = d.apart;
}

compare_ℤ : (a b : ℤ) → (a ≡ b) ⊎ (a <ℤ b) ⊎ (b <ℤ a)
compare_ℤ a b = elim (Bool-cases (ltb_ℤ a b)) [
  | inl less ↦ inr (inl (ltb→lt _ _ less))
  | inr not_less ↦ elim (Bool-cases (ltb_ℤ b a)) [
    | inl more ↦ inr (inr (ltb→lt _ _ more))
    | inr not_more ↦ inl (eq_of_parts a b (ground arith))
  ]
]

module _ (t : Tables) (scale : ℕ) (it : IsTables t) (more : 0 < scale) (small : scale ≤ 16384) where
  module _ (lo hi : ℤ) (lo16 : IsInt16 lo) (hi16 : IsInt16 hi) where
    data-Differ :
        (gmm : List GmmT) (xs ys : List ℤ)
        → length xs ≡ length ys
        → length xs ≤ length gmm
        → All IsEntry gmm
        → All (InRange lo hi) xs
        → All (InRange lo hi) ys
        → (xs ≡ ys) ⊎ Differ (data_symbols t scale lo hi gmm xs) (data_symbols t scale lo hi gmm ys)
    data-Differ gmm [] [] same enough good hx hy = inl refl
    data-Differ gmm [] (y ∷ ys) same enough good hx hy = absurd (omega arith)
    data-Differ gmm (x ∷ xs) [] same enough good hx hy = absurd (omega arith)
    data-Differ [] (x ∷ xs) (y ∷ ys) same enough good hx hy = absurd (omega arith)
    data-Differ (g ∷ gmm) (x ∷ xs) (y ∷ ys) same enough good hx hy = elim (compare_ℤ x y) [
      | inl e ↦ elim (data-Differ gmm xs ys (omega arith) (omega arith) good.1 hx.1 hy.1) [
        | inl rest ↦ inl (ap₂ ◌∷◌ e rest)
        | inr d ↦ inr (
            subst
              (λ z.
                Differ (data_symbols t scale lo hi (g ∷ gmm) (x ∷ xs))
                  (share_at t scale lo hi g z ∷ data_symbols t scale lo hi gmm ys))
              e (Differ-later (share_at t scale lo hi g x) _ _ d))
      ]
      | inr (inl less) ↦
          let (totals, apart) =
            share_at_apart t scale lo hi it more small lo16 hi16 g good.0 x y hx.0.0 less hy.0.1 in
          inr (Differ-here _ _ _ _ totals (inl apart))
      | inr (inr greater) ↦
          let (totals, apart) =
            share_at_apart t scale lo hi it more small lo16 hi16 g good.0 y x hy.0.0 greater
              hx.0.1 in
          inr (Differ-here _ _ _ _ (sym totals) (inr apart))
    ]

  one_value :
      (lo hi : ℤ) (xs ys : List ℤ)
      → hi ≤ℤ lo
      → length xs ≡ length ys
      → All (InRange lo hi) xs
      → All (InRange lo hi) ys
      → xs ≡ ys
  one_value lo hi [] [] one same hx hy = refl
  one_value lo hi [] (y ∷ ys) one same hx hy = absurd (omega arith)
  one_value lo hi (x ∷ xs) [] one same hx hy = absurd (omega arith)
  one_value lo hi (x ∷ xs) (y ∷ ys) one same hx hy =
      ap₂ ◌∷◌ (eq_of_parts x y (omega (arith, one, hx.0, hy.0)))
        (one_value lo hi xs ys one (omega arith) hx.1 hy.1)

  pub channel-Differ :
      (gmm : List GmmT) (xs ys : List ℤ)
      → length xs ≡ length ys
      → length xs ≤ length gmm
      → All IsEntry gmm
      → All IsInt16 xs
      → least xs ≡ least ys
      → greatest xs ≡ greatest ys
      → (xs ≡ ys) ⊎ Differ (channel_symbols t scale gmm xs) (channel_symbols t scale gmm ys)
  channel-Differ gmm xs ys same enough good bits low high =
      let inside : All (InRange (least xs) (greatest xs)) ys =
        subst (λ h. All (InRange (least xs) h) ys) (sym high)
          (subst (λ l. All (InRange l (greatest ys)) ys) (sym low) (InRange-extremes ys)) in
      elim (Bool-cases (leb_ℤ (greatest xs) (least xs))) [
        | inl one ↦ inl (
            one_value (least xs) (greatest xs) xs ys (ground arith) same (InRange-extremes xs)
              inside)
        | inr more_values ↦
            rw (← low, ← high, more_values)
              (data-Differ (least xs) (greatest xs) (least-IsInt16 xs bits)
                (greatest-IsInt16 xs bits) gmm xs ys same enough good (InRange-extremes xs) inside)
      ]

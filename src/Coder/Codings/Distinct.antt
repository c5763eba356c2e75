-- ===== src/Coder/Codings/Distinct.antt =====
-- `codings` loses nothing: channels that differ in a value have results that differ.
use soc.Common.{
  ℕ, ◌*◌, ◌^◌, ◌≤◌, ◌<◌, ◌≡◌, ◌≢◌, refl, ap, ap₂, sym, subst, ◌∙◌, ◌⊎◌, inl, inr, List, [], ◌∷◌,
  ◌++◌, length, length-append, All, All-parts, take-append, drop-append, take, drop, some, Bool,
  arith,
}
use soc.Common.Effects.{ℤ, pos, negsuc, returns, some_of_returns}
use soc.Protocol.Words.{store16}
use soc.Coder.{Symbol, BitOutputStream, encode_symbols}
use soc.Coder.Update.{IsSymbol}
use soc.Coder.Distinct.{encode_symbols-differ}
use soc.Coder.Message.{encode_symbols-Decodes}
use soc.Coder.Table.{Tables}
use soc.Coder.Table.Index.{IsInt16}
use soc.Coder.Table.Shares.{IsTables}
use soc.Coder.Codings.{Channel, CodingResult, codings, bits16}
use soc.Coder.Codings.Symbols.{
  all_symbols, channel_symbols, header_of, IsChannel, least, greatest, least-IsInt16,
  greatest-IsInt16,
}
use soc.Coder.Codings.Channels.{all_symbols-IsSymbol, length-all_symbols, length-header_of}
use soc.Coder.Codings.Differ.{Differ, Differ-after, Differ-append, channel-Differ}
use soc.Coder.Codings.Result.{IsInput, codings_lem}

-- Channels with the same entries and as many values.
abbrev pub Alike : List Channel → List Channel → Type 0
Alike [] [] = Unit
Alike [] (d ∷ ds) = ⊥
Alike (c ∷ cs) [] = ⊥
Alike (c ∷ cs) (d ∷ ds) = ((c.gmm ≡ d.gmm) × (length c.datum ≡ length d.datum)) × Alike cs ds

bits16-lt : (a : ℤ) → bits16 a < 65536
bits16-lt (pos n) = omega arith
bits16-lt (negsuc n) = omega arith

bits16-injective : (a b : ℤ) → IsInt16 a → IsInt16 b → bits16 a ≡ bits16 b → a ≡ b
bits16-injective (pos m) (pos n) ha hb e = ap pos (omega (arith, e, ha.below, hb.below))
bits16-injective (pos m) (negsuc n) ha hb e = absurd (omega (arith, e, ha.below, hb.above))
bits16-injective (negsuc m) (pos n) ha hb e = absurd (omega (arith, e, ha.above, hb.below))
bits16-injective (negsuc m) (negsuc n) ha hb e = ap negsuc (omega (arith, e, ha.above, hb.above))

cons_parts : (x y : ℕ) (xs ys : List ℕ) → x ∷ xs ≡ y ∷ ys → (x ≡ y) × (xs ≡ ys)
cons_parts x y xs ys e = (cc, cc)

store16-injective :
    (a b : ℤ) (xs ys : List ℕ)
    → IsInt16 a
    → IsInt16 b
    → store16 (bits16 a) xs ≡ store16 (bits16 b) ys
    → (a ≡ b) × (xs ≡ ys)
store16-injective a b xs ys ha hb e =
    let (low, rest) = cons_parts _ _ _ _ e in
    let (high, same) = cons_parts _ _ _ _ rest in
    (bits16-injective a b ha hb (omega (arith, low, high, bits16-lt a, bits16-lt b)), same)

append_parts :
    (xs ys us vs : List ℕ) → length xs ≡ length ys → xs ++ us ≡ ys ++ vs → (xs ≡ ys) × (us ≡ vs)
append_parts xs ys us vs same e = (
  sym (take-append xs us (length xs) refl)
      ∙ ap (take (length xs)) e
      ∙ take-append ys vs (length xs) (sym same),
  sym (drop-append xs us (length xs) refl)
      ∙ ap (drop (length xs)) e
      ∙ drop-append ys vs (length xs) (sym same),
)

Alike-length : (cs ds : List Channel) → Alike cs ds → length cs ≡ length ds
Alike-length [] [] h = refl
Alike-length [] (d ∷ ds) h = absurd h
Alike-length (c ∷ cs) [] h = absurd h
Alike-length (c ∷ cs) (d ∷ ds) h = omega (arith, Alike-length cs ds h.1)

module _ (t : Tables) (scale : ℕ) (it : IsTables t) (more : 0 < scale) (small : scale ≤ 16384) where
  -- With the same header, channels are the same or their symbols differ.
  channels-Differ :
      (cs ds : List Channel)
      → Alike cs ds
      → All IsChannel cs
      → All IsChannel ds
      → header_of cs ≡ header_of ds
      → (cs ≡ ds) ⊎ Differ (all_symbols t scale cs) (all_symbols t scale ds)
  channels-Differ [] [] h good good' e = inl refl
  channels-Differ [] (d ∷ ds) h good good' e = absurd h
  channels-Differ (c ∷ cs) [] h good good' e = absurd h
  channels-Differ (c ∷ cs) (d ∷ ds) h good good' e =
      let (low, after) =
        store16-injective (least c.datum) (least d.datum) _ _
          (least-IsInt16 c.datum good.0.in_16_bits) (least-IsInt16 d.datum good'.0.in_16_bits) e in
      let (high, rest) =
        store16-injective (greatest c.datum) (greatest d.datum) (header_of cs) (header_of ds)
          (greatest-IsInt16 c.datum good.0.in_16_bits) (greatest-IsInt16 d.datum good'.0.in_16_bits)
          after in
      let here =
        channel-Differ t scale it more small c.gmm c.datum d.datum h.0.1 good.0.enough_entries
          good.0.entries good.0.in_16_bits low high in
      joined c d cs ds h.0.0 here (channels-Differ cs ds h.1 good.1 good'.1 rest)
    where
      joined :
          (c d : Channel) (cs ds : List Channel)
          → c.gmm ≡ d.gmm
          → (c.datum ≡ d.datum)
            ⊎ Differ (channel_symbols t scale c.gmm c.datum) (channel_symbols t scale c.gmm d.datum)
          → (cs ≡ ds) ⊎ Differ (all_symbols t scale cs) (all_symbols t scale ds)
          → (c ∷ cs ≡ d ∷ ds) ⊎ Differ (all_symbols t scale (c ∷ cs)) (all_symbols t scale (d ∷ ds))
      joined c d cs ds same (inl e) (inl e') =
          inl (ap₂ ◌∷◌ (ap₂ (λ g x. record { gmm = g; datum = x }) same e) e')
      joined c d cs ds same (inl e) (inr later) = inr (
          subst (λ xs. Differ (all_symbols t scale (c ∷ cs)) (xs ++ all_symbols t scale ds))
            (ap₂ (channel_symbols t scale) same e)
            (Differ-after (channel_symbols t scale c.gmm c.datum) _ _ later))
      joined c d cs ds same (inr here) later = inr (
          subst
            (λ g.
              Differ (all_symbols t scale (c ∷ cs))
                (channel_symbols t scale g d.datum ++ all_symbols t scale ds))
            same (Differ-append _ _ (all_symbols t scale cs) (all_symbols t scale ds) here))

length-parts :
    (xs common rest : List Symbol) (s : Symbol)
    → xs ≡ common ++ s ∷ rest
    → length xs < 2 ^ 57
    → (length common < 2 ^ 57) × (length (s ∷ rest) < 2 ^ 57)
length-parts xs common rest s e small =
    let whole = ap length e ∙ length-append common (s ∷ rest) in
    (omega (arith, whole, small), omega (arith, whole, small))

codes-Differ :
    (xs ys : List Symbol) (out out' : BitOutputStream)
    → Differ xs ys
    → All IsSymbol xs
    → All IsSymbol ys
    → length xs < 2 ^ 57
    → length ys < 2 ^ 57
    → encode_symbols 33 xs ≡ returns (some out)
    → encode_symbols 33 ys ≡ returns (some out')
    → out.bytes ≢ out'.bytes
codes-Differ xs ys out out' d vx vy few_x few_y r r' =
    let (vc, vs) =
      All-parts IsSymbol d.common (d.one ∷ d.one_rest) (subst (All IsSymbol) d.one_whole vx) in
    let vt =
      (All-parts IsSymbol d.common (d.other ∷ d.other_rest)
        (subst (All IsSymbol) d.other_whole vy)).1 in
    let (few_c, few_s) = length-parts xs d.common d.one_rest d.one d.one_whole few_x in
    let few_t = (length-parts ys d.common d.other_rest d.other d.other_whole few_y).1 in
    let run = ap (encode_symbols 33) (sym d.one_whole) ∙ r in
    let run' = ap (encode_symbols 33) (sym d.other_whole) ∙ r' in
    elim d.apart [
      | inl before ↦
          encode_symbols-differ d.common d.one_rest d.other_rest d.one d.other out out' vc vs vt
            few_c few_s few_t d.totals before run run'
      | inr after ↦ λ same.
          encode_symbols-differ d.common d.other_rest d.one_rest d.other d.one out' out vc vt vs
            few_c few_t few_s (sym d.totals) after run' run (sym same)
    ]

-- On good inputs with the same tables, scale, entries and numbers of values, `codings` has the same
-- outcome only for the same values: header and code determine every value of every channel.
pub codings-injective :
    (allocates : ℕ → Bool) (t : Tables) (scale : ℕ) (channels channels' : List Channel)
    → IsInput allocates t scale channels
    → IsInput allocates t scale channels'
    → Alike channels channels'
    → codings 33 allocates t scale channels ≡ codings 33 allocates t scale channels'
    → channels ≡ channels'
codings-injective allocates t scale channels channels' i j alike e =
    let vx = all_symbols-IsSymbol t scale i.tables i.some_scale i.small_scale channels i.good in
    let vy = all_symbols-IsSymbol t scale i.tables i.some_scale i.small_scale channels' j.good in
    let few_x = length-all_symbols t scale i.tables i.some_scale i.small_scale channels i.good in
    let few_y = length-all_symbols t scale i.tables i.some_scale i.small_scale channels' j.good in
    let (out, r, whole, decodes) =
      encode_symbols-Decodes (all_symbols t scale channels) vx (omega (arith, few_x, i.few)) in
    let (out', r', whole', decodes') =
      encode_symbols-Decodes (all_symbols t scale channels') vy (omega (arith, few_y, j.few)) in
    let (run, fits) = codings_lem allocates t scale channels out i r in
    let (run', fits') = codings_lem allocates t scale channels' out' j r' in
    let same = some_of_returns _ _ (sym run ∙ e ∙ run') in
    let (headers, codes) =
      append_parts (header_of channels) (header_of channels') out.bytes out'.bytes
        (length-header_of channels
          ∙ ap (λ (n : ℕ). 4 * n) (Alike-length channels channels' alike)
          ∙ sym (length-header_of channels'))
        (ap CodingResult.data_bytes same) in
    elim (channels-Differ t scale i.tables i.some_scale i.small_scale channels channels' alike
      i.good j.good headers) [
        | inl equal ↦ equal
        | inr d ↦ absurd (
            codes-Differ _ _ out out' d vx vy (omega (arith, few_x, i.few))
              (omega (arith, few_y, j.few)) r r' codes)
      ]

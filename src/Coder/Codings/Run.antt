-- ===== src/Coder/Codings/Run.antt =====
-- `codings` hands the symbols of the channels to the coder and puts the extremes before the code.
use soc.Common.{
  ℕ, suc, zero, ◌+◌, ◌-◌, ◌*◌, ◌%◌, ◌^◌, ◌≤◌, ◌<◌, ◌≡◌, refl, ap, sym, ◌∙◌, List, [], ◌∷◌, length,
  take, All, if◌then◌else◌, Bool, Bool-cases, true, false, inl, inr, Option, some, none, leb, arith,
}
use soc.Common.Effects.{Call, returns, exits, faults, ◌>?>◌, ℤ}
use soc.Common.Int.{leb_ℤ, max_element, min_element}
use soc.Protocol.Gmm.{GmmT}
use soc.Coder.{Symbol, ArithmeticEncoder, write_symbols, update}
use soc.Coder.Decode.{write_symbols_end}
use soc.Coder.Update.{IsSymbol}
use soc.Coder.Table.{Tables, enc_symbol}
use soc.Coder.Table.Index.{IsInt16}
use soc.Coder.Table.Shares.{IsTables}
use soc.Coder.Codings.{
  mixture_first, mixture_rest, extremes, code_data, code_extremes, code_channel,
}
use soc.Coder.Codings.Symbols.{
  share_at, data_symbols, least, greatest, channel_symbols, IsEntry, InRange, InRange-extremes,
  greatest-IsInt16, least-IsInt16, share_at_lem, share_at-IsSymbol,
}

code_data_end :
    (t : Tables) (scale : ℕ) (lo hi : ℤ) (gmm : List GmmT) (e : ArithmeticEncoder)
    → code_data 33 t scale lo hi gmm [] e ≡ returns (some e)
unfolding code_data
code_data_end t scale lo hi gmm e = refl

code_data_step :
    (t : Tables) (scale : ℕ) (lo hi : ℤ) (g : GmmT) (gmm : List GmmT) (x : ℤ) (datum : List ℤ)
    (s : Symbol) (symbols : List Symbol) (e : ArithmeticEncoder)
    → enc_symbol t scale lo hi (mixture_first g ∷ mixture_rest g) x ≡ returns s
    → ((e1 : ArithmeticEncoder)
        → code_data 33 t scale lo hi gmm datum e1 ≡ write_symbols 33 symbols e1)
    → code_data 33 t scale lo hi (g ∷ gmm) (x ∷ datum) e ≡ write_symbols 33 (s ∷ symbols) e
unfolding code_data write_symbols
code_data_step t scale lo hi g gmm x datum s symbols e r h = rw r (same (update 33 s e))
  where
    same :
        (m : Call (Option ArithmeticEncoder))
        → (m >?> λ e1. code_data 33 t scale lo hi gmm datum e1)
          ≡ (m >?> λ e1. write_symbols 33 symbols e1)
    same (returns none) = refl
    same (returns (some e1)) = h e1
    same exits = refl
    same faults = refl

length-data_symbols :
    (t : Tables) (scale : ℕ) (lo hi : ℤ) (gmm : List GmmT) (datum : List ℤ)
    → length (data_symbols t scale lo hi gmm datum) ≤ length datum
length-data_symbols t scale lo hi gmm [] = omega arith
length-data_symbols t scale lo hi [] (x ∷ datum) = omega arith
length-data_symbols t scale lo hi (g ∷ gmm) (x ∷ datum) =
    omega (arith, length-data_symbols t scale lo hi gmm datum)

module _ (t : Tables) (scale : ℕ) (it : IsTables t) (more : 0 < scale) (small : scale ≤ 16384) where
  module _ (lo hi : ℤ) (lo16 : IsInt16 lo) (hi16 : IsInt16 hi) where
    code_data_lem :
        (gmm : List GmmT) (datum : List ℤ) (e : ArithmeticEncoder)
        → length datum ≤ length gmm
        → All IsEntry gmm
        → All (InRange lo hi) datum
        → code_data 33 t scale lo hi gmm datum e
          ≡ write_symbols 33 (data_symbols t scale lo hi gmm datum) e
    code_data_lem gmm [] e enough good inside =
        code_data_end t scale lo hi gmm e ∙ sym (write_symbols_end 33 e)
    code_data_lem [] (x ∷ datum) e enough good inside = absurd (omega arith)
    code_data_lem (g ∷ gmm) (x ∷ datum) e enough good inside =
        code_data_step t scale lo hi g gmm x datum (share_at t scale lo hi g x)
          (data_symbols t scale lo hi gmm datum) e
          (share_at_lem t scale lo hi it more small lo16 hi16 g good.0 x inside.0.0 inside.0.1)
          (λ e1. code_data_lem gmm datum e1 (omega arith) good.1 inside.1)

    data_symbols-IsSymbol :
        (gmm : List GmmT) (datum : List ℤ)
        → All IsEntry gmm
        → All (InRange lo hi) datum
        → All IsSymbol (data_symbols t scale lo hi gmm datum)
    data_symbols-IsSymbol gmm [] good inside = tt
    data_symbols-IsSymbol [] (x ∷ datum) good inside = tt
    data_symbols-IsSymbol (g ∷ gmm) (x ∷ datum) good inside = (
      share_at-IsSymbol t scale lo hi it more small lo16 hi16 g good.0 x inside.0.0 inside.0.1,
      data_symbols-IsSymbol gmm datum good.1 inside.1,
    )

  take_all : (n : ℕ) (xs : List ℤ) → n ≡ length xs → take n xs ≡ xs
  take_all zero [] e = refl
  take_all zero (x ∷ xs) e = absurd (omega arith)
  take_all (suc n) [] e = refl
  take_all (suc n) (x ∷ xs) e = ap (◌∷◌ x) (take_all n xs (omega arith))

  code_extremes_lem :
      (gmm : List GmmT) (datum : List ℤ) (e : ArithmeticEncoder)
      → All IsInt16 datum
      → length datum ≤ length gmm
      → All IsEntry gmm
      → code_extremes 33 t scale gmm datum e (least datum) (greatest datum) ≡ (
          write_symbols 33 (channel_symbols t scale gmm datum) e >?> λ e1.
          returns (some (extremes (least datum) (greatest datum), e1)))
  unfolding code_extremes
  code_extremes_lem gmm datum e bits enough good =
      elim (Bool-cases (leb_ℤ (greatest datum) (least datum))) [
        | inl one ↦ rw (one, write_symbols_end 33 e) refl
        | inr more_values ↦
            rw
              (
                more_values,
                code_data_lem (least datum) (greatest datum) (least-IsInt16 datum bits)
                    (greatest-IsInt16 datum bits) gmm datum e enough good (InRange-extremes datum),
              )
              refl
      ]

  code_channel_whole :
      (gmm : List GmmT) (x : ℤ) (datum : List ℤ) (e : ArithmeticEncoder)
      → suc (length datum) < 2 ^ 31
      → code_channel 33 t scale gmm (x ∷ datum) e
        ≡ code_extremes 33 t scale gmm (x ∷ datum) e (min_element x datum) (max_element x datum)
  unfolding code_channel
  code_channel_whole gmm x datum e few =
      let signed : leb (2 ^ 31) (suc (length datum) % 2 ^ 32) ≡ false = ground arith in
      let others : take (suc (length datum) % 2 ^ 32 - 1) datum ≡ datum =
        take_all _ datum (omega arith) in
      let all : take (suc (length datum) % 2 ^ 32) (x ∷ datum) ≡ x ∷ datum =
        take_all _ (x ∷ datum) (omega arith) in
      rw (signed, others, all) refl

  -- A channel: its data become symbols, and its extremes stand in the header.
  pub code_channel_lem :
      (gmm : List GmmT) (datum : List ℤ) (e : ArithmeticEncoder)
      → 0 < length datum
      → length datum < 2 ^ 31
      → All IsInt16 datum
      → length datum ≤ length gmm
      → All IsEntry gmm
      → code_channel 33 t scale gmm datum e ≡ (
          write_symbols 33 (channel_symbols t scale gmm datum) e >?> λ e1.
          returns (some (extremes (least datum) (greatest datum), e1)))
  code_channel_lem gmm [] e some_data few bits enough good = absurd (omega arith)
  code_channel_lem gmm (x ∷ datum) e some_data few bits enough good =
      code_channel_whole gmm x datum e few ∙ code_extremes_lem gmm (x ∷ datum) e bits enough good

  pub channel_symbols-IsSymbol :
      (gmm : List GmmT) (datum : List ℤ)
      → All IsInt16 datum
      → All IsEntry gmm
      → All IsSymbol (channel_symbols t scale gmm datum)
  channel_symbols-IsSymbol gmm datum bits good =
      elim (Bool-cases (leb_ℤ (greatest datum) (least datum))) [
        | inl one ↦ rw one tt
        | inr more ↦ rw more (
            data_symbols-IsSymbol (least datum) (greatest datum) (least-IsInt16 datum bits)
              (greatest-IsInt16 datum bits) gmm datum good (InRange-extremes datum))
      ]

  length-if :
      (one : Bool) (gmm : List GmmT) (datum : List ℤ)
      → length (if one then [] else data_symbols t scale (least datum) (greatest datum) gmm datum)
        ≤ length datum
  length-if true gmm datum = omega arith
  length-if false gmm datum = length-data_symbols t scale (least datum) (greatest datum) gmm datum

  -- One datum alone is no symbol.
  pub length-channel_symbols :
      (gmm : List GmmT) (datum : List ℤ)
      → All IsInt16 datum
      → 0 < length datum
      → (length (channel_symbols t scale gmm datum) ≤ length datum)
        × (length (channel_symbols t scale gmm datum) + 2 ≤ 2 * length datum)
  unfolding max_element min_element
  length-channel_symbols gmm [] bits some_data = absurd (omega arith)
  length-channel_symbols gmm (x ∷ []) bits some_data =
      let one : leb_ℤ x x ≡ true = ground arith in rw one (omega arith, omega arith)
  length-channel_symbols gmm (x ∷ y ∷ datum) bits some_data =
      let fewer =
        length-if (leb_ℤ (greatest (x ∷ y ∷ datum)) (least (x ∷ y ∷ datum))) gmm (x ∷ y ∷ datum) in
      (fewer, omega (arith, fewer))

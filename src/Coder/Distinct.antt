-- ===== src/Coder/Distinct.antt =====
-- Messages that differ are encoded into different bytes.
use soc.Common.{
  ℕ, ◌+◌, ◌-◌, ◌*◌, ◌/◌, ◌^◌, ◌≤◌, ◌<◌, ◌≡◌, ◌≢◌, refl, sym, subst, ◌∙◌, List, ◌∷◌, length, All,
  some, Option, none, [], ◌++◌, arith,
}
use soc.Common.Effects.{Call, returns, exits, faults, ◌>?>◌}
use soc.Coder.{
  ArithmeticEncoder, BitOutputStream, Symbol, new_encoder, write_symbols, encode_symbols, update,
}
use soc.Coder.Stream.{bytes_value}
use soc.Coder.Interval.{Interval, Inside, Decodes, parts, share}
use soc.Coder.Rescale.{interval}
use soc.Coder.Update.{IsSymbol, IsReady, div-lt-div}
use soc.Coder.Decode.{write_symbols_lem}
use native.Mathlib.Nat.{mul-le-mul_right, le-div_iff_mul-le, div-mul-le_self}
use soc.Coder.Message.{CodeInside, new_encoder-IsReady, encode_symbols_step, finish_message}

div-le-div : (a b r t : ℕ) → 0 < t → a ≤ b → a * r / t ≤ b * r / t
div-le-div a b r t pos less =
    (le-div_iff_mul-le pos).1 (omega (arith, div-mul-le_self (a * r) t, mul-le-mul_right r less))

some_out :
    (out out' : BitOutputStream)
    → ◌≡◌ {A = Call (Option BitOutputStream)} (returns (some out)) (returns (some out'))
    → out ≡ out'
some_out out out' e = cc

-- A fraction lies in one share of an interval at most.
disjoint_shares :
    (c d : ℕ) (i : Interval) (s t : Symbol)
    → IsSymbol s
    → s.total ≤ i.width
    → s.total ≡ t.total
    → s.sym_high ≤ t.sym_low
    → Inside c d (share s i)
    → Inside c d (share t i)
    → ⊥
disjoint_shares c d i s t v wide same apart h g = absurd (
    omega (
      arith,
      h.below,
      g.above,
      parts_ordered,
      mul-le-mul_right
          {m = i.lowest + parts s.sym_low s i + (parts s.sym_high s i - parts s.sym_low s i)}
          {n = i.lowest + parts t.sym_low t i} d (omega (arith, parts_ordered, parts_after)),
    ))
  where
    parts_ordered : parts s.sym_low s i < parts s.sym_high s i
    parts_ordered =
        div-lt-div s.sym_low s.sym_high i.width s.total (omega (arith, v.some_share, v.inside)) wide
          v.some_share

    parts_after : parts s.sym_high s i ≤ parts t.sym_low t i
    parts_after = rw (← same) (
        div-le-div s.sym_high t.sym_low i.width s.total (omega (arith, v.some_share, v.inside))
          apart)

Decodes-first :
    {c d : ℕ} {i : Interval} {s : Symbol} {symbols : List Symbol}
    → Decodes c d i (s ∷ symbols)
    → Inside c d (share s i)
Decodes-first (Decodes.next inside k e wide rest) = inside

pub then_assoc :
    {A B C : Type 0} (m : Call (Option A)) (f : A → Call (Option B)) (g : B → Call (Option C))
    (h : A → Call (Option C))
    → ((a : A) → h a ≡ (f a >?> g))
    → (m >?> h) ≡ ((m >?> f) >?> g)
then_assoc (returns none) f g h e = refl
then_assoc (returns (some a)) f g h e = e a
then_assoc exits f g h e = refl
then_assoc faults f g h e = refl

pub write_symbols-append :
    (fuel : ℕ) (xs ys : List Symbol) (e : ArithmeticEncoder)
    → write_symbols fuel (xs ++ ys) e ≡ (write_symbols fuel xs e >?> λ e1. write_symbols fuel ys e1)
unfolding write_symbols
write_symbols-append fuel [] ys e = refl
write_symbols-append fuel (x ∷ xs) ys e =
    then_assoc (update fuel x e) (write_symbols fuel xs) (write_symbols fuel ys)
      (write_symbols fuel (xs ++ ys)) (write_symbols-append fuel xs ys)

-- The encoder after a prefix, and where the bytes of a message with that prefix lie.
prefix_lem :
    (xs : List Symbol)
    → All IsSymbol xs
    → length xs < 2 ^ 57
    → (e : ArithmeticEncoder) × IsReady e
      × ((s : Symbol) (symbols : List Symbol) (out : BitOutputStream)
          → All IsSymbol (s ∷ symbols)
          → length (s ∷ symbols) < 2 ^ 57
          → encode_symbols 33 (xs ++ s ∷ symbols) ≡ returns (some out)
          → CodeInside out (share s (interval e)))
prefix_lem xs v small =
    let (e, r, ready, few, back) =
      write_symbols_lem xs new_encoder new_encoder-IsReady v (omega (arith, small)) in
    (
      e,
      ready,
      λ s symbols out w small' encoded.
          let (e', r', ready', few', back') =
            write_symbols_lem (s ∷ symbols) e ready w (omega (arith, few, small, small')) in
          let (out1, out', r1, r2, whole, inside) = finish_message e' ready' in
          let same : returns (some out') ≡ returns (some out) =
            sym (
              encode_symbols_step 33 (xs ++ s ∷ symbols) e' out1 out'
                (write_symbols-append 33 xs (s ∷ symbols) new_encoder ∙ rw r r') r1 r2)
            ∙ encoded in
          subst (λ o. CodeInside o (share s (interval e))) (some_out out' out same)
            (Decodes-first (back' _ _ inside).1),
    )

-- Two messages that first differ in symbols with disjoint shares of one total are encoded into
-- different bytes.
pub encode_symbols-differ :
    (xs ys zs : List Symbol) (s t : Symbol) (out out' : BitOutputStream)
    → All IsSymbol xs
    → All IsSymbol (s ∷ ys)
    → All IsSymbol (t ∷ zs)
    → length xs < 2 ^ 57
    → length (s ∷ ys) < 2 ^ 57
    → length (t ∷ zs) < 2 ^ 57
    → s.total ≡ t.total
    → s.sym_high ≤ t.sym_low
    → encode_symbols 33 (xs ++ s ∷ ys) ≡ returns (some out)
    → encode_symbols 33 (xs ++ t ∷ zs) ≡ returns (some out')
    → out.bytes ≢ out'.bytes
encode_symbols-differ xs ys zs s t out out' vx vs vt few_x few_s few_t same apart r r' e =
    let (encoder, ready, inside) = prefix_lem xs vx few_x in
    disjoint_shares (bytes_value 0 out.bytes) (2 ^ (8 * length out.bytes)) (interval encoder) s t
      vs.0 (omega (arith, vs.0.few, ready.wide)) same apart (inside s ys out vs few_s r)
      (subst
        (λ (b : List ℕ). Inside (bytes_value 0 b) (2 ^ (8 * length b)) (share t (interval encoder)))
        (sym e) (inside t zs out' vt few_t r'))

-- ===== src/Coder/Codings/Symbols.antt =====
-- What `codings` codes, without the coder: the extremes of every channel and the symbols of its data.
use soc.Common.{
  ℕ, ◌^◌, ◌≤◌, ◌<◌, ◌≡◌, refl, sym, subst, List, [], ◌∷◌, ◌++◌, length, All, if◌then◌else◌, inl,
  inr, arith,
}
use soc.Common.Effects.{Call, returns, exits, faults, ℤ, pos}
use soc.Common.Int.{
  ◌≤ℤ◌, ◌<ℤ◌, pos_part, leb_ℤ, max_element, min_element, max_element-le, min_element-le, Among,
  max_element-Among, min_element-Among,
}
use soc.Protocol.Gmm.{GmmT}
use soc.Coder.{Symbol}
use soc.Coder.Update.{IsSymbol}
use soc.Coder.Table.{Tables, enc_symbol}
use soc.Coder.Table.Index.{IsInt16}
use soc.Coder.Table.Shares.{IsTables}
use soc.Coder.Table.Sums.{IsComponent}
use soc.Coder.Table.Values.{enc_symbol_lem}
use soc.Coder.Codings.{Channel, int16, mixture_first, mixture_rest, extremes}

-- The value of a call that returns.
abbrev symbol_or_none : Call Symbol → Symbol
symbol_or_none (returns s) = s
symbol_or_none exits = record { total = 0; sym_low = 0; sym_high = 0 }
symbol_or_none faults = record { total = 0; sym_low = 0; sym_high = 0 }

-- The share of a value under an entry, for a channel from `lo` to `hi`.
unfoldable pub share_at : Tables → ℕ → ℤ → ℤ → GmmT → ℤ → Symbol
share_at t scale lo hi g x =
    symbol_or_none (enc_symbol t scale lo hi (mixture_first g ∷ mixture_rest g) x)

abbrev pub data_symbols : Tables → ℕ → ℤ → ℤ → List GmmT → List ℤ → List Symbol
data_symbols t scale lo hi gmm [] = []
data_symbols t scale lo hi [] (x ∷ datum) = []
data_symbols t scale lo hi (g ∷ gmm) (x ∷ datum) =
    share_at t scale lo hi g x ∷ data_symbols t scale lo hi gmm datum

abbrev pub least : List ℤ → ℤ
least [] = pos 0
least (x ∷ xs) = min_element x xs

abbrev pub greatest : List ℤ → ℤ
greatest [] = pos 0
greatest (x ∷ xs) = max_element x xs

-- A channel of one value has no symbols.
abbrev pub channel_symbols : Tables → ℕ → List GmmT → List ℤ → List Symbol
channel_symbols t scale gmm datum =
    if leb_ℤ (greatest datum) (least datum)
    then []
    else data_symbols t scale (least datum) (greatest datum) gmm datum

abbrev pub all_symbols : Tables → ℕ → List Channel → List Symbol
all_symbols t scale [] = []
all_symbols t scale (c ∷ channels) =
    channel_symbols t scale c.gmm c.datum ++ all_symbols t scale channels

abbrev pub header_of : List Channel → List ℕ
header_of [] = []
header_of (c ∷ channels) = extremes (least c.datum) (greatest c.datum) ++ header_of channels

-- The deviations of an entry are positive.
pub record IsEntry (g : GmmT) : Type 0 where
  pub positive1 : 0 < pos_part (int16 g.std1)
  pub positive2 : 0 < pos_part (int16 g.std2)
  pub positive3 : 0 < pos_part (int16 g.std3)

-- A channel with data and an entry for each.
pub record IsChannel (c : Channel) : Type 0 where
  pub some_data : 0 < length c.datum
  pub few_data : length c.datum < 2 ^ 31
  pub in_16_bits : All IsInt16 c.datum
  pub enough_entries : length c.datum ≤ length c.gmm
  pub entries : All IsEntry c.gmm

int16-IsInt16 : (n : ℕ) → IsInt16 (int16 n)
int16-IsInt16 n = record { above = ground arith; below = ground arith }

IsEntry-components : (g : GmmT) → IsEntry g → All IsComponent (mixture_first g ∷ mixture_rest g)
IsEntry-components g e = (
  record { mean = int16-IsInt16 g.mean1; std = e.positive1 },
  (
    record { mean = int16-IsInt16 g.mean2; std = e.positive2 },
    (record { mean = int16-IsInt16 g.mean3; std = e.positive3 }, tt),
  ),
)

-- The value lies from `lo` to `hi`.
abbrev pub InRange : ℤ → ℤ → ℤ → Type 0
InRange lo hi x = (lo ≤ℤ x) × (x ≤ℤ hi)

InRange-both :
    (lo hi : ℤ) (xs : List ℤ)
    → All (λ y. lo ≤ℤ y) xs
    → All (λ y. y ≤ℤ hi) xs
    → All (InRange lo hi) xs
InRange-both lo hi [] h k = tt
InRange-both lo hi (x ∷ xs) h k = ((h.0, k.0), InRange-both lo hi xs h.1 k.1)

pub InRange-extremes : (xs : List ℤ) → All (InRange (least xs) (greatest xs)) xs
InRange-extremes [] = tt
InRange-extremes (x ∷ xs) =
    InRange-both (least (x ∷ xs)) (greatest (x ∷ xs)) (x ∷ xs) (min_element-le x xs)
      (max_element-le x xs)

All-Among : (z : ℤ) (xs : List ℤ) → All IsInt16 xs → Among z xs → IsInt16 z
All-Among z [] h a = absurd a
All-Among z (x ∷ xs) h a = elim a [
  | inl e ↦ subst IsInt16 (sym e) h.0
  | inr later ↦ All-Among z xs h.1 later
]

pub greatest-IsInt16 : (xs : List ℤ) → All IsInt16 xs → IsInt16 (greatest xs)
greatest-IsInt16 [] h = record { above = omega arith; below = omega arith }
greatest-IsInt16 (x ∷ xs) h = All-Among _ (x ∷ xs) h (max_element-Among x xs)

pub least-IsInt16 : (xs : List ℤ) → All IsInt16 xs → IsInt16 (least xs)
least-IsInt16 [] h = record { above = omega arith; below = omega arith }
least-IsInt16 (x ∷ xs) h = All-Among _ (x ∷ xs) h (min_element-Among x xs)

-- Tables, scale and bounds that the shares are made of.
module _ (t : Tables) (scale : ℕ) (lo hi : ℤ) (it : IsTables t) (more : 0 < scale)
    (small : scale ≤ 16384) (lo16 : IsInt16 lo) (hi16 : IsInt16 hi) (g : GmmT)
    (good : IsEntry g) where
  pub share_at_lem :
      (x : ℤ)
      → lo ≤ℤ x
      → x ≤ℤ hi
      → enc_symbol t scale lo hi (mixture_first g ∷ mixture_rest g) x
        ≡ returns (share_at t scale lo hi g x)
  unfolding share_at
  share_at_lem x h h' =
      let (f, runs, shares) =
        enc_symbol_lem t scale lo hi (mixture_first g) (mixture_rest g) it more small lo16 hi16
          (IsEntry-components g good) in
      rw (runs x h h') refl

  pub share_at-IsSymbol : (x : ℤ) → lo ≤ℤ x → x ≤ℤ hi → IsSymbol (share_at t scale lo hi g x)
  unfolding share_at
  share_at-IsSymbol x h h' =
      let (f, runs, shares) =
        enc_symbol_lem t scale lo hi (mixture_first g) (mixture_rest g) it more small lo16 hi16
          (IsEntry-components g good) in
      rw (runs x h h') (shares.symbols x h h')

  pub share_at_apart :
      (x y : ℤ)
      → lo ≤ℤ x
      → x <ℤ y
      → y ≤ℤ hi
      → (Symbol.total (share_at t scale lo hi g x) ≡ Symbol.total (share_at t scale lo hi g y))
        × (Symbol.sym_high (share_at t scale lo hi g x)
            ≤ Symbol.sym_low (share_at t scale lo hi g y))
  unfolding share_at
  share_at_apart x y h less h' =
      let (f, runs, shares) =
        enc_symbol_lem t scale lo hi (mixture_first g) (mixture_rest g) it more small lo16 hi16
          (IsEntry-components g good) in
      rw (runs x h (omega (arith, less, h')), runs y (omega (arith, h, less)) h')
        (shares.totals x y, shares.apart x y h less)

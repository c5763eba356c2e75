-- ===== src/Slave/Encode/Flat.antt =====
-- The entropy coding of a picture in fresh memory: entropy_to_gmm leaves zeros in all entries but every
-- ninth, and so only channels whose parts have one value each are encoded.
use soc.Common.{
  ℕ, zero, suc, ◌+◌, ◌-◌, ◌/◌, ◌%◌, ◌^◌, ◌<◌, ◌≡◌, refl, sym, ap₂, subst, ◌∙◌, inl, inr, List, [],
  ◌∷◌, ◌++◌, length, take, drop, get_or, length-take, All, All-append, All-parts, Option, none,
  some, Bool, Bool-cases, leb, ◌==◌, arith,
}
use soc.Common.Effects.{Ends, on_return, on_exit, on_fault, Ends-then, Ends-if, ℤ}
use soc.Protocol.Gmm.{GmmT, entropy_to_gmm_lem}
use soc.Coder.Table.{Tables}
use soc.Coder.Codings.{Channel, CodingResult, codings}
use soc.Slave.Encode.{
  Coefficients, entries_from, cut, channel_parts, lens_y, lens_uv, encode_coefficients,
}
use soc.Slave.Encode.Zero.{OnSome, Ends-map, Ends-some, ZeroSoon, IsFlat, IsLost, codings-IsFlat}

abbrev pub zero_entry : GmmT
zero_entry = record {
  prob1 = 0;
  prob2 = 0;
  prob3 = 0;
  mean1 = 0;
  mean2 = 0;
  mean3 = 0;
  std1 = 0;
  std2 = 0;
  std3 = 0;
}

-- Entries of which only those at a multiple of nine are set.
abbrev IsSparse : (ℕ → GmmT) → Type 0
IsSparse gmm = (j : ℕ) → 0 < j % 9 → gmm j ≡ zero_entry

zero-ZeroSoon : (g h : GmmT) (gmm : List GmmT) → g ≡ zero_entry → ZeroSoon (g ∷ h ∷ gmm)
zero-ZeroSoon g h gmm e = inl (rw e refl)

zero-ZeroSoon_next : (g h : GmmT) (gmm : List GmmT) → h ≡ zero_entry → ZeroSoon (g ∷ h ∷ gmm)
zero-ZeroSoon_next g h gmm e = inr (rw e refl)

entries-ZeroSoon : (gmm : ℕ → GmmT) (i n : ℕ) → IsSparse gmm → ZeroSoon (entries_from gmm i n)
entries-ZeroSoon gmm i zero h = tt
entries-ZeroSoon gmm i (suc zero) h = tt
entries-ZeroSoon gmm i (suc (suc n)) h = elim (Bool-cases (i % 9 == 0)) [
  | inl ninth ↦
      zero-ZeroSoon_next (gmm i) (gmm (suc i)) (entries_from gmm (suc (suc i)) n)
        (h (suc i) (ground arith))
  | inr other ↦
      zero-ZeroSoon (gmm i) (gmm (suc i)) (entries_from gmm (suc (suc i)) n) (h i (ground arith))
]

nothing_left : (gmm : ℕ → GmmT) (i n : ℕ) → n ≡ 0 → [] ≡ entries_from gmm i n
nothing_left gmm i n e = rw e refl

same_entries :
    (gmm : ℕ → GmmT) (i j n m : ℕ) → i ≡ j → n ≡ m → entries_from gmm i n ≡ entries_from gmm j m
same_entries gmm i j n m e f = ap₂ (entries_from gmm) e f

drop-entries_from :
    (gmm : ℕ → GmmT) (k i n : ℕ) → drop k (entries_from gmm i n) ≡ entries_from gmm (i + k) (n - k)
drop-entries_from gmm zero i n = same_entries gmm i (i + 0) n (n - 0) (omega arith) (omega arith)
drop-entries_from gmm (suc k) i zero = nothing_left gmm (i + suc k) (0 - suc k) (omega arith)
drop-entries_from gmm (suc k) i (suc n) =
    drop-entries_from gmm k (suc i) n
    ∙ same_entries gmm (suc i + k) (i + suc k) (n - k) (suc n - suc k) (omega arith) (omega arith)

-- The parts of a channel's coefficients.
abbrev pub pieces : List ℕ → List ℤ → List (List ℤ)
pieces [] trans = []
pieces (len ∷ lens) trans = take len trans ∷ pieces lens (drop len trans)

-- Parts that are lost, and whose data are the pieces.
abbrev IsCut : List ℕ → List ℤ → List Channel → Type 0
IsCut lens trans parts =
    All IsLost parts × (All (λ c. IsFlat c.datum) parts → All IsFlat (pieces lens trans))

cut-IsCut :
    (lens : List ℕ) (trans : List ℤ) (gmm : ℕ → GmmT) (i n : ℕ)
    → IsSparse gmm
    → All (λ len. len < 2 ^ 31) lens
    → Ends (IsCut lens trans) (cut lens trans (entries_from gmm i n))
unfolding cut
cut-IsCut [] trans gmm i n h sizes = on_return _ (tt, λ flats. tt)
cut-IsCut (len ∷ lens) trans gmm i n h sizes =
    let later : Ends (IsCut lens (drop len trans))
        (cut lens (drop len trans) (drop len (entries_from gmm i n))) =
      subst (λ g. Ends (IsCut lens (drop len trans)) (cut lens (drop len trans) g))
        (sym (drop-entries_from gmm len i n))
        (cut-IsCut lens (drop len trans) gmm (i + len) (n - len) h sizes.1) in
    Ends-if (leb len (length trans))
      (Ends-then (cut lens (drop len trans) (drop len (entries_from gmm i n))) _ later λ parts p.
        on_return _ (
          ((omega (arith, sizes.0, length-take len trans), entries-ZeroSoon gmm i n h), p.0),
          λ flats. (flats.0, p.1 flats.1),
        ))
      on_fault

-- What malloc gave is a fresh page.
abbrev pub IsFresh : Coefficients → Type 0
IsFresh c = c.gmm ≡ some (λ j. zero_entry)

channel_parts-IsCut :
    (lens : List ℕ) (trans : List ℤ) (entropy : List ℕ)
    → All (λ len. len < 2 ^ 31) lens
    → Ends (OnSome (IsCut lens trans)) (
        channel_parts lens
          (record { trans = trans; entropy = entropy; gmm = some (λ j. zero_entry) }))
unfolding channel_parts
channel_parts-IsCut lens trans entropy sizes =
    let (out, run, filled, others, beyond) =
      entropy_to_gmm_lem (λ i. get_or entropy i 0) (λ j. zero_entry) (length entropy / 9) in
    Ends-if (length entropy / 9 == length trans)
      (rw run (
        Ends-then (cut lens trans (entries_from out 0 (length entropy / 9))) _
          (cut-IsCut lens trans out 0 (length entropy / 9) others sizes) λ parts p. on_return _ p))
      on_exit

channel_parts-fresh :
    (lens : List ℕ) (c : Coefficients)
    → IsFresh c
    → All (λ len. len < 2 ^ 31) lens
    → Ends (OnSome (IsCut lens c.trans)) (channel_parts lens c)
channel_parts-fresh lens c fresh sizes =
    subst
      (λ gmm.
        Ends (OnSome (IsCut lens c.trans))
          (channel_parts lens (record { trans = c.trans; entropy = c.entropy; gmm = gmm })))
      (sym fresh) (channel_parts-IsCut lens c.trans c.entropy sizes)

lens_y-small : All (λ len. len < 2 ^ 31) lens_y
lens_y-small = omega arith

lens_uv-small : All (λ len. len < 2 ^ 31) lens_uv
lens_uv-small = omega arith

-- In every part of the three channels all coefficients are the same.
abbrev pub IsPlain : Coefficients → Coefficients → Coefficients → Type 0
IsPlain y u v =
    All IsFlat (pieces lens_y y.trans)
    × All IsFlat (pieces lens_uv u.trans)
    × All IsFlat (pieces lens_uv v.trans)

-- If the memory for the entries is fresh in all three channels, the entropy coding gives a bit stream
-- only if in every part all coefficients are the same.
pub encode_coefficients-IsPlain :
    (fuel : ℕ) (allocates : ℕ → Bool) (t : Tables) (y u v : Coefficients)
    → IsFresh y
    → IsFresh u
    → IsFresh v
    → Ends (OnSome (λ r. IsPlain y u v)) (encode_coefficients fuel allocates t y u v)
unfolding encode_coefficients
encode_coefficients-IsPlain fuel allocates t y u v fy fu fv =
    Ends-some (channel_parts lens_y y) _ (channel_parts-fresh lens_y y fy lens_y-small) λ ys py.
      Ends-some (channel_parts lens_uv u) _ (channel_parts-fresh lens_uv u fu lens_uv-small)
        λ us pu.
          Ends-some (channel_parts lens_uv v) _ (channel_parts-fresh lens_uv v fv lens_uv-small)
            λ vs pv.
              Ends-map (codings fuel allocates t 10000 (ys ++ (us ++ vs)))
                (plain ys us vs py.1 pu.1 pv.1)
                (codings-IsFlat fuel t 10000 allocates (ys ++ (us ++ vs))
                  (All-append IsLost ys (us ++ vs) py.0 (All-append IsLost us vs pu.0 pv.0)))
  where
    plain :
        (ys us vs : List Channel)
        → (All (λ c. IsFlat c.datum) ys → All IsFlat (pieces lens_y y.trans))
        → (All (λ c. IsFlat c.datum) us → All IsFlat (pieces lens_uv u.trans))
        → (All (λ c. IsFlat c.datum) vs → All IsFlat (pieces lens_uv v.trans))
        → (o : Option CodingResult) → OnSome (λ r. All (λ c. IsFlat c.datum) (ys ++ (us ++ vs))) o
        → OnSome (λ r. IsPlain y u v) o
    plain ys us vs hy hu hv none all = tt
    plain ys us vs hy hu hv (some r) all =
        let first = All-parts (λ (c : Channel). IsFlat c.datum) ys (us ++ vs) all in
        let later = All-parts (λ (c : Channel). IsFlat c.datum) us vs first.1 in
        (hy first.0, hu later.0, hv later.1)

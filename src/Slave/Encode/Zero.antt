-- ===== src/Slave/Encode/Zero.antt =====
-- Channels whose entries are zero but for every ninth: the memory for the entries is a fresh page, and
-- entropy_to_gmm fills no more of it. The coder divides by the deviations of the others.
use soc.Common.{
  ℕ, suc, ◌+◌, ◌-◌, ◌*◌, ◌%◌, ◌^◌, ◌<◌, ◌≡◌, refl, sym, subst, ◌⊎◌, inl, inr, List, [], ◌∷◌, length,
  take, All, Option, none, some, Bool, true, false, Bool-cases, leb, ltb, take_all, ◌==◌, arith,
}
use soc.Common.Effects.{
  Call, returns, exits, faults, ◌>?>◌, Ends, on_return, on_exit, on_fault, Ends-bind, Ends-then,
  Ends-if, ℤ,
}
use soc.Common.Int.{
  is_zero, leb_ℤ, ◌≤ℤ◌, max_element, min_element, max_element-le, min_element-le, eq_of_parts,
}
use soc.Protocol.Gmm.{GmmT}
use soc.Coder.{ArithmeticEncoder, update, new_encoder, finish, finish_stream}
use soc.Coder.Table.{
  Component, Tables, table_element, exp_index, cdf_index, weigh, softmax, edge, cumulate, get_bound,
  enc_symbol,
}
use soc.Coder.Codings.{
  Channel, mixture_first, mixture_rest, code_data, code_extremes, code_channel, code_channels,
  accumulate, fill_bins, codings,
}

-- What holds of the value if there is one.
abbrev pub OnSome {ℓ} : {A : Type 0} → (A → Type ℓ) → Option A → Type ℓ
OnSome P none = Unit
OnSome P (some a) = P a

pub Ends-map :
    {A : Type 0} {P Q : A → Type 0} (m : Call A) → ((a : A) → P a → Q a) → Ends P m → Ends Q m
Ends-map m h (on_return a p) = on_return a (h a p)
Ends-map m h on_exit = on_exit
Ends-map m h on_fault = on_fault

pub Ends-some :
    {A B : Type 0} {P : A → Type 0} {Q : B → Type 0} (m : Call (Option A)) (f : A → Call (Option B))
    → Ends (OnSome P) m
    → ((a : A) → P a → Ends (OnSome Q) (f a))
    → Ends (OnSome Q) (m >?> f)
Ends-some m f (on_return none p) h = on_return none tt
Ends-some m f (on_return (some a) p) h = h a p
Ends-some m f on_exit h = on_exit
Ends-some m f on_fault h = on_fault

pub Ends-each :
    {A B : Type 0} {Q : B → Type 0} (m : Call (Option A)) (f : A → Call (Option B))
    → ((a : A) → Ends (OnSome Q) (f a))
    → Ends (OnSome Q) (m >?> f)
Ends-each (returns none) f h = on_return none tt
Ends-each (returns (some a)) f h = h a
Ends-each exits f h = on_exit
Ends-each faults f h = on_fault

Ends-always :
    {A : Type 0} {P : A → Type 0} (m : Call (Option A)) → ((a : A) → P a) → Ends (OnSome P) m
Ends-always (returns none) h = on_return none tt
Ends-always (returns (some a)) h = on_return (some a) (h a)
Ends-always exits h = on_exit
Ends-always faults h = on_fault

-- The first of the densities stays the first.
abbrev HasFirst : Component → List (ℕ × Component) × ℕ → Type 0
HasFirst c r = (weight : ℕ) × (rest : List (ℕ × Component)) × (r.0 ≡ (weight, c) ∷ rest)

weigh-first :
    (t : Tables) (mx : ℤ) (scale : ℕ) (c : Component) (cs : List Component)
    → Ends (HasFirst c) (weigh t mx scale (c ∷ cs))
unfolding weigh
weigh-first t mx scale c cs =
    Ends-bind (table_element t.exp_table (exp_index mx scale c.prob)) _ λ weight.
      Ends-bind (weigh t mx scale cs) _
        λ (r : List (ℕ × Component) × ℕ). on_return _ (weight, r.0, refl)

softmax-first :
    (t : Tables) (scale : ℕ) (c : Component) (cs : List Component)
    → Ends (HasFirst c) (softmax t scale (c ∷ cs))
unfolding softmax
softmax-first t scale c cs = Ends-if (scale % 65536 == 0) on_fault (weigh-first t _ _ c cs)

cumulate-first :
    (t : Tables) (scale : ℕ) (upper : Bool) (x : ℤ) (sum weight : ℕ) (c : Component)
    (rest : List (ℕ × Component))
    → Ends (λ n. is_zero c.std ≡ false) (cumulate t scale upper x sum ((weight, c) ∷ rest))
unfolding cumulate
cumulate-first t scale upper x sum weight c rest = Ends-bind (edge upper x scale c.mean) _ λ d.
    elim (Bool-cases (is_zero c.std)) [
      | inl zero_std ↦ rw zero_std on_fault
      | inr other ↦ rw other (
          Ends-bind (table_element t.cdf_table (cdf_index d c.std)) _ λ share.
            Ends-bind (cumulate t scale upper x sum rest) _
              λ later. Ends-if (sum == 0) on_fault (on_return _ refl))
    ]

get_bound-first :
    (t : Tables) (scale : ℕ) (lo hi x : ℤ) (sum weight : ℕ) (c : Component)
    (rest : List (ℕ × Component))
    → Ends (λ s. is_zero c.std ≡ false) (get_bound t scale lo hi ((weight, c) ∷ rest, sum) x)
unfolding get_bound
get_bound-first t scale lo hi x sum weight c rest =
    Ends-then (cumulate t scale false lo sum ((weight, c) ∷ rest)) _
      (cumulate-first t scale false lo sum weight c rest)
      λ l other. Ends-bind (cumulate t scale true hi sum ((weight, c) ∷ rest)) _ λ r.
        Ends-bind (cumulate t scale false x sum ((weight, c) ∷ rest)) _ λ low.
          Ends-bind (cumulate t scale true x sum ((weight, c) ∷ rest)) _ λ high. on_return _ other

-- A value gets a share only from densities the first of which has a deviation.
pub enc_symbol-first :
    (t : Tables) (scale : ℕ) (lo hi : ℤ) (c : Component) (cs : List Component) (x : ℤ)
    → Ends (λ s. is_zero c.std ≡ false) (enc_symbol t scale lo hi (c ∷ cs) x)
unfolding enc_symbol
enc_symbol-first t scale lo hi c cs x =
    Ends-then (softmax t scale (c ∷ cs)) _ (softmax-first t scale c cs) λ r first.
      subst (λ ws. Ends (λ s. is_zero c.std ≡ false) (get_bound t scale lo hi (ws, r.1) x))
        (sym first.2) (get_bound-first t scale lo hi x r.1 first.0 c first.1)

abbrev IsZero : GmmT → Type 0
IsZero g = is_zero (mixture_first g).std ≡ true

-- One of the first two entries has no deviation.
abbrev pub ZeroSoon : List GmmT → Type 0
ZeroSoon [] = Unit
ZeroSoon (g ∷ []) = Unit
ZeroSoon (g ∷ h ∷ gmm) = IsZero g ⊎ IsZero h

module _ (fuel : ℕ) (t : Tables) (scale : ℕ) where
  code_data-first :
      (lo hi : ℤ) (g : GmmT) (gmm : List GmmT) (x : ℤ) (datum : List ℤ) (enc : ArithmeticEncoder)
      → IsZero g
      → Ends (OnSome (λ e. true ≡ false)) (code_data fuel t scale lo hi (g ∷ gmm) (x ∷ datum) enc)
  unfolding code_data
  code_data-first lo hi g gmm x datum enc z =
      Ends-then (enc_symbol t scale lo hi (mixture_first g ∷ mixture_rest g) x) _
        (enc_symbol-first t scale lo hi (mixture_first g) (mixture_rest g) x)
        λ s other. absurd (ground arith)

  code_data-lost :
      (lo hi : ℤ) (gmm : List GmmT) (x y : ℤ) (datum : List ℤ) (enc : ArithmeticEncoder)
      → ZeroSoon gmm
      → Ends (OnSome (λ e. true ≡ false)) (code_data fuel t scale lo hi gmm (x ∷ y ∷ datum) enc)
  unfolding code_data
  code_data-lost lo hi [] x y datum enc h = on_fault
  code_data-lost lo hi (g ∷ []) x y datum enc h =
      Ends-bind (enc_symbol t scale lo hi (mixture_first g ∷ mixture_rest g) x) _
        λ s. Ends-each (update fuel s enc) _ λ e. on_fault
  code_data-lost lo hi (g ∷ g' ∷ gmm) x y datum enc (inl z) =
      code_data-first lo hi g (g' ∷ gmm) x (y ∷ datum) enc z
  code_data-lost lo hi (g ∷ g' ∷ gmm) x y datum enc (inr z) =
      Ends-bind (enc_symbol t scale lo hi (mixture_first g ∷ mixture_rest g) x) _
        λ s. Ends-each (update fuel s enc) _ λ e. code_data-first lo hi g' gmm y datum e z

-- All values are the same.
abbrev pub IsFlat : List ℤ → Type 0
IsFlat [] = Unit
IsFlat (x ∷ xs) = All (λ y. y ≡ x) xs

between-equal :
    (least greatest x : ℤ) (xs : List ℤ)
    → greatest ≤ℤ least
    → least ≤ℤ x
    → x ≤ℤ greatest
    → All (λ y. y ≤ℤ greatest) xs
    → All (λ y. least ≤ℤ y) xs
    → All (λ y. y ≡ x) xs
between-equal least greatest x [] one above below ups downs = tt
between-equal least greatest x (y ∷ xs) one above below ups downs = (
  eq_of_parts y x (omega (arith, one, above, below, ups.0, downs.0)),
  between-equal least greatest x xs one above below ups.1 downs.1,
)

one_extreme :
    (x : ℤ) (xs : List ℤ) → leb_ℤ (max_element x xs) (min_element x xs) ≡ true → All (λ y. y ≡ x) xs
one_extreme x xs h =
    let ups = max_element-le x xs in
    let downs = min_element-le x xs in
    between-equal (min_element x xs) (max_element x xs) x xs (ground arith) downs.0 ups.0 ups.1
      downs.1

-- A channel that has fewer values than an `int` can count and whose entries are zero soon.
abbrev pub IsLost : Channel → Type 0
IsLost c = (length c.datum < 2 ^ 31) × ZeroSoon c.gmm

module _ (fuel : ℕ) (t : Tables) (scale : ℕ) where
  code_extremes-IsFlat :
      (gmm : List GmmT) (x y : ℤ) (datum : List ℤ) (enc : ArithmeticEncoder) (least greatest : ℤ)
      → ZeroSoon gmm
      → Ends
          (OnSome (λ r. leb_ℤ greatest least ≡ true))
          (code_extremes fuel t scale gmm (x ∷ y ∷ datum) enc least greatest)
  unfolding code_extremes
  code_extremes-IsFlat gmm x y datum enc least greatest h =
      elim (Bool-cases (leb_ℤ greatest least)) [
        | inl one ↦ rw one (on_return _ refl)
        | inr more_values ↦ rw more_values (
            Ends-some (code_data fuel t scale least greatest gmm (x ∷ y ∷ datum) enc) _
              (code_data-lost fuel t scale least greatest gmm x y datum enc h)
              λ e never. absurd (ground arith))
      ]

  code_channel_whole :
      (gmm : List GmmT) (x : ℤ) (datum : List ℤ) (e : ArithmeticEncoder)
      → suc (length datum) < 2 ^ 31
      → code_channel fuel t scale gmm (x ∷ datum) e
        ≡ code_extremes fuel t scale gmm (x ∷ datum) e (min_element x datum) (max_element x datum)
  unfolding code_channel
  code_channel_whole gmm x datum e few =
      let signed : leb (2 ^ 31) (suc (length datum) % 2 ^ 32) ≡ false = ground arith in
      let others : take (suc (length datum) % 2 ^ 32 - 1) datum ≡ datum =
        take_all _ datum (omega arith) in
      let all : take (suc (length datum) % 2 ^ 32) (x ∷ datum) ≡ x ∷ datum =
        take_all _ (x ∷ datum) (omega arith) in
      rw (signed, others, all) refl

  code_channel-IsFlat :
      (gmm : List GmmT) (datum : List ℤ) (enc : ArithmeticEncoder)
      → length datum < 2 ^ 31
      → ZeroSoon gmm
      → Ends (OnSome (λ r. IsFlat datum)) (code_channel fuel t scale gmm datum enc)
  code_channel-IsFlat gmm [] enc few h = Ends-always _ (λ r. tt)
  code_channel-IsFlat gmm (x ∷ []) enc few h = Ends-always _ (λ r. tt)
  code_channel-IsFlat gmm (x ∷ y ∷ datum) enc few h =
      subst (Ends (OnSome (λ r. IsFlat (x ∷ y ∷ datum))))
        (sym (code_channel_whole gmm x (y ∷ datum) enc few))
        (Ends-map _ (λ o one. flat o one)
          (code_extremes-IsFlat gmm x y datum enc (min_element x (y ∷ datum))
            (max_element x (y ∷ datum)) h))
    where
      flat :
          (o : Option (List ℕ × ArithmeticEncoder))
          → OnSome (λ r. leb_ℤ (max_element x (y ∷ datum)) (min_element x (y ∷ datum)) ≡ true) o
          → OnSome (λ r. IsFlat (x ∷ y ∷ datum)) o
      flat none one = tt
      flat (some r) one = one_extreme x (y ∷ datum) one

  code_channels-IsFlat :
      (room : ℕ) (channels : List Channel) (enc : ArithmeticEncoder)
      → All IsLost channels
      → Ends
          (OnSome (λ r. All (λ c. IsFlat c.datum) channels))
          (code_channels fuel t scale room channels enc)
  unfolding code_channels
  code_channels-IsFlat room [] enc h = on_return _ tt
  code_channels-IsFlat room (c ∷ channels) enc h = Ends-if (ltb room 4) on_fault (
      Ends-some (code_channel fuel t scale c.gmm c.datum enc) _
        (code_channel-IsFlat c.gmm c.datum enc h.0.0 h.0.1)
        λ coded flat.
          Ends-some (code_channels fuel t scale (room - 4) channels coded.1) _
            (code_channels-IsFlat (room - 4) channels coded.1 h.1)
            λ rest flats. on_return _ (flat, flats))

  -- `codings` ends with a result only if each such channel has one value.
  pub codings-IsFlat :
      (allocates : ℕ → Bool) (channels : List Channel)
      → All IsLost channels
      → Ends
          (OnSome (λ r. All (λ c. IsFlat c.datum) channels))
          (codings fuel allocates t scale channels)
  unfolding codings fill_bins
  codings-IsFlat allocates channels h =
      let size = accumulate 0 channels * 8 % 2 ^ 64 in
      Ends-if (allocates size)
        (Ends-some (code_channels fuel t scale size channels new_encoder) _
          (code_channels-IsFlat size channels new_encoder h)
          λ coded flats. Ends-bind (finish coded.1) _ λ bout.
            Ends-each (finish_stream fuel bout) _
              λ bout'. Ends-if (ltb size (156 + length bout'.bytes)) on_fault (on_return _ flats))
        on_fault

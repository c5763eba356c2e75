-- ===== src/Coder/Table.antt =====
-- EncTable and softmax of project-spec/meta-user/recipes-apps/autostart/src/arithmetic_coding.cpp:
-- the share of a value under a mixture of three Gaussian densities. The two tables are what
-- readBinaryFile finds in the files, empty if it finds none. An `int` operation that overflows is
-- undefined; `scale_pred` is not negative here.
pub mod Index
pub mod Shares
pub mod Sums
pub mod Symbols
pub mod Values
use soc.Common.{
  ℕ, suc, ◌+◌, ◌-◌, ◌*◌, ◌/◌, ◌%◌, ◌^◌, List, [], ◌∷◌, get_elem?, none, some, Bool, true, false,
  ltb, ◌==◌, if◌then◌else◌,
}
use soc.Common.Effects.{Call, returns, faults, ◌>>=◌, ℤ, pos, negsuc}
use soc.Common.Int.{◌+ℤ◌, ◌-ℤ◌, ◌*ℤ◌, quot, ltb_ℤ, is_zero, pos_part, max_element}
use soc.Coder.{Symbol}

-- One of the three densities of a value.
pub record Component : Type 0 where
  pub prob : ℤ
  pub mean : ℤ
  pub std : ℤ

pub record Tables : Type 0 where
  pub exp_table : List ℕ
  pub cdf_table : List ℕ

-- An entry of a table.
unfoldable pub table_element : List ℕ → ℕ → Call ℕ
table_element table i = elim (get_elem? table i) [ none ↦ faults | some x ↦ returns x ]

-- `max(idx * scale / scale_pred + base, 0l)`, with idx = probs[i] - mx
unfoldable pub exp_index : ℤ → ℕ → ℤ → ℕ
exp_index mx scale_pred prob =
    pos_part (quot ((prob -ℤ mx) *ℤ pos 1000) (pos scale_pred) +ℤ pos 12000)

-- The loop of softmax: `probs[i] = exp_table[idx]; sum += probs[i]`.
unfoldable pub weigh : Tables → ℤ → ℕ → List Component → Call (List (ℕ × Component) × ℕ)
unfolding table_element exp_index
weigh tables mx scale_pred [] = returns ([], 0)
weigh tables mx scale_pred (c ∷ cs) = do
  weight ← table_element tables.exp_table (exp_index mx scale_pred c.prob)
  (weighted, sum) ← weigh tables mx scale_pred cs
  returns ((weight, c) ∷ weighted, weight + sum)

abbrev pub probs_of : List Component → List ℤ
probs_of [] = []
probs_of (c ∷ cs) = c.prob ∷ probs_of cs

-- softmax takes `scale_pred` as a `uint16_t`. The sum of three `uint16_t` fits.
unfoldable pub softmax : Tables → ℕ → List Component → Call (List (ℕ × Component) × ℕ)
unfolding weigh
softmax tables scale_pred [] = faults
softmax tables scale_pred (c ∷ cs) =
    if scale_pred % 65536 == 0
    then faults
    else weigh tables (max_element c.prob (probs_of cs)) (scale_pred % 65536) (c ∷ cs)

-- The value of an `int` expression.
unfoldable pub int_of : ℤ → Call ℤ
int_of (pos n) = if ltb n (2 ^ 31) then returns (pos n) else faults
int_of (negsuc n) = if ltb n (2 ^ 31) then returns (negsuc n) else faults

unfoldable pub clamp : ℤ → ℤ → ℤ → ℤ
clamp x l r = if ltb_ℤ x l then l else if ltb_ℤ r x then r else x

-- `(x * scale_pred - means[i]) ± scale_pred / 2`
unfoldable pub edge : Bool → ℤ → ℕ → ℤ → Call ℤ
unfolding int_of
edge upper x scale_pred mean = do
  scaled ← int_of (x *ℤ pos scale_pred)
  centred ← int_of (scaled -ℤ mean)
  int_of (if upper then centred +ℤ pos (scale_pred / 2) else centred -ℤ pos (scale_pred / 2))

-- `clamp(edge * cdf_scale / stds[i], -base, base) + base`
unfoldable pub cdf_index : ℤ → ℤ → ℕ
unfolding clamp
cdf_index d std =
    pos_part (clamp (quot (d *ℤ pos 10000) std) (negsuc 49999) (pos 50000) +ℤ pos 50000)

-- The sum of a loop of get_bound; l_bound, r_bound, low and high are four of them.
unfoldable pub cumulate : Tables → ℕ → Bool → ℤ → ℕ → List (ℕ × Component) → Call ℕ
unfolding edge table_element cdf_index
cumulate tables scale_pred upper x prob_sum [] = returns 0
cumulate tables scale_pred upper x prob_sum ((weight, c) ∷ weighted) = do
  d ← edge upper x scale_pred c.mean
  share ← if is_zero c.std then faults else table_element tables.cdf_table (cdf_index d c.std)
  rest ← cumulate tables scale_pred upper x prob_sum weighted
  if prob_sum == 0
      then faults
      else returns ((1000000 * share % 2 ^ 64 / prob_sum * weight + rest) % 2 ^ 64)

-- An `int` as a `uint64_t`.
abbrev pub to_word : ℤ → ℕ
to_word (pos n) = n % 2 ^ 64
to_word (negsuc n) = 2 ^ 64 - 1 - n % 2 ^ 64

-- `a / y_bound - b / y_bound + x` as a `uint32_t`
abbrev pub between : ℕ → ℕ → ℤ → ℕ
between a b x = (a / 4294967295 + 2 ^ 64 - b / 4294967295 + to_word x) % 2 ^ 32

-- EncTable::get_bound for `x`, on what EncTable::update leaves.
unfoldable pub get_bound : Tables → ℕ → ℤ → ℤ → List (ℕ × Component) × ℕ → ℤ → Call Symbol
unfolding cumulate
get_bound tables scale_pred low_bound high_bound (weighted, prob_sum) x = do
  l_bound ← cumulate tables scale_pred false low_bound prob_sum weighted
  r_bound ← cumulate tables scale_pred true high_bound prob_sum weighted
  low ← cumulate tables scale_pred false x prob_sum weighted
  high ← cumulate tables scale_pred true x prob_sum weighted
  returns (record {
    total = between r_bound l_bound (high_bound -ℤ low_bound +ℤ pos 1);
    sym_low = between low l_bound (x -ℤ low_bound);
    sym_high = between high l_bound (x -ℤ low_bound +ℤ pos 1);
  })

-- EncTable::update and EncTable::get_bound, as the loop of `codings` calls them.
unfoldable pub enc_symbol : Tables → ℕ → ℤ → ℤ → List Component → ℤ → Call Symbol
unfolding softmax get_bound
enc_symbol tables scale_pred low_bound high_bound components x =
    softmax tables scale_pred components >>= λ weighted.
    get_bound tables scale_pred low_bound high_bound weighted x

-- ===== src/Slave/Encode.antt =====
-- The entropy coding in process_data_frames of
-- project-spec/meta-user/recipes-apps/autostart/src/main.c: the coefficients of the three channels that
-- the accelerator gives are cut into 13 parts each and handed to `codings`.
pub mod Zero
pub mod Flat
use soc.Common.{
  ℕ, zero, suc, ◌+◌, ◌/◌, List, [], ◌∷◌, ◌++◌, length, take, drop, get_or, Option, none, some, Bool,
  leb, ◌==◌, if◌then◌else◌,
}
use soc.Common.Effects.{Call, returns, exits, faults, ◌>>=◌, ◌>?>◌, ℤ}
use soc.Protocol.Gmm.{GmmT, entropy_to_gmm}
use soc.Coder.Table.{Tables}
use soc.Coder.Codings.{Channel, CodingResult, codings}

-- trans[k] and entropy[k] as arrays of `int16_t`, the latter by their bits, and what the memory for
-- `gmm` holds, `none` if malloc finds none.
pub record Coefficients : Type 0 where
  pub trans : List ℤ
  pub entropy : List ℕ
  pub gmm : Option (ℕ → GmmT)

-- The array `gmm` of `n` entries.
abbrev pub entries_from : (ℕ → GmmT) → ℕ → ℕ → List GmmT
entries_from gmm i zero = []
entries_from gmm i (suc n) = gmm i ∷ entries_from gmm (suc i) n

-- The loop over the parts of a channel. `codings` reads the whole of each.
unfoldable pub cut : List ℕ → List ℤ → List GmmT → Call (List Channel)
cut [] trans gmm = returns []
cut (len ∷ lens) trans gmm =
    let rest = cut lens (drop len trans) (drop len gmm) in
    if leb len (length trans)
    then (rest >>= λ parts. returns (record { gmm = gmm; datum = take len trans } ∷ parts))
    else faults

-- The body of the loop over the channels. The assertion ends the process. Memory that malloc did not
-- find is read or written, whatever the number of entries, since no part is empty.
unfoldable pub channel_parts : List ℕ → Coefficients → Call (Option (List Channel))
channel_parts lens c =
    let gmm_len = length c.entropy / 9 in
    if gmm_len == length c.trans
    then elim c.gmm [
      | none ↦ faults
      | some gmm ↦ returns (entropy_to_gmm (λ i. get_or c.entropy i 0) gmm gmm_len) >?> λ gmm'.
          cut lens c.trans (entries_from gmm' 0 gmm_len) >>= λ parts. returns (some parts)
    ]
    else exits

-- The sizes of the parts.
abbrev pub lens_y : List ℕ
lens_y =
    32400 ∷ 32400 ∷ 32400 ∷ 32400 ∷ 129600 ∷ 129600 ∷ 129600 ∷ 518400 ∷ 518400 ∷ 518400 ∷ 2073600
    ∷ 2073600 ∷ 2073600 ∷ []

abbrev pub lens_uv : List ℕ
lens_uv =
    8160 ∷ 8160 ∷ 8160 ∷ 8160 ∷ 32640 ∷ 32640 ∷ 32640 ∷ 130560 ∷ 130560 ∷ 130560 ∷ 522240 ∷ 522240
    ∷ 522240 ∷ []

-- From the coefficients of y', u' and v' to the bit stream.
unfoldable pub encode_coefficients :
    ℕ
    → (ℕ → Bool)
    → Tables
    → Coefficients
    → Coefficients
    → Coefficients
    → Call (Option CodingResult)
encode_coefficients fuel allocates tables y u v = channel_parts lens_y y >?> λ parts_y.
    channel_parts lens_uv u >?> λ parts_u. channel_parts lens_uv v >?> λ parts_v.
    codings fuel allocates tables 10000 (parts_y ++ (parts_u ++ parts_v))

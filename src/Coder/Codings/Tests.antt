-- ===== src/Coder/Codings/Tests.antt =====
-- The theorems about the tables and about `codings`, applied to 39 channels of two values.
use soc.Common.{
  ℕ, suc, zero, ◌+◌, ◌*◌, ◌^◌, ◌≤◌, ◌≡◌, refl, List, [], ◌∷◌, length, replicate, All, true, some,
  arith,
}
use soc.Common.Effects.{pos, negsuc, returns}
use soc.Protocol.Gmm.{GmmT}
use soc.Coder.{Symbol}
use soc.Coder.Stream.{bytes_value}
use soc.Coder.Interval.{Decodes}
use soc.Coder.Message.{unit_interval}
use soc.Coder.Update.{IsSymbol}
use soc.Coder.Table.{Component, enc_symbol}
use soc.Coder.Table.Sums.{IsComponent}
use soc.Coder.Table.Values.{enc_symbol-IsSymbol}
use soc.Coder.Codings.{Channel, codings}
use soc.Coder.Codings.Symbols.{IsEntry, IsChannel, all_symbols}
use soc.Coder.Codings.Example.{example_tables, example_tables-IsTables}
use soc.Coder.Codings.Channels.{data_size}
use soc.Coder.Codings.Result.{IsInput, result_of, codings-Decodes}
use soc.Coder.Codings.Distinct.{Alike, codings-injective}

abbrev density : Component
density = record { prob = negsuc 7; mean = pos 120; std = pos 9000 }

density-IsComponent : IsComponent density
density-IsComponent = record {
  mean = record { above = omega arith; below = omega arith };
  std = omega arith;
}

enc_symbol-IsSymbol_example :
    (s s' : Symbol) × (enc_symbol example_tables 10000
        (negsuc 4)
        (pos 3)
        (density ∷ density ∷ density ∷ [])
        (negsuc 4)
      ≡ returns s)
    × (enc_symbol example_tables 10000 (negsuc 4) (pos 3) (density ∷ density ∷ density ∷ []) (pos 2)
        ≡ returns s')
    × IsSymbol s
    × IsSymbol s'
    × (s.total ≡ s'.total)
    × (s.sym_high ≤ s'.sym_low)
enc_symbol-IsSymbol_example =
    enc_symbol-IsSymbol example_tables 10000 (negsuc 4) (pos 3) density (density ∷ density ∷ [])
      example_tables-IsTables (omega arith) (omega arith)
      (record { above = omega arith; below = omega arith })
      (record { above = omega arith; below = omega arith })
      (density-IsComponent, (density-IsComponent, (density-IsComponent, tt))) (negsuc 4) (pos 2)
      (omega arith) (omega arith) (omega arith)

-- Probabilities -8, 5 and 0, means 120, -3 and 0.
abbrev entry : GmmT
entry = record {
  prob1 = 65528;
  prob2 = 5;
  prob3 = 0;
  mean1 = 120;
  mean2 = 65533;
  mean3 = 0;
  std1 = 9000;
  std2 = 20000;
  std3 = 1;
}

entry-IsEntry : IsEntry entry
entry-IsEntry = record { positive1 = omega arith; positive2 = omega arith; positive3 = omega arith }

abbrev channel : Channel
channel = record { gmm = entry ∷ entry ∷ []; datum = negsuc 4 ∷ pos 3 ∷ [] }

channel-IsChannel : IsChannel channel
channel-IsChannel = record {
  some_data = omega arith;
  few_data = omega arith;
  in_16_bits = (
    record { above = omega arith; below = omega arith },
    (record { above = omega arith; below = omega arith }, tt),
  );
  enough_entries = omega arith;
  entries = (entry-IsEntry, (entry-IsEntry, tt));
}

abbrev picture : List Channel
picture = replicate 39 channel

All-replicate : (n : ℕ) → All IsChannel (replicate n channel)
All-replicate zero = tt
All-replicate (suc n) = (channel-IsChannel, All-replicate n)

picture-IsInput : IsInput (λ n. true) example_tables 10000 picture
picture-IsInput = record {
  tables = example_tables-IsTables;
  some_scale = omega arith;
  small_scale = omega arith;
  sub_cnt = refl;
  good = All-replicate 39;
  few = omega arith;
  memory = refl;
}

codings-Decodes_example :
    (code : List ℕ) × (codings 33 (λ n. true) example_tables 10000 picture
      ≡ returns (some (result_of picture code)))
    × (156 + length code ≤ 8 * data_size picture)
    × Decodes
        (bytes_value 0 code)
        (2 ^ (8 * length code))
        unit_interval
        (all_symbols example_tables 10000 picture)
codings-Decodes_example = codings-Decodes (λ n. true) example_tables 10000 picture picture-IsInput

Alike-same : (n : ℕ) → Alike (replicate n channel) (replicate n channel)
Alike-same zero = tt
Alike-same (suc n) = ((refl, refl), Alike-same n)

codings-injective_example : picture ≡ picture
codings-injective_example =
    codings-injective (λ n. true) example_tables 10000 picture picture picture-IsInput
      picture-IsInput (Alike-same 39) refl

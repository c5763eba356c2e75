-- ===== src/Coder/Tests.antt =====
-- The theorems about the encoder, applied to concrete messages.
use soc.Common.{ℕ, ◌≡◌, refl, List, [], ◌∷◌, length, some, arith, ◌^◌, ◌*◌}
use soc.Common.Effects.{returns}
use soc.Coder.{BitOutputStream, Symbol, encode_symbols}
use soc.Coder.Stream.{bytes_value}
use soc.Coder.Interval.{Decodes}
use soc.Coder.Message.{unit_interval, encode_symbols-Decodes}

-- A quarter of the parts, in the middle, and the rest.
abbrev middle : Symbol
middle = record { total = 4; sym_low = 1; sym_high = 2 }

abbrev last : Symbol
last = record { total = 4; sym_low = 2; sym_high = 4 }

abbrev out_of : List ℕ → BitOutputStream
out_of bytes = record { current_byte = 0; num_bits_filled = 0; bytes = bytes }

abbrev message : List Symbol
message = middle ∷ last ∷ middle ∷ []

abbrev other : List Symbol
other = middle ∷ middle ∷ last ∷ []

-- 01 1 01 1
message_bytes : encode_symbols 33 message ≡ returns (some (out_of (0x6c ∷ [])))
unfolding encode_symbols
message_bytes = refl

other_bytes : encode_symbols 33 other ≡ returns (some (out_of (0x5c ∷ [])))
unfolding encode_symbols
other_bytes = refl

encode_symbols-Decodes_example :
    (out : BitOutputStream) × (encode_symbols 33 message ≡ returns (some out))
    × (out.num_bits_filled ≡ 0)
    × Decodes (bytes_value 0 out.bytes) (2 ^ (8 * length out.bytes)) unit_interval message
encode_symbols-Decodes_example = encode_symbols-Decodes message (omega arith) (omega arith)

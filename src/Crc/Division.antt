-- ===== src/Crc/Division.antt =====
-- What the checksum is: the remainder of the message's polynomial by x^16 + x^12 + x^5 + 1, one bit
-- at a time, from a register of ones. This is the generator polynomial of
-- docs/serial-transmission-protocol.md and of the comment in crc.c.
use soc.Common.{ℕ, zero, suc, ◌*◌, ◌%◌, List, [], ◌∷◌, leb, if◌then◌else◌, bit_xor}

-- x^12 + x^5 + 1, the polynomial without its leading term.
abbrev pub generator : ℕ
generator = 0x1021

-- Shift by one bit, and subtract the generator if a one was shifted out.
unfoldable pub divide_bit : ℕ → ℕ
divide_bit r = bit_xor (r * 2 % 65536) (if leb 32768 r then generator else 0)

unfoldable pub divide_bits : ℕ → ℕ → ℕ
divide_bits zero r = r
divide_bits (suc n) r = divide_bits n (divide_bit r)

unfoldable pub divide_byte : ℕ → ℕ → ℕ
divide_byte r byte = divide_bits 8 (bit_xor r (byte * 256))

unfoldable pub remainder : ℕ → List ℕ → ℕ
remainder r [] = r
remainder r (byte ∷ rest) = remainder (divide_byte r byte) rest

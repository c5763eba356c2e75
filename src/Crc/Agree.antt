-- ===== src/Crc/Agree.antt =====
-- The table-driven loop computes the bitwise remainder.
use soc.Common.{
  ℕ, zero, suc, ◌+◌, ◌*◌, ◌/◌, ◌%◌, ◌^◌, ◌<◌, ◌≡◌, refl, sym, ap, ◌∙◌, List, [], ◌∷◌, get_or,
  bit_xor, bit_and, arith, ◌==◌, ==_iff, All, true,
}
use soc.Common.Bits.{
  holds_below, holds_below_sound, xor_fields, xor_lt_pow, xor-zero, zero-xor, xor_assoc, xor_comm,
}
use soc.Common.Masks.{bit_and_low}
use native.Mathlib.Nat.{pow-suc, one-le-pow}
use soc.Crc.Table.{lt}
use soc.Crc.Division.{divide_bit, divide_bits, divide_byte, remainder}
use soc.Crc.{update, register}

table : holds_below (λ c. get_or lt c 0 == divide_bits 8 (c * 256)) 256 ≡ true
unfolding holds_below lt divide_bits divide_bit
table = refl

lt-divide_bits : (c : ℕ) → c < 256 → get_or lt c 0 ≡ divide_bits 8 (c * 256)
lt-divide_bits c h = (==_iff _ _).0 (holds_below_sound _ 256 table c h)

-- A bit that is not shifted out of the register passes through a round unchanged.
divide_bit-xor :
    (a l : ℕ) → a < 65536 → l < 32768 → divide_bit (bit_xor a l) ≡ bit_xor (divide_bit a) (l * 2)
unfolding divide_bit
divide_bit-xor a l ha hl = ground (arith, cut, low, doubled, exchange 0x1021, exchange 0)
  where
    q : ℕ
    q = a / 32768

    r : ℕ
    r = a % 32768

    cut : bit_xor a l ≡ q * 32768 + bit_xor r l
    cut = ground (arith, xor_fields 15 q r 0 l (omega arith) hl, xor-zero q)

    low : bit_xor r l < 32768
    low = xor_lt_pow 15 r l (omega arith) hl

    doubled : bit_xor (r * 2) (l * 2) ≡ bit_xor r l * 2
    doubled = ground (arith, xor_fields 1 r 0 l 0 (omega arith) (omega arith))

    exchange : (g : ℕ) → bit_xor (bit_xor (r * 2) (l * 2)) g ≡ bit_xor (bit_xor (r * 2) g) (l * 2)
    exchange g = xor_assoc _ _ _ ∙ ap (bit_xor (r * 2)) (xor_comm (l * 2) g) ∙ sym (xor_assoc _ _ _)

pub divide_bit-lt : (a : ℕ) → divide_bit a < 65536
unfolding divide_bit
divide_bit-lt a =
    ground (arith, xor_lt_pow 16 (a * 2 % 65536) 0x1021, xor_lt_pow 16 (a * 2 % 65536) 0)

pub divide_bits-lt : (n a : ℕ) → a < 65536 → divide_bits n a < 65536
unfolding divide_bits
divide_bits-lt zero a h = h
divide_bits-lt (suc n) a h = divide_bits-lt n (divide_bit a) (divide_bit-lt a)

-- So eight rounds carry the low byte to the high one, beside what they do to the rest.
pub divide_bits-xor :
    (n a l : ℕ)
    → a < 65536
    → l * 2 ^ n < 65536
    → divide_bits n (bit_xor a l) ≡ bit_xor (divide_bits n a) (l * 2 ^ n)
unfolding divide_bits
divide_bits-xor zero a l ha hl = ground (arith)
divide_bits-xor (suc n) a l ha hl =
    let scaled : l * 2 ^ suc n ≡ l * 2 * 2 ^ n =
      omega (arith, ap (λ (t : ℕ). l * t) (pow-suc 2 n)) in
    let fits : l < 32768 = grind (arith, one-le-pow n 2) in
    rw (divide_bit-xor a l ha fits, scaled)
      (divide_bits-xor n (divide_bit a) (l * 2) (divide_bit-lt a) (rw (← scaled) hl))

index :
    (r byte : ℕ)
    → r < 65536
    → byte < 256
    → bit_and (bit_xor (r / 256 % 256) byte) 0xff ≡ bit_xor (r / 256) byte
index r byte hr hb =
    ground (arith, bit_and_low 8 (bit_xor (r / 256) byte), xor_lt_pow 8 (r / 256) byte)

split : (r byte : ℕ) → bit_xor r (byte * 256) ≡ bit_xor (bit_xor (r / 256) byte * 256) (r % 256)
split r byte = ground (
  arith,
  xor_fields 8 (r / 256) (r % 256) byte 0 (omega arith) (omega arith),
  xor_fields 8 (bit_xor (r / 256) byte) 0 0 (r % 256) (omega arith) (omega arith),
  xor-zero (r % 256),
  zero-xor (r % 256),
  xor-zero (bit_xor (r / 256) byte),
)

pub divide_byte-lt : (r byte : ℕ) → r < 65536 → divide_byte r byte < 65536
unfolding divide_byte divide_bits
divide_byte-lt r byte h = divide_bit-lt _

-- A table look-up is eight rounds of the division.
pub update-divide_byte : (r byte : ℕ) → r < 65536 → byte < 256 → update r byte ≡ divide_byte r byte
unfolding update divide_byte
update-divide_byte r byte hr hb =
    let c_lt : bit_xor (r / 256) byte < 256 = xor_lt_pow 8 (r / 256) byte (omega arith) hb in
    rw (index r byte hr hb, lt-divide_bits _ c_lt, split r byte)
      (ground (
        arith,
        xor_comm (r * 256 % 65536) (divide_bits 8 (bit_xor (r / 256) byte * 256)),
        divide_bits-xor 8 (bit_xor (r / 256) byte * 256) (r % 256) (omega arith) (omega arith),
      ))

pub register-remainder :
    (r : ℕ) (buffer : List ℕ)
    → r < 65536
    → All (λ byte. byte < 256) buffer
    → register r buffer ≡ remainder r buffer
unfolding register remainder
register-remainder r [] hr hb = refl
register-remainder r (byte ∷ rest) hr hb =
    rw (update-divide_byte r byte hr hb.0)
      (register-remainder (divide_byte r byte) rest (divide_byte-lt r byte hr) hb.1)

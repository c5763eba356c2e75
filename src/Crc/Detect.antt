-- ===== src/Crc/Detect.antt =====
-- What crc16 returns, and which transmission errors it cannot miss.
use soc.Common.{
  ℕ, zero, suc, ◌+◌, ◌*◌, ◌/◌, ◌%◌, ◌<◌, ◌≡◌, ◌≢◌, refl, sym, ap, ◌∙◌, List, [], ◌∷◌, ◌++◌, bit_xor,
  arith, All, All-append,
}
use soc.Common.Bits.{
  xor_fields, xor-zero, zero-xor, xor_assoc, xor_cancel, xor_parity, xor_comm, xor_lt_pow,
}
use soc.Common.Masks.{bit_and_low, bit_or_sum_right}
use soc.Crc.Division.{divide_bit, divide_bits, divide_byte, remainder}
use soc.Crc.Agree.{divide_bit-lt, divide_byte-lt, divide_bits-xor, register-remainder}
use soc.Crc.{register, swap_bytes, crc16}

swap_bytes_lem : (r : ℕ) → r < 65536 → swap_bytes r ≡ r % 256 * 256 + r / 256
unfolding swap_bytes
swap_bytes_lem r h = ground (arith, bit_and_low 8 r, bit_or_sum_right 8 (r % 256) (r / 256))

remainder-lt : (r : ℕ) (buffer : List ℕ) → r < 65536 → remainder r buffer < 65536
unfolding remainder
remainder-lt r [] h = h
remainder-lt r (byte ∷ rest) h = remainder-lt (divide_byte r byte) rest (divide_byte-lt r byte h)

-- crc16 of bytes is the remainder of the message by the generator polynomial, from a register of
-- ones, with the high byte of the remainder in the low byte of the result.
pub crc16-remainder :
    (buffer : List ℕ)
    → All (λ byte. byte < 256) buffer
    → crc16 buffer ≡ remainder 0xffff buffer % 256 * 256 + remainder 0xffff buffer / 256
unfolding crc16
crc16-remainder buffer bytes =
    rw (register-remainder 0xffff buffer (omega arith) bytes)
      (swap_bytes_lem _ (remainder-lt 0xffff buffer (omega arith)))

-- The last bit of the new register tells the bit that was shifted out.
divide_bit_injective : (a b : ℕ) → a < 65536 → b < 65536 → divide_bit a ≡ divide_bit b → a ≡ b
unfolding divide_bit
divide_bit_injective a b ha hb e = ground (
  arith,
  xor_parity (a * 2 % 65536) 0x1021,
  xor_parity (b * 2 % 65536) 0x1021,
  xor_comm (a * 2 % 65536) 0x1021,
  xor_comm (b * 2 % 65536) 0x1021,
  xor_cancel 0x1021 (a * 2 % 65536) (b * 2 % 65536),
  xor-zero (a * 2 % 65536),
  xor-zero (b * 2 % 65536),
)

divide_bits_injective :
    (n a b : ℕ) → a < 65536 → b < 65536 → divide_bits n a ≡ divide_bits n b → a ≡ b
unfolding divide_bits
divide_bits_injective zero a b ha hb e = e
divide_bits_injective (suc n) a b ha hb e =
    divide_bit_injective a b ha hb
      (divide_bits_injective n _ _ (divide_bit-lt a) (divide_bit-lt b) e)

joined : (a b : ℕ) → b < 256 → bit_xor (a * 256) b ≡ a * 256 + b
joined a b h = ground (arith, xor_fields 8 a 0 0 b (omega arith) h, xor-zero a, zero-xor b)

-- Two bytes enter the register as one number of sixteen bits.
two_bytes :
    (r a b : ℕ)
    → r < 65536
    → a < 256
    → b < 256
    → divide_byte (divide_byte r a) b ≡ divide_bits 16 (bit_xor r (a * 256 + b))
unfolding divide_byte divide_bits
two_bytes r a b hr ha hb =
    rw (← joined a b hb, ← xor_assoc r (a * 256) b)
      (ap (divide_bits 8) (
        sym (
          divide_bits-xor 8 (bit_xor r (a * 256)) b (xor_lt_pow 16 r (a * 256) hr (omega arith))
            (omega arith))))

two_bytes_injective :
    (r a b a' b' : ℕ)
    → r < 65536
    → (a < 256) × (b < 256) × (a' < 256) × (b' < 256)
    → divide_byte (divide_byte r a) b ≡ divide_byte (divide_byte r a') b'
    → (a ≡ a') × (b ≡ b')
two_bytes_injective r a b a' b' hr h e = omega (arith, xor_cancel r _ _ same)
  where
    same : bit_xor r (a * 256 + b) ≡ bit_xor r (a' * 256 + b')
    same =
        divide_bits_injective 16 _ _ (xor_lt_pow 16 r _ hr (omega arith))
          (xor_lt_pow 16 r _ hr (omega arith))
          (sym (two_bytes r a b hr h.0 h.1) ∙ e ∙ two_bytes r a' b' hr h.2 h.3)

divide_byte_injective :
    (r r' y : ℕ) → r < 65536 → r' < 65536 → y < 256 → divide_byte r y ≡ divide_byte r' y → r ≡ r'
unfolding divide_byte
divide_byte_injective r r' y hr hr' hy e = xor_cancel (y * 256) r r' (
    xor_comm (y * 256) r
    ∙ divide_bits_injective 8 _ _ (xor_lt_pow 16 r _ hr (omega arith))
        (xor_lt_pow 16 r' _ hr' (omega arith)) e
    ∙ xor_comm r' (y * 256))

remainder_injective :
    (r r' : ℕ) (ys : List ℕ)
    → r < 65536
    → r' < 65536
    → All (λ byte. byte < 256) ys
    → remainder r ys ≡ remainder r' ys
    → r ≡ r'
unfolding remainder
remainder_injective r r' [] hr hr' hy e = e
remainder_injective r r' (y ∷ ys) hr hr' hy e = divide_byte_injective r r' y hr hr' hy.0 (
    remainder_injective (divide_byte r y) (divide_byte r' y) ys (divide_byte-lt r y hr)
      (divide_byte-lt r' y hr') hy.1 e)

swap_bytes_injective : (a b : ℕ) → a < 65536 → b < 65536 → swap_bytes a ≡ swap_bytes b → a ≡ b
swap_bytes_injective a b ha hb e = omega (arith, swap_bytes_lem a ha, swap_bytes_lem b hb)

remainder-append : (r : ℕ) (xs ys : List ℕ) → remainder r (xs ++ ys) ≡ remainder (remainder r xs) ys
unfolding remainder
remainder-append r [] ys = refl
remainder-append r (x ∷ xs) ys = remainder-append (divide_byte r x) xs ys

equal_crc16 :
    (xs ys : List ℕ) (a b a' b' : ℕ)
    → All (λ byte. byte < 256) xs
    → All (λ byte. byte < 256) ys
    → (a < 256) × (b < 256) × (a' < 256) × (b' < 256)
    → crc16 (xs ++ (a ∷ b ∷ ys)) ≡ crc16 (xs ++ (a' ∷ b' ∷ ys))
    → (a ≡ a') × (b ≡ b')
unfolding crc16 remainder
equal_crc16 xs ys a b a' b' hx hy h e =
    two_bytes_injective (remainder 0xffff xs) a b a' b' start h (
      remainder_injective _ _ ys (divide_byte-lt _ b (divide_byte-lt _ a start))
        (divide_byte-lt _ b' (divide_byte-lt _ a' start)) hy
        (sym (remainder-append 0xffff xs (a ∷ b ∷ ys))
          ∙ whole
          ∙ remainder-append 0xffff xs (a' ∷ b' ∷ ys)))
  where
    start : remainder 0xffff xs < 65536
    start = remainder-lt 0xffff xs (omega arith)

    agree :
        (zs : List ℕ)
        → All (λ byte. byte < 256) zs
        → register 0xffff (xs ++ zs) ≡ remainder 0xffff (xs ++ zs)
    agree zs hz =
        register-remainder 0xffff (xs ++ zs) (omega arith)
          (All-append (λ byte. byte < 256) xs zs hx hz)

    whole : remainder 0xffff (xs ++ (a ∷ b ∷ ys)) ≡ remainder 0xffff (xs ++ (a' ∷ b' ∷ ys))
    whole =
        swap_bytes_injective _ _ (remainder-lt 0xffff (xs ++ (a ∷ b ∷ ys)) (omega arith))
          (remainder-lt 0xffff (xs ++ (a' ∷ b' ∷ ys)) (omega arith))
          (ap swap_bytes (sym (agree (a ∷ b ∷ ys) (h.0, (h.1, hy))))
            ∙ e
            ∙ ap swap_bytes (agree (a' ∷ b' ∷ ys) (h.2, (h.3, hy))))

-- Two messages of bytes that differ within two neighbouring bytes, and agree before and after,
-- never have the same checksum.
pub crc16_detects :
    (xs ys : List ℕ) (a b a' b' : ℕ)
    → All (λ byte. byte < 256) xs
    → All (λ byte. byte < 256) ys
    → (a < 256) × (b < 256) × (a' < 256) × (b' < 256)
    → ¬ ((a ≡ a') × (b ≡ b'))
    → crc16 (xs ++ (a ∷ b ∷ ys)) ≢ crc16 (xs ++ (a' ∷ b' ∷ ys))
crc16_detects xs ys a b a' b' hx hy h changed e = changed (equal_crc16 xs ys a b a' b' hx hy h e)

-- The result fits a `uint16_t`.
pub crc16-lt : (buffer : List ℕ) → crc16 buffer < 65536
unfolding crc16 swap_bytes
crc16-lt buffer = omega arith

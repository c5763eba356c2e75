-- ===== src/Crc.antt =====
-- crc16 of project-spec/meta-user/recipes-apps/autostart/src/crc.c. A `uint16_t` and a byte are
-- numbers; each assignment to `r` is cut to 16 bits where the C type does it.
pub mod Table
pub mod Division
mod Agree
mod Tests
pub mod Detect
use soc.Common.{ℕ, ◌+◌, ◌*◌, ◌/◌, ◌%◌, List, [], ◌∷◌, get_or, bit_xor, bit_and, bit_or}
use Table.{lt}

-- One round of the loop. The mask keeps the index below 256, so the default is never read.
unfoldable pub update : ℕ → ℕ → ℕ
update r byte =
    bit_xor (r * 256 % 65536) (get_or lt (bit_and (bit_xor (r / 256 % 256) byte) 0xff) 0)

-- `while (count > 0)`, over the bytes that are left.
unfoldable pub register : ℕ → List ℕ → ℕ
register r [] = r
register r (byte ∷ rest) = register (update r byte) rest

-- The last assignment swaps the two bytes of the register.
unfoldable pub swap_bytes : ℕ → ℕ
swap_bytes r = bit_or (r / 256) (bit_and r 0xff * 256) % 65536

unfoldable pub crc16 : List ℕ → ℕ
crc16 buffer = swap_bytes (register 0xffff buffer)

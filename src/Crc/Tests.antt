-- ===== src/Crc/Tests.antt =====
-- crc16 at concrete messages, and its theorems applied.
use soc.Common.{ℕ, ◌%◌, ◌/◌, ◌*◌, ◌+◌, ◌≡◌, ◌≢◌, refl, List, [], ◌∷◌, arith}
use soc.Crc.{crc16, register, update, swap_bytes}
use soc.Crc.Table.{lt}
use soc.Crc.Division.{remainder}
use soc.Crc.Detect.{crc16-remainder, crc16_detects}

-- The first ten bytes of the master's query for file 0.
abbrev query : List ℕ
query = 0 ∷ 1 ∷ 0 ∷ 0 ∷ 0 ∷ 0 ∷ 0 ∷ 0 ∷ 0 ∷ 0 ∷ []

crc16-query : crc16 query ≡ 0x1a0a
unfolding crc16 register update swap_bytes lt
crc16-query = refl

-- The check value of the generator polynomial with a register of ones: 0x29b1 for "123456789".
crc16_check_value :
    crc16 (0x31 ∷ 0x32 ∷ 0x33 ∷ 0x34 ∷ 0x35 ∷ 0x36 ∷ 0x37 ∷ 0x38 ∷ 0x39 ∷ []) ≡ 0xb129
unfolding crc16 register update swap_bytes lt
crc16_check_value = refl

crc16-remainder_example :
    crc16 query ≡ remainder 0xffff query % 256 * 256 + remainder 0xffff query / 256
crc16-remainder_example = crc16-remainder query (omega arith)

crc16_detects_example : crc16 (1 ∷ 2 ∷ 3 ∷ 4 ∷ 5 ∷ []) ≢ crc16 (1 ∷ 2 ∷ 3 ∷ 6 ∷ 5 ∷ [])
crc16_detects_example =
    crc16_detects (1 ∷ 2 ∷ []) (5 ∷ []) 3 4 3 6 (omega arith) (omega arith) (omega arith)
      (omega arith)

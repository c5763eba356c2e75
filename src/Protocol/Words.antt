-- ===== src/Protocol/Words.antt =====
-- Machine words in memory, on the little-endian hosts that the program is built for (x86-64 and
-- aarch64), and the conversions of <endian.h> that transmission_protocol.c calls there.
use soc.Common.{ℕ, zero, suc, ◌+◌, ◌*◌, ◌/◌, ◌%◌, ◌^◌, ◌<◌, ◌≡◌, List, [], ◌∷◌, get_or, arith, All}

-- The bytes of an integer, lowest first.
abbrev pub store16 : ℕ → List ℕ → List ℕ
store16 x rest = x % 256 ∷ x / 256 % 256 ∷ rest

abbrev pub store24 : ℕ → List ℕ → List ℕ
store24 x rest = x % 256 ∷ x / 256 % 256 ∷ x / 65536 % 256 ∷ rest

abbrev pub store32 : ℕ → List ℕ → List ℕ
store32 x rest = x % 256 ∷ x / 256 % 256 ∷ x / 65536 % 256 ∷ x / 16777216 % 256 ∷ rest

-- The integer at an offset of a buffer.
abbrev pub load8 : List ℕ → ℕ → ℕ
load8 b i = get_or b i 0

abbrev pub load16 : List ℕ → ℕ → ℕ
load16 b i = load8 b i + load8 b (i + 1) * 256

abbrev pub load24 : List ℕ → ℕ → ℕ
load24 b i = load16 b i + load8 b (i + 2) * 65536

abbrev pub load32 : List ℕ → ℕ → ℕ
load32 b i = load24 b i + load8 b (i + 3) * 16777216

-- htobe16 and be16toh, htobe32 and be32toh: each reverses the bytes.
unfoldable pub htobe16 : ℕ → ℕ
htobe16 x = x % 256 * 256 + x / 256 % 256

unfoldable pub htobe32 : ℕ → ℕ
htobe32 x = x % 256 * 16777216 + x / 256 % 256 * 65536 + x / 65536 % 256 * 256 + x / 16777216 % 256

pub htobe16-htobe16 : (x : ℕ) → x < 2 ^ 16 → htobe16 (htobe16 x) ≡ x
unfolding htobe16
htobe16-htobe16 x h = omega arith

pub htobe32-htobe32 : (x : ℕ) → x < 2 ^ 32 → htobe32 (htobe32 x) ≡ x
unfolding htobe32
htobe32-htobe32 x h = omega arith

-- A 24-bit field that holds `htobe32(x) >> 8` comes back by the same expression, both ways round.
pub htobe24-htobe24 : (x : ℕ) → x < 2 ^ 24 → htobe32 (htobe32 x / 256 % 2 ^ 24) / 256 ≡ x
unfolding htobe32
htobe24-htobe24 x h = omega arith

pub htobe24_back : (x : ℕ) → x < 2 ^ 24 → htobe32 (htobe32 x / 256) / 256 % 2 ^ 24 ≡ x
unfolding htobe32
htobe24_back x h = omega arith

pub htobe16-lt : (x : ℕ) → htobe16 x < 2 ^ 16
unfolding htobe16
htobe16-lt x = omega arith

pub htobe32-lt : (x : ℕ) → htobe32 x < 2 ^ 32
unfolding htobe32
htobe32-lt x = omega arith

-- Storing a loaded word gives its bytes back; `k` deals with the memory behind the word.
abbrev pub IsByte : ℕ → Type 0
IsByte x = x < 256

pub store8_loaded :
    (a : ℕ) (xs ys : List ℕ)
    → All IsByte (a ∷ ys)
    → (All IsByte ys → xs ≡ ys)
    → a % 256 ∷ xs ≡ a ∷ ys
store8_loaded a xs ys h k = let e = k h.1 in ground arith

pub store16_loaded :
    (a b : ℕ) (xs ys : List ℕ)
    → All IsByte (a ∷ b ∷ ys)
    → (All IsByte ys → xs ≡ ys)
    → store16 (a + b * 256) xs ≡ a ∷ b ∷ ys
store16_loaded a b xs ys h k = let e = k h.1.1 in ground arith

pub store24_loaded :
    (a b c : ℕ) (xs ys : List ℕ)
    → All IsByte (a ∷ b ∷ c ∷ ys)
    → (All IsByte ys → xs ≡ ys)
    → store24 (a + b * 256 + c * 65536) xs ≡ a ∷ b ∷ c ∷ ys
store24_loaded a b c xs ys h k = let e = k h.1.1.1 in ground arith

pub store32_loaded :
    (a b c d : ℕ) (xs ys : List ℕ)
    → All IsByte (a ∷ b ∷ c ∷ d ∷ ys)
    → (All IsByte ys → xs ≡ ys)
    → store32 (a + b * 256 + c * 65536 + d * 16777216) xs ≡ a ∷ b ∷ c ∷ d ∷ ys
store32_loaded a b c d xs ys h k = let e = k h.1.1.1.1 in ground arith

-- Memory of bytes holds words in range.
pub load8-lt : (b : List ℕ) (i : ℕ) → All IsByte b → load8 b i < 256
load8-lt [] i h = omega arith
load8-lt (x ∷ b) zero h = h.0
load8-lt (x ∷ b) (suc i) h = load8-lt b i h.1

pub load16-lt : (b : List ℕ) (i : ℕ) → All IsByte b → load16 b i < 65536
load16-lt b i h = omega (arith, load8-lt b i h, load8-lt b (i + 1) h)

pub load24-lt : (b : List ℕ) (i : ℕ) → All IsByte b → load24 b i < 16777216
load24-lt b i h = omega (arith, load16-lt b i h, load8-lt b (i + 2) h)

pub load32-lt : (b : List ℕ) (i : ℕ) → All IsByte b → load32 b i < 4294967296
load32-lt b i h = omega (arith, load24-lt b i h, load8-lt b (i + 3) h)

-- ===== src/Coder/Stream.antt =====
-- What BitOutputStream writes, as a number: the bits, the first one highest.
use soc.Common.{
  ℕ, zero, suc, ◌+◌, ◌-◌, ◌*◌, ◌%◌, ◌^◌, ◌≤◌, ◌<◌, ◌≡◌, ◌≢◌, refl, ap, ◌∙◌, List, [], ◌∷◌, ◌++◌,
  length, length-append, leb, ◌==◌, arith, Bool-cases, false, inl, inr, some,
}
use soc.Common.Effects.{returns}
use soc.Common.Masks.{bit_or_sum}
use soc.Coder.{BitOutputStream, write, write_times, finish_stream, push_bit}
use native.Mathlib.Numerals.{add-one}
use native.Mathlib.Nat.{pow-suc, one-le-pow}

-- Bytes as the digits of a number.
abbrev pub bytes_value : ℕ → List ℕ → ℕ
bytes_value acc [] = acc
bytes_value acc (b ∷ bytes) = bytes_value (acc * 256 + b) bytes

-- All bits written so far, those of the unfinished byte last, and their number.
unfoldable pub value : BitOutputStream → ℕ
value out = bytes_value 0 out.bytes * 2 ^ out.num_bits_filled + out.current_byte

unfoldable pub bit_count : BitOutputStream → ℕ
bit_count out = 8 * length out.bytes + out.num_bits_filled

pub record IsStream (out : BitOutputStream) : Type 0 where
  pub filled : out.num_bits_filled < 8
  pub small : out.current_byte < 2 ^ out.num_bits_filled

bytes_value-append :
    (acc : ℕ) (bytes : List ℕ) (b : ℕ)
    → bytes_value acc (bytes ++ b ∷ []) ≡ bytes_value acc bytes * 256 + b
bytes_value-append acc [] b = refl
bytes_value-append acc (a ∷ bytes) b = bytes_value-append (acc * 256 + a) bytes b

pub push_bit_sum :
    (out : BitOutputStream) (b : ℕ) → b < 2 → push_bit out b ≡ out.current_byte * 2 + b
push_bit_sum out b h = bit_or_sum 1 out.current_byte b h

pow-last : (n : ℕ) → n + 1 ≡ 8 → 2 ^ n ≡ 128
pow-last n e = let last : n ≡ 7 = omega (arith, e) in ap (λ (k : ℕ). 2 ^ k) last

pow-next : (n : ℕ) → 2 ^ (n + 1) ≡ 2 ^ n * 2
pow-next n = rw (add-one n) (pow-suc 2 n)

-- A run of `write` that appends the bits of `b`, `n` of them.
pub record Appends (out out' : BitOutputStream) (n b : ℕ) : Type 0 where
  pub stream : IsStream out'
  pub valued : value out' ≡ value out * 2 ^ n + b
  pub counted : bit_count out' ≡ bit_count out + n

pub write_lem :
    (b : ℕ) (out : BitOutputStream)
    → b < 2
    → IsStream out
    → (out' : BitOutputStream) × (write b out ≡ returns out') × Appends out out' 1 b
unfolding write value bit_count
write_lem b out h s = elim (Bool-cases (out.num_bits_filled + 1 == 8)) [
  | inl full ↦
      let n : out.num_bits_filled + 1 ≡ 8 = ground arith in
      let p = pow-last out.num_bits_filled n in
      let bound : out.current_byte < 128 = rw (← p) s.small in
      let append = bytes_value-append 0 out.bytes (push_bit out b % 256) in
      let pushed = push_bit_sum out b h in
      (
        record {
          current_byte = 0;
          num_bits_filled = 0;
          bytes = out.bytes ++ push_bit out b % 256 ∷ [];
        },
        rw (bit, full) refl,
        record {
          stream = record { filled = omega arith; small = omega arith };
          valued = omega (arith, append, pushed, bound, ap (λ t. bytes_value 0 out.bytes * t) p);
          counted = omega (arith, n, length-append out.bytes (push_bit out b % 256 ∷ []));
        },
      )
  | inr more ↦
      let n : out.num_bits_filled + 1 ≢ 8 = ground arith in
      let pushed = push_bit_sum out b h in
      let next = pow-next out.num_bits_filled in
      (
        record out { current_byte = push_bit out b; num_bits_filled = out.num_bits_filled + 1 },
        rw (bit, more) refl,
        record {
          stream = record {
            filled = omega (arith, n, s.filled);
            small = omega (arith, pushed, next, s.small);
          };
          valued = omega (arith, pushed, ap (λ t. bytes_value 0 out.bytes * t) next);
          counted = omega arith;
        },
      )
]
  where
    bit : leb 2 b ≡ false
    bit = ground arith

pub Appends-none : (out : BitOutputStream) → IsStream out → Appends out out 0 0
Appends-none out s = record { stream = s; valued = omega arith; counted = omega arith }

-- `n` equal bits.
unfoldable pub run_value : ℕ → ℕ → ℕ
run_value n b = b * (2 ^ n - 1)

run_step :
    (v b n : ℕ)
    → b < 2
    → (v * 2 ^ 1 + b) * 2 ^ n + run_value n b ≡ v * 2 ^ suc n + run_value (suc n) b
unfolding run_value
run_step v zero n h = omega (arith, ap (λ (t : ℕ). v * t) (pow-suc 2 n))
run_step v (suc zero) n h =
    omega (arith, ap (λ (t : ℕ). v * t) (pow-suc 2 n), pow-suc 2 n, one-le-pow n 2)
run_step v (suc (suc b)) n h = absurd (omega arith)

pub write_times_lem :
    (n b : ℕ) (out : BitOutputStream)
    → b < 2
    → IsStream out
    → (out' : BitOutputStream) × (write_times n b out ≡ returns out')
      × Appends out out' n (run_value n b)
unfolding write_times run_value
write_times_lem zero b out h s =
    (out, refl, record { stream = s; valued = omega arith; counted = omega arith })
write_times_lem (suc n) b out h s =
    let (out1, e1, a1) = write_lem b out h s in
    let (out', e', a') = write_times_lem n b out1 h a1.stream in
    (
      out',
      rw (e1, e') refl,
      record {
        stream = a'.stream;
        valued =
            a'.valued ∙ ap (λ t. t * 2 ^ n + run_value n b) a1.valued ∙ run_step (value out) b n h;
        counted = omega (arith, a1.counted, a'.counted);
      },
    )

Appends-more :
    (out out1 out' : BitOutputStream) (n : ℕ)
    → Appends out out1 1 0
    → Appends out1 out' n 0
    → Appends out out' (suc n) 0
Appends-more out out1 out' n a a' = record {
  stream = a'.stream;
  valued =
      a'.valued
      ∙ ap (λ t. t * 2 ^ n + 0) a.valued
      ∙ omega (arith, ap (λ (t : ℕ). value out * t) (pow-suc 2 n));
  counted = omega (arith, a.counted, a'.counted);
}

filled_next :
    (out out' : BitOutputStream)
    → IsStream out
    → Appends out out' 1 0
    → out'.num_bits_filled ≡ (out.num_bits_filled + 1) % 8
unfolding bit_count
filled_next out out' s a = omega (arith, a.counted, s.filled, a.stream.filled)

-- BitOutputStream::finish writes at most seven zeros, and ends with whole bytes.
pub finish_stream_lem :
    (fuel : ℕ) (out : BitOutputStream)
    → IsStream out
    → (out.num_bits_filled ≢ 0 → 8 ≤ fuel + out.num_bits_filled)
    → (out' : BitOutputStream) × (n : ℕ) × (finish_stream (suc fuel) out ≡ returns (some out'))
      × Appends out out' n 0
      × (out'.num_bits_filled ≡ 0)
unfolding finish_stream
finish_stream_lem zero out s h = elim (Bool-cases (out.num_bits_filled == 0)) [
  | inl done ↦ (out, 0, rw done refl, Appends-none out s, ground arith)
  | inr more ↦
      let left : 8 ≤ 0 + out.num_bits_filled = h (ground arith) in absurd (omega (arith, s.filled))
]
finish_stream_lem (suc fuel) out s h = elim (Bool-cases (out.num_bits_filled == 0)) [
  | inl done ↦ (out, 0, rw done refl, Appends-none out s, ground arith)
  | inr more ↦
      let left : 8 ≤ suc fuel + out.num_bits_filled = h (ground arith) in
      let (out1, e1, a1) = write_lem 0 out (omega arith) s in
      let next = filled_next out out1 s a1 in
      let (out', n, e', a', whole) =
        finish_stream_lem fuel out1 a1.stream (λ some_left. omega (arith, next, s.filled)) in
      (out', suc n, rw (more, e1, e') refl, Appends-more out out1 out' n a1 a', whole)
]

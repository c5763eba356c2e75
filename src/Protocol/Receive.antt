-- ===== src/Protocol/Receive.antt =====
-- receive_data_frames of project-spec/meta-user/recipes-apps/autostart/src/transmission_protocol.c:
-- the read loop, and the frame-by-frame check of what was read.
pub mod Reading
pub mod Frames
pub mod Transfer
pub mod Slots
use soc.Common.{
  ℕ, zero, suc, ◌+◌, ◌-◌, ◌*◌, ◌/◌, ◌%◌, List, [], ◌∷◌, ◌++◌, take, drop, length, replicate, Option,
  none, some, Bool, true, false, ◌&&◌, not, ltb, ◌==◌, if◌then◌else◌,
}
use soc.Common.Effects.{Call, returns, exits, faults, ◌>>=◌}
use soc.Protocol.Words.{htobe16, htobe32}
use soc.Protocol.Data.{DataFrame, data_frame_size, data_frame_at, tp_header}
use soc.Crc.{crc16}

-- COUNT: reads in a row that may bring nothing.
abbrev pub count_max : ℕ
count_max = 10

-- `temp` up to `n`, the bytes read so far, and `count`, the reads since that brought nothing.
pub record Progress : Type 0 where
  pub temp : List ℕ
  pub count : ℕ

-- One answer of read(2): no bytes stand for 0 and for -1.
unfoldable pub absorb : List ℕ → ℕ → List ℕ → Progress
absorb temp count [] = record { temp = temp; count = count + 1 }
absorb temp count (x ∷ xs) = record { temp = temp ++ (x ∷ xs); count = 0 }

-- The `do … while (n < len && count < COUNT)` loop. `answers k` holds the bytes that are there for
-- the k-th read, which asks for `len - n` of them. `none` is for too little fuel.
unfoldable pub read_loop : ℕ → (ℕ → List ℕ) → ℕ → ℕ → List ℕ → ℕ → Option Progress
read_loop zero answers k len temp count = none
read_loop (suc fuel) answers k len temp count =
    let r = absorb temp count (take (len - length temp) (answers k)) in
    let rest = read_loop fuel answers (k + 1) len r.temp r.count in
    if ltb (length r.temp) len && ltb r.count count_max then rest else some r

-- Each round brings a byte or uses up one of ten attempts.
abbrev pub read_fuel : ℕ → ℕ
read_fuel len = len * count_max + count_max + 1

-- memcmp(a, b, n) == 0, on arrays of one length
unfoldable pub same_bytes : List ℕ → List ℕ → Bool
same_bytes [] [] = true
same_bytes (x ∷ xs) (y ∷ ys) = x == y && same_bytes xs ys
same_bytes _ _ = false

-- The fields as receive_data_frames leaves them in `input_data_frames[i]`.
unfoldable pub host_data_frame : DataFrame → DataFrame
host_data_frame temp = record temp {
  n_total_frame = htobe32 temp.n_total_frame / 256;
  n_file = htobe32 temp.n_file;
  n_frame = htobe16 temp.n_frame;
  total_data_len = htobe32 temp.total_data_len;
  data_len = htobe16 temp.data_len;
}

-- The frame in 534 bytes of `temp`, if its header and checksum are right.
unfoldable pub accept_data_frame : List ℕ → Option DataFrame
accept_data_frame bytes =
    if same_bytes (data_frame_at bytes).header tp_header
      && crc16 (take 532 bytes) == (data_frame_at bytes).check_sum
    then some (host_data_frame (data_frame_at bytes))
    else none

-- One round of the second loop: what it adds to `sum`, and the frame.
unfoldable pub update_frame : DataFrame → List ℕ → ℕ × DataFrame
update_frame old bytes =
    if ltb 0 old.data_len
    then (0, old)
    else elim (accept_data_frame bytes) [ none ↦ (1, old) | some frame ↦ (0, frame) ]

-- `n` frames of `input_data_frames` are visited; past the end of the array is out of bounds.
unfoldable pub collect : ℕ → List DataFrame → List ℕ → Call (ℕ × List DataFrame)
collect zero frames temp = returns (0, frames)
collect (suc n) [] temp = faults
collect (suc n) (old ∷ frames) temp = do
  (sum, rest) ← collect n frames (drop data_frame_size temp)
  let (missing, frame) = update_frame old (take data_frame_size temp)
  returns ((missing + sum) % 65536, frame ∷ rest)

-- What happens before the first read: epoll_wait times out, or calloc finds no memory for `temp`, or
-- both go well.
pub data Waited : Type 0 where
  timed_out : Waited
  no_memory : Waited
  ready : Waited

-- The result is `sum`, or -1 as an `n_frame_t` after a timeout. The rest of `temp` is zero (calloc). A
-- null `temp` is not looked for: every read into it fails, and the first frame is read through it.
unfoldable pub receive_data_frames :
    Waited → (ℕ → List ℕ) → List DataFrame → ℕ → Call (ℕ × List DataFrame)
receive_data_frames timed_out answers frames n_frame = returns (65535, frames)
receive_data_frames no_memory answers frames n_frame =
    if n_frame == 0 then returns (0, frames) else faults
receive_data_frames ready answers frames n_frame =
    elim (read_loop (read_fuel len) answers 0 len [] 0) [
      | none ↦ faults
      | some r ↦ collect n_frame frames (r.temp ++ replicate (len - length r.temp) 0)
    ]
  where
    len : ℕ
    len = data_frame_size * n_frame

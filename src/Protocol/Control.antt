-- ===== src/Protocol/Control.antt =====
-- `frame_t` and the functions that send and receive one: write_frame, send_frame, receive_frame
-- and bin_to_str of project-spec/meta-user/recipes-apps/autostart/src/transmission_protocol.c.
-- What epoll_wait(2), read(2) and write(2) answer is an argument of each call.
pub mod RoundTrip
use soc.Common.{
  ℕ, zero, suc, ◌+◌, ◌-◌, ◌*◌, ◌/◌, ◌%◌, ◌≤◌, ◌<◌, List, [], ◌∷◌, ◌++◌, take, length, Option, none,
  some, Bool, true, false, ltb, ◌==◌, if◌then◌else◌, not,
}
use soc.Common.Effects.{Call, returns, exits, faults, ℤ, pos, negsuc}
use soc.Protocol.Words.{store16, store32, load8, load16, load32, htobe16, htobe32}
use soc.Crc.{crc16}

-- `frame_t`, packed
pub record Frame : Type 0 where
  pub address : ℕ
  pub frame_type : ℕ
  pub n_file : ℕ
  pub n_frame : ℕ
  pub status : ℕ
  pub check_sum : ℕ

-- A frame of zero bytes, from memset.
abbrev pub zero_frame : Frame
zero_frame = record {
  address = 0;
  frame_type = 0;
  n_file = 0;
  n_frame = 0;
  status = 0;
  check_sum = 0;
}

-- sizeof(frame_t)
abbrev pub frame_size : ℕ
frame_size = 12

-- Each field fits its C type.
pub record IsFrame (f : Frame) : Type 0 where
  pub address : f.address < 256
  pub frame_type : f.frame_type < 256
  pub n_file : f.n_file < 4294967296
  pub n_frame : f.n_frame < 65536
  pub status : f.status < 65536
  pub check_sum : f.check_sum < 65536

-- The struct's memory up to the checksum, and the whole.
unfoldable pub frame_head : Frame → List ℕ
frame_head f =
    f.address % 256
    ∷ f.frame_type % 256
    ∷ store32 f.n_file (store16 f.n_frame (store16 f.status []))

unfoldable pub frame_bytes : Frame → List ℕ
unfolding frame_head
frame_bytes f = frame_head f ++ store16 f.check_sum []

-- The struct that twelve bytes of memory hold.
unfoldable pub frame_at : List ℕ → Frame
frame_at b = record {
  address = load8 b 0;
  frame_type = load8 b 1;
  n_file = load32 b 2;
  n_frame = load16 b 6;
  status = load16 b 8;
  check_sum = load16 b 10;
}

-- The big-endian copy that write_frame makes, checksum included.
unfoldable pub network_frame : Frame → Frame
network_frame frame = record temp { check_sum = crc16 (frame_head temp) }
  where
    temp : Frame
    temp = record frame {
      n_file = htobe32 frame.n_file;
      n_frame = htobe16 frame.n_frame;
      status = htobe16 frame.status;
    }

hex_digit : ℕ → ℕ
hex_digit d = if ltb d 10 then 0x30 + d else 0x57 + d

-- bin_to_str: "%02x " of each byte, for the log.
unfoldable pub bin_to_str : List ℕ → List ℕ
unfolding hex_digit
bin_to_str [] = []
bin_to_str (b ∷ bin) = hex_digit (b / 16 % 16) ∷ hex_digit (b % 16) ∷ 0x20 ∷ bin_to_str bin

-- What write_frame and write_data_frame do with the answer of write(2) to `size` bytes; `none` is -1.
-- The test `n < sizeof(temp)` compares as `size_t`, where -1 is the largest value: it passes, and
-- bin_to_str is called with that size, for which malloc returns a null pointer.
unfoldable pub after_write : ℕ → Option ℕ → Call ℤ
after_write size none = faults
after_write size (some n) = if ltb n size then exits else returns (pos n)

-- The bytes handed to write(2), and how the call ends.
unfoldable pub write_frame : Frame → Option ℕ → List ℕ × Call ℤ
write_frame frame written = (frame_bytes (network_frame frame), after_write frame_size written)

-- `ready` says whether epoll_wait reported the descriptor before the timeout.
unfoldable pub send_frame : Bool → Frame → Option ℕ → List ℕ × Call ℤ
send_frame ready frame written =
    if ready then write_frame frame written else ([], returns (negsuc 0))

-- The fields as receive_frame leaves them in `*frame`.
unfoldable pub host_frame : Frame → Frame
host_frame temp = record temp {
  n_file = htobe32 temp.n_file;
  n_frame = htobe16 temp.n_frame;
  status = htobe16 temp.status;
}

-- receive_frame once the descriptor is ready, on the bytes that read(2) stored (twelve at most).
unfoldable pub accept_frame : Frame → List ℕ → ℤ × Frame
accept_frame frame bytes =
    if ltb (length bytes) frame_size
    then (negsuc 1, frame)
    else if crc16 (take 10 bytes) == (frame_at bytes).check_sum
    then (pos (length bytes), host_frame (frame_at bytes))
    else (negsuc 2, frame)

-- The result and the new `*frame`. A read that returns -1 calls bin_to_str with that size, as in
-- `after_write`.
unfoldable pub receive_frame : Bool → Frame → Option (List ℕ) → Call (ℤ × Frame)
receive_frame false frame answer = returns (negsuc 0, frame)
receive_frame true frame none = faults
receive_frame true frame (some bytes) = returns (accept_frame frame (take frame_size bytes))

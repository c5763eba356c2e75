-- ===== src/Protocol/Control/RoundTrip.antt =====
-- A frame that is sent is received as it was, and nothing else is taken for a frame.
use soc.Common.{
  ℕ, ◌≤◌, ◌<◌, ◌≡◌, refl, ap, sym, ◌∙◌, List, [], ◌∷◌, take, length, length-take, some, true, arith,
  All,
}
use soc.Common.Effects.{returns, pos}
use soc.Protocol.Words.{htobe16, htobe32, htobe16-htobe16, htobe32-htobe32, htobe16-lt, htobe32-lt}
use soc.Crc.{crc16}
use soc.Crc.Detect.{crc16-lt}
use soc.Protocol.Control.{
  send_frame, after_write, Frame, IsFrame, frame_head, frame_bytes, frame_at, network_frame,
  write_frame, host_frame, accept_frame, receive_frame,
}

-- Memory holds what was stored.
frame_at-frame_bytes : (f : Frame) → IsFrame f → frame_at (frame_bytes f) ≡ f
unfolding frame_at frame_bytes
frame_at-frame_bytes f h = ground arith

-- sizeof(frame_t) bytes are written, and the checksum covers the first ten.
length-frame_bytes : (f : Frame) → length (frame_bytes f) ≡ 12
unfolding frame_bytes
length-frame_bytes f = refl

take-frame_bytes : (f : Frame) → take 10 (frame_bytes f) ≡ frame_head f
unfolding frame_bytes
take-frame_bytes f = refl

pub network_frame-IsFrame : (f : Frame) → IsFrame f → IsFrame (network_frame f)
unfolding network_frame
network_frame-IsFrame f h = ground (
  arith,
  htobe32-lt f.n_file,
  htobe16-lt f.n_frame,
  htobe16-lt f.status,
  crc16-lt (
      frame_head (record f {
        n_file = htobe32 f.n_file;
        n_frame = htobe16 f.n_frame;
        status = htobe16 f.status;
      })),
)

-- `receive_frame` undoes the byte order that `write_frame` gave the fields.
host_frame-network_frame :
    (f : Frame)
    → IsFrame f
    → host_frame (network_frame f) ≡ record f { check_sum = (network_frame f).check_sum }
unfolding network_frame host_frame
host_frame-network_frame f h =
    ground (arith, htobe32-htobe32 f.n_file, htobe16-htobe16 f.n_frame, htobe16-htobe16 f.status)

check_sum-network_frame :
    (f : Frame) → crc16 (frame_head (network_frame f)) ≡ (network_frame f).check_sum
unfolding network_frame frame_head
check_sum-network_frame f = refl

take_whole : (f : Frame) → take 12 (frame_bytes f) ≡ frame_bytes f
unfolding frame_bytes
take_whole f = refl

-- Bytes with a correct checksum are taken, and the frame in them is put in the host's byte order.
accept_frame-frame_bytes :
    (old n : Frame)
    → IsFrame n
    → crc16 (frame_head n) ≡ n.check_sum
    → accept_frame old (frame_bytes n) ≡ (pos 12, host_frame n)
unfolding accept_frame
accept_frame-frame_bytes old n h e =
    ground (arith, length-frame_bytes n, take-frame_bytes n, frame_at-frame_bytes n h)

-- What write_frame writes, receive_frame takes in one read: it returns 12 and stores the frame that
-- was sent, with the checksum of the bytes sent, whatever the frame held before.
pub receive-write :
    (f old : Frame)
    → IsFrame f
    → receive_frame true old (some (write_frame f (some 12)).0)
      ≡ returns (pos 12, record f { check_sum = (network_frame f).check_sum })
unfolding receive_frame write_frame
receive-write f old h = rw (
  take_whole (network_frame f),
  accept_frame-frame_bytes old (network_frame f) (network_frame-IsFrame f h)
      (check_sum-network_frame f),
  host_frame-network_frame f h,
)

-- The memory of a struct is what it was loaded from.
frame_bytes-frame_at :
    (b : List ℕ) → length b ≡ 12 → All (λ x. x < 256) b → frame_bytes (frame_at b) ≡ b
unfolding frame_bytes frame_at
frame_bytes-frame_at (b0 ∷ b1 ∷ b2 ∷ b3 ∷ b4 ∷ b5 ∷ b6 ∷ b7 ∷ b8 ∷ b9 ∷ b10 ∷ b11 ∷ []) e h =
    ground arith
frame_bytes-frame_at _ e h = absurd (omega arith)

frame_at-IsFrame : (b : List ℕ) → length b ≡ 12 → All (λ x. x < 256) b → IsFrame (frame_at b)
unfolding frame_at
frame_at-IsFrame (b0 ∷ b1 ∷ b2 ∷ b3 ∷ b4 ∷ b5 ∷ b6 ∷ b7 ∷ b8 ∷ b9 ∷ b10 ∷ b11 ∷ []) e h =
    omega arith
frame_at-IsFrame _ e h = absurd (omega arith)

network_frame-host_frame :
    (t : Frame) → IsFrame t → crc16 (frame_head t) ≡ t.check_sum → network_frame (host_frame t) ≡ t
unfolding network_frame host_frame
network_frame-host_frame t h e = rw (
  htobe32-htobe32 t.n_file h.n_file,
  htobe16-htobe16 t.n_frame h.n_frame,
  htobe16-htobe16 t.status h.status,
  e,
)

-- What accept_frame takes is a whole frame whose checksum matches.
accept_frame_cases :
    (old g : Frame) (n : ℕ) (b : List ℕ)
    → length b ≤ 12
    → accept_frame old b ≡ (pos n, g)
    → (n ≡ 12)
      × (length b ≡ 12)
      × (crc16 (take 10 b) ≡ (frame_at b).check_sum)
      × (g ≡ host_frame (frame_at b))
unfolding accept_frame
accept_frame_cases old g n b size e = ground arith

-- Whatever receive_frame accepts, it returns 12 and the bytes are those that write_frame writes for
-- the frame that it stores: bytes that are not the encoding of a frame are never accepted.
pub receive-only :
    (old g : Frame) (n : ℕ) (b : List ℕ)
    → All (λ x. x < 256) (take 12 b)
    → receive_frame true old (some b) ≡ returns (pos n, g)
    → (n ≡ 12) × (take 12 b ≡ (write_frame g (some 12)).0)
unfolding receive_frame write_frame
receive-only old g n b bytes e = (taken.0, sym encoded)
  where
    taken :
        (n ≡ 12)
        × (length (take 12 b) ≡ 12)
        × (crc16 (take 10 (take 12 b)) ≡ (frame_at (take 12 b)).check_sum)
        × (g ≡ host_frame (frame_at (take 12 b)))
    taken = accept_frame_cases old g n (take 12 b) (omega (arith, length-take 12 b)) (cc)

    stored : frame_bytes (frame_at (take 12 b)) ≡ take 12 b
    stored = frame_bytes-frame_at (take 12 b) taken.1 bytes

    summed : crc16 (frame_head (frame_at (take 12 b))) ≡ (frame_at (take 12 b)).check_sum
    summed = ap crc16 (sym (take-frame_bytes _) ∙ ap (take 10) stored) ∙ taken.2

    encoded : frame_bytes (network_frame g) ≡ take 12 b
    encoded =
        ap (λ t. frame_bytes (network_frame t)) taken.3
        ∙ ap frame_bytes (network_frame-host_frame _ (frame_at-IsFrame _ taken.1 bytes) summed)
        ∙ stored

-- A frame that is written whole.
pub send_frame-written :
    (reply : Frame)
    → send_frame true reply (some 12) ≡ ((write_frame reply (some 12)).0, returns (pos 12))
unfolding send_frame write_frame after_write
send_frame-written reply = refl

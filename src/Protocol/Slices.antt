-- ===== src/Protocol/Slices.antt =====
-- Data cut into data frames and put together again: id_to_n_frame, n_frame_to_id,
-- count_unreceived_data_frames, data_frame_to_data_len, data_frames_to_data, data_to_data_frames,
-- fd_to_data_frames, init_data_frames and alloc_data_frames of
-- project-spec/meta-user/recipes-apps/autostart/src/transmission_protocol.c.
-- An array is the list of its elements, and an access past its end faults. What read(2) answers and
-- the memory that malloc returns are arguments.
pub mod Numbers
pub mod Join
pub mod Carries
pub mod Alloc
pub mod File
use soc.Common.{
  ℕ, zero, suc, ◌+◌, ◌-◌, ◌*◌, ◌/◌, ◌%◌, ◌^◌, List, [], ◌∷◌, ◌++◌, take, drop, length, replicate,
  Option, none, some, Bool, ◌&&◌, ltb, leb, ◌==◌, if◌then◌else◌,
}
use soc.Common.Effects.{Call, returns, exits, faults, ◌>>=◌}
use soc.Protocol.Data.{DataFrame, frame_data_len_max, tp_header}

unfoldable pub id_to_n_frame : ℕ → ℕ → ℕ
id_to_n_frame id len = if len == 1 then id else (id + 1) % 65536

unfoldable pub n_frame_to_id : ℕ → ℕ → ℕ
n_frame_to_id n_frame len = if len == 1 then n_frame else (n_frame + 65535) % 65536

unfoldable pub count_unreceived_data_frames : List DataFrame → ℕ → Call ℕ
count_unreceived_data_frames frames zero = returns 0
count_unreceived_data_frames [] (suc n) = faults
count_unreceived_data_frames (f ∷ frames) (suc n) = do
  sum ← count_unreceived_data_frames frames n
  returns (if f.data_len == 0 then (sum + 1) % 65536 else sum)

unfoldable pub data_frame_to_data_len : List DataFrame → ℕ → Call ℕ
data_frame_to_data_len frames zero = returns 0
data_frame_to_data_len [] (suc n) = faults
data_frame_to_data_len (f ∷ frames) (suc n) = do
  len ← data_frame_to_data_len frames n
  returns ((f.data_len + len) % 2 ^ 64)

-- The bytes written from `addr` on. memcpy reads `data_len` bytes of an array of 512.
unfoldable pub data_frames_to_data : List DataFrame → ℕ → Call (List ℕ)
data_frames_to_data frames zero = returns []
data_frames_to_data [] (suc n) = faults
data_frames_to_data (f ∷ frames) (suc n) = do
  rest ← data_frames_to_data frames n
  if leb f.data_len frame_data_len_max then returns (take f.data_len f.payload ++ rest) else faults

-- `len == 0 ? 0 : (len - 1) / TP_FRAME_DATA_LEN_MAX + 1`
unfoldable pub frames_needed : ℕ → ℕ
frames_needed len = if len == 0 then 0 else (len - 1) / frame_data_len_max + 1

-- The last frame: `data_len = len - i * 512` as a `uint16_t`, the bytes left, and zeros.
unfoldable pub last_slice : ℕ → ℕ → List ℕ → DataFrame → List DataFrame → Call (List DataFrame)
last_slice len i p f frames =
    if leb data_len frame_data_len_max && leb data_len (length p)
    then returns (
        record f {
          data_len = data_len;
          payload = take data_len p ++ replicate (frame_data_len_max - data_len) 0;
        }
        ∷ frames)
    else faults
  where
    data_len : ℕ
    data_len = (len + 2 ^ 64 - i * frame_data_len_max) % 65536

-- `for (; i < n_frame - 1; i++)` on the frames from `data_frames[i]` on, then the last frame. `p`
-- holds the bytes from the pointer on; `n_frame - 1` is a `size_t`, `i` an `n_frame_t`.
unfoldable pub slices : ℕ → ℕ → ℕ → List ℕ → List DataFrame → Call (List DataFrame)
unfolding last_slice
slices n_frame len i p [] = faults
slices n_frame len i p (f ∷ frames) =
    let rest = slices n_frame len ((i + 1) % 65536) (drop frame_data_len_max p) frames in
    if ltb i ((n_frame + 2 ^ 64 - 1) % 2 ^ 64)
    then (if leb frame_data_len_max (length p)
        then (rest >>= λ frames'. returns (
            record f { data_len = frame_data_len_max; payload = take frame_data_len_max p }
            ∷ frames'))
        else faults)
    else last_slice len i p f frames

unfoldable pub data_to_data_frames : List ℕ → ℕ → List DataFrame → Call (List DataFrame)
data_to_data_frames addr len frames = slices (frames_needed len) len 0 addr frames

-- The answers of read(2): `none` is -1, and after the list the file is at its end.
abbrev pub next_read : List (Option (List ℕ)) → Option (List ℕ)
next_read [] = some []
next_read (answer ∷ reads) = answer

abbrev pub later_reads : List (Option (List ℕ)) → List (Option (List ℕ))
later_reads [] = []
later_reads (answer ∷ reads) = reads

-- read(fd, data, 512) into a frame, and the size that it returns.
abbrev pub read_into : List ℕ → DataFrame → DataFrame
read_into bytes f = record f {
  data_len = length (take frame_data_len_max bytes);
  payload =
      take frame_data_len_max bytes ++ drop (length (take frame_data_len_max bytes)) f.payload;
}

-- The loop of fd_to_data_frames: the last `size`, and the frames.
unfoldable pub read_frames :
    ℕ → List (Option (List ℕ)) → ℕ → List DataFrame → Call (ℕ × List DataFrame)
read_frames zero reads size frames = returns (size, frames)
read_frames (suc n) reads size [] = faults
read_frames (suc n) reads size (f ∷ frames) = elim (next_read reads) [
  | none ↦ exits
  | some bytes ↦
      read_frames n (later_reads reads) (length (take frame_data_len_max bytes)) frames >>= λ r.
      returns (r.0, read_into bytes f ∷ r.1)
]

-- `memset(data_frames[i].data + size, 0, 512 - size)`. The loop declares an `i` of its own, so this
-- `i` is still 0.
unfoldable pub clear_first : ℕ → List DataFrame → Call (List DataFrame)
clear_first size [] = faults
clear_first size (f ∷ frames) =
    returns (
      record f { payload = take size f.payload ++ replicate (frame_data_len_max - size) 0 }
      ∷ frames)

-- With no frame `size` is read before it is set.
unfoldable pub fd_to_data_frames :
    List (Option (List ℕ)) → List DataFrame → ℕ → Call (List DataFrame)
fd_to_data_frames reads frames zero = faults
fd_to_data_frames reads frames (suc n) = do
  r ← read_frames (suc n) reads 0 frames
  clear_first r.0 r.1

-- The frames from index `i` on; `n` of them are left to set.
unfoldable pub init_from : ℕ → ℕ → List DataFrame → ℕ → ℕ → ℕ → ℕ → Call (List DataFrame)
unfolding id_to_n_frame
init_from zero i frames n_frame n_file flag total = returns frames
init_from (suc n) i [] n_frame n_file flag total = faults
init_from (suc n) i (f ∷ frames) n_frame n_file flag total = do
  rest ← init_from n (i + 1) frames n_frame n_file flag total
  returns (
      record f {
        header = tp_header;
        flag = flag;
        n_file = n_file;
        n_frame = id_to_n_frame i n_frame;
        total_data_len = total;
      }
      ∷ rest)

unfoldable pub init_data_frames : List DataFrame → ℕ → ℕ → ℕ → ℕ → Call (List DataFrame)
init_data_frames frames n_frame n_file flag total =
    init_from n_frame 0 frames n_frame n_file flag total

-- Where alloc_data_frames takes the data from: `addr`, or the descriptor that `len` is if it is NULL.
pub data Source : Type 0 where
  at_addr : List ℕ → ℕ → Source
  from_fd : List (Option (List ℕ)) → Source

unfoldable pub fill_data_frames : Source → List DataFrame → ℕ → Call (List DataFrame)
fill_data_frames (at_addr addr len) frames n_frame = data_to_data_frames addr len frames
fill_data_frames (from_fd reads) frames n_frame = fd_to_data_frames reads frames n_frame

-- `memory` is what malloc returned: `none` for NULL, else `n_frame` frames of any content.
unfoldable pub alloc_data_frames :
    Option (List DataFrame) → ℕ → ℕ → Source → ℕ → ℕ → Call (Option (List DataFrame))
alloc_data_frames none n_frame n_file source flag total = returns none
alloc_data_frames (some memory) n_frame n_file source flag total = do
  frames ← init_data_frames memory n_frame n_file flag total
  filled ← fill_data_frames source frames n_frame
  returns (some filled)

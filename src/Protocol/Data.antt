-- ===== src/Protocol/Data.antt =====
-- `data_frame_t` and the functions that send one: write_data_frame, send_data_frame and
-- send_data_frame_directly of
-- project-spec/meta-user/recipes-apps/autostart/src/transmission_protocol.c.
-- The field `data` is `payload` here, and the global `n_total_frame` is passed and returned.
pub mod Memory
use soc.Common.{
  ℕ, ◌+◌, ◌*◌, ◌/◌, ◌%◌, ◌<◌, ◌≡◌, List, [], ◌∷◌, ◌++◌, take, drop, length, replicate, Option, none,
  some, Bool, if◌then◌else◌, All,
}
use soc.Common.Effects.{Call, returns, exits, faults, ℤ, pos, negsuc}
use soc.Protocol.Words.{store16, store24, store32, load8, load16, load24, load32, htobe16, htobe32}
use soc.Protocol.Control.{after_write}
use soc.Crc.{crc16}

-- `data_frame_t`, packed; an `n_total_frame` has 24 bits.
pub record DataFrame : Type 0 where
  pub header : List ℕ
  pub n_total_frame : ℕ
  pub flag : ℕ
  pub n_file : ℕ
  pub n_frame : ℕ
  pub total_data_len : ℕ
  pub data_len : ℕ
  pub payload : List ℕ
  pub check_sum : ℕ

-- sizeof(data_frame_t) and TP_FRAME_DATA_LEN_MAX
abbrev pub data_frame_size : ℕ
data_frame_size = 534

abbrev pub frame_data_len_max : ℕ
frame_data_len_max = 512

abbrev pub tp_header : List ℕ
tp_header = 0x3a ∷ 0x62 ∷ 0x04 ∷ 0x3f ∷ []

-- Each field fits its C type, and the arrays have their lengths.
pub record IsDataFrame (f : DataFrame) : Type 0 where
  pub header : length f.header ≡ 4
  pub header_bytes : All (λ x. x < 256) f.header
  pub n_total_frame : f.n_total_frame < 16777216
  pub flag : f.flag < 256
  pub n_file : f.n_file < 4294967296
  pub n_frame : f.n_frame < 65536
  pub total_data_len : f.total_data_len < 4294967296
  pub data_len : f.data_len < 65536
  pub payload : length f.payload ≡ 512
  pub payload_bytes : All (λ x. x < 256) f.payload
  pub check_sum : f.check_sum < 65536

-- A frame of zero bytes, from calloc.
abbrev pub zero_data_frame : DataFrame
zero_data_frame = record {
  header = replicate 4 0;
  n_total_frame = 0;
  flag = 0;
  n_file = 0;
  n_frame = 0;
  total_data_len = 0;
  data_len = 0;
  payload = replicate 512 0;
  check_sum = 0;
}

-- The struct's memory up to the checksum, and the whole.
unfoldable pub data_frame_head : DataFrame → List ℕ
data_frame_head f =
    f.header
    ++ store24 f.n_total_frame (
        f.flag % 256
        ∷ store32 f.n_file
            (store16 f.n_frame (store32 f.total_data_len (store16 f.data_len f.payload))))

unfoldable pub data_frame_bytes : DataFrame → List ℕ
unfolding data_frame_head
data_frame_bytes f = data_frame_head f ++ store16 f.check_sum []

-- The struct that 534 bytes of memory hold.
unfoldable pub data_frame_at : List ℕ → DataFrame
data_frame_at b = record {
  header = take 4 b;
  n_total_frame = load24 b 4;
  flag = load8 b 7;
  n_file = load32 b 8;
  n_frame = load16 b 12;
  total_data_len = load32 b 14;
  data_len = load16 b 18;
  payload = take 512 (drop 20 b);
  check_sum = load16 (drop 532 b) 0;
}

-- The big-endian copy that write_data_frame makes, checksum included.
unfoldable pub network_data_frame : DataFrame → DataFrame
network_data_frame frame = record temp { check_sum = crc16 (data_frame_head temp) }
  where
    temp : DataFrame
    temp = record frame {
      n_total_frame = htobe32 frame.n_total_frame / 256 % 16777216;
      n_file = htobe32 frame.n_file;
      n_frame = htobe16 frame.n_frame;
      total_data_len = htobe32 frame.total_data_len;
      data_len = htobe16 frame.data_len;
    }

-- The bytes handed to write(2), and how the call ends.
unfoldable pub write_data_frame : DataFrame → Option ℕ → List ℕ × Call ℤ
write_data_frame frame written =
    (data_frame_bytes (network_data_frame frame), after_write data_frame_size written)

-- What send_data_frame leaves: the global counter, `*frame`, the bytes sent, and the result.
pub record Sent : Type 0 where
  pub counter : ℕ
  pub frame : DataFrame
  pub wire : List ℕ
  pub result : Call ℤ

unfoldable pub send_data_frame : Bool → ℕ → DataFrame → Option ℕ → Sent
send_data_frame ready n_total_frame frame written =
    if ready
    then record {
      counter = (n_total_frame + 1) % 16777216;
      frame = numbered;
      wire = (write_data_frame numbered written).0;
      result = (write_data_frame numbered written).1;
    }
    else record { counter = n_total_frame; frame = frame; wire = []; result = returns (negsuc 0) }
  where
    numbered : DataFrame
    numbered = record frame { n_total_frame = n_total_frame }

-- The frame as it stands in memory, with no conversion; -1 of write(2) is returned.
unfoldable pub send_data_frame_directly : Bool → DataFrame → Option ℕ → List ℕ × Call ℤ
send_data_frame_directly ready frame written =
    if ready then (data_frame_bytes frame, returns (answer written)) else ([], returns (negsuc 0))
  where
    answer : Option ℕ → ℤ
    answer none = negsuc 0
    answer (some n) = pos n

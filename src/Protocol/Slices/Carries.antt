-- ===== src/Protocol/Slices/Carries.antt =====
-- Frames that carry data: what the two functions that read it say of them.
use soc.Common.{ℕ, zero, suc, ◌%◌, ◌+◌, ◌≡◌, refl, ap, ◌∙◌, List, [], ◌∷◌, map, length}
use soc.Common.Effects.{returns}
use soc.Protocol.Data.{DataFrame}
use soc.Protocol.Receive.Frames.{delivered}
use soc.Protocol.Slices.{data_frame_to_data_len, data_frames_to_data}

-- The checksum of a frame is no part of the data.
data_frames_to_data-delivered :
    (fs : List DataFrame) (n : ℕ)
    → data_frames_to_data (map delivered fs) n ≡ data_frames_to_data fs n
unfolding data_frames_to_data delivered
data_frames_to_data-delivered fs zero = refl
data_frames_to_data-delivered [] (suc n) = refl
data_frames_to_data-delivered (f ∷ fs) (suc n) = rw (data_frames_to_data-delivered fs n)

data_frame_to_data_len-delivered :
    (fs : List DataFrame) (n : ℕ)
    → data_frame_to_data_len (map delivered fs) n ≡ data_frame_to_data_len fs n
unfolding data_frame_to_data_len delivered
data_frame_to_data_len-delivered fs zero = refl
data_frame_to_data_len-delivered [] (suc n) = refl
data_frame_to_data_len-delivered (f ∷ fs) (suc n) = rw (data_frame_to_data_len-delivered fs n)

-- `fs` carry the data `d`.
pub record Carries (fs : List DataFrame) (d : List ℕ) : Type 0 where
  pub bytes : data_frames_to_data fs (length fs) ≡ returns d
  pub len : data_frame_to_data_len fs (length fs) ≡ returns (length d)

pub Carries-delivered :
    (fs : List DataFrame) (d : List ℕ)
    → Carries fs d
    → (data_frames_to_data (map delivered fs) (length fs) ≡ returns d)
      × (data_frame_to_data_len (map delivered fs) (length fs) ≡ returns (length d))
Carries-delivered fs d c = (
  data_frames_to_data-delivered fs (length fs) ∙ c.bytes,
  data_frame_to_data_len-delivered fs (length fs) ∙ c.len,
)

-- The frames as send_data_frame numbers them, from the counter `c` on.
unfoldable pub numbered : ℕ → List DataFrame → List DataFrame
numbered c [] = []
numbered c (f ∷ fs) = record f { n_total_frame = c } ∷ numbered ((c + 1) % 16777216) fs

pub length-numbered : (c : ℕ) (fs : List DataFrame) → length (numbered c fs) ≡ length fs
unfolding numbered
length-numbered c [] = refl
length-numbered c (f ∷ fs) = ap suc (length-numbered ((c + 1) % 16777216) fs)

data_frames_to_data-numbered :
    (c : ℕ) (fs : List DataFrame) (n : ℕ)
    → data_frames_to_data (numbered c fs) n ≡ data_frames_to_data fs n
unfolding data_frames_to_data numbered
data_frames_to_data-numbered c fs zero = refl
data_frames_to_data-numbered c [] (suc n) = refl
data_frames_to_data-numbered c (f ∷ fs) (suc n) =
    rw (data_frames_to_data-numbered ((c + 1) % 16777216) fs n) refl

data_frame_to_data_len-numbered :
    (c : ℕ) (fs : List DataFrame) (n : ℕ)
    → data_frame_to_data_len (numbered c fs) n ≡ data_frame_to_data_len fs n
unfolding data_frame_to_data_len numbered
data_frame_to_data_len-numbered c fs zero = refl
data_frame_to_data_len-numbered c [] (suc n) = refl
data_frame_to_data_len-numbered c (f ∷ fs) (suc n) =
    rw (data_frame_to_data_len-numbered ((c + 1) % 16777216) fs n) refl

pub Carries-numbered :
    (c : ℕ) (fs : List DataFrame) (d : List ℕ) → Carries fs d → Carries (numbered c fs) d
Carries-numbered c fs d h = record {
  bytes = rw (length-numbered c fs, data_frames_to_data-numbered c fs (length fs)) h.bytes;
  len = rw (length-numbered c fs, data_frame_to_data_len-numbered c fs (length fs)) h.len;
}

-- ===== src/Protocol/Slices/Numbers.antt =====
-- The numbers of data frames: their indices from 0, and on the wire from 1 unless there is one frame.
use soc.Common.{ℕ, ◌<◌, ◌≡◌, refl, ◌==◌, Bool-cases, inl, inr, arith}
use soc.Protocol.Slices.{id_to_n_frame, n_frame_to_id}

-- Among 16-bit numbers id_to_n_frame and n_frame_to_id are inverse to each other, for every number of
-- frames.
pub n_frame_to_id-id_to_n_frame :
    (id len : ℕ)
    → id < 65536
    → (n_frame_to_id (id_to_n_frame id len) len ≡ id)
      × (id_to_n_frame (n_frame_to_id id len) len ≡ id)
unfolding id_to_n_frame n_frame_to_id
n_frame_to_id-id_to_n_frame id len h = elim (Bool-cases (len == 1)) [
  | inl one ↦ rw one (refl, refl)
  | inr more ↦ rw more (omega arith, omega arith)
]

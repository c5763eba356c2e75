-- ===== src/Protocol/Slices/File.antt =====
-- What fd_to_data_frames makes of a file, read in pieces of up to 512 bytes.
use soc.Common.{
  ℕ, ◌-◌, ◌≤◌, ◌≡◌, refl, List, [], ◌∷◌, ◌++◌, map, take, take_all, drop, length, replicate, All,
  some, arith,
}
use soc.Common.Effects.{returns}
use soc.Protocol.Data.{DataFrame}
use soc.Protocol.Slices.{read_into, read_frames, clear_first, fd_to_data_frames}

-- A frame that took a piece: its length, and its bytes before what the payload held.
abbrev pub filled : List ℕ → DataFrame → DataFrame
filled piece f = record f {
  data_len = length piece;
  payload = piece ++ drop (length piece) f.payload;
}

abbrev pub fill_all : List (List ℕ) → List DataFrame → List DataFrame
fill_all [] frames = frames
fill_all (piece ∷ pieces) [] = []
fill_all (piece ∷ pieces) (f ∷ frames) = filled piece f ∷ fill_all pieces frames

-- The length of the last piece.
abbrev pub last_length : ℕ → List (List ℕ) → ℕ
last_length size [] = size
last_length size (piece ∷ pieces) = last_length (length piece) pieces

read_into-filled :
    (piece : List ℕ) (f : DataFrame) → length piece ≤ 512 → read_into piece f ≡ filled piece f
read_into-filled piece f h = rw (take_all 512 piece h) refl

read_frames-fill_all :
    (pieces : List (List ℕ)) (frames : List DataFrame) (size : ℕ)
    → All (λ piece. length piece ≤ 512) pieces
    → length frames ≡ length pieces
    → read_frames (length pieces) (map some pieces) size frames
      ≡ returns (last_length size pieces, fill_all pieces frames)
unfolding read_frames
read_frames-fill_all [] frames size h e = refl
read_frames-fill_all (piece ∷ pieces) [] size h e = absurd (omega arith)
read_frames-fill_all (piece ∷ pieces) (f ∷ frames) size h e =
    let whole : take 512 piece ≡ piece = take_all 512 piece h.0 in
    rw (whole, read_frames-fill_all pieces frames (length piece) h.1 (omega arith)) refl

-- If read(2) brings the pieces of a file, each of up to 512 bytes and one for each frame,
-- fd_to_data_frames returns frames that hold the pieces in order, but it clears the rest of the FIRST
-- frame from the length of the LAST piece on: with one frame that pads the data with zeros.
pub fd_to_data_frames_lem :
    (piece : List ℕ) (pieces : List (List ℕ)) (f : DataFrame) (frames : List DataFrame)
    → All (λ p. length p ≤ 512) (piece ∷ pieces)
    → length frames ≡ length pieces
    → fd_to_data_frames (map some (piece ∷ pieces)) (f ∷ frames) (length (piece ∷ pieces))
      ≡ returns (
          record (filled piece f) {
            payload =
                take (last_length (length piece) pieces) (filled piece f).payload
                ++ replicate (512 - last_length (length piece) pieces) 0;
          }
          ∷ fill_all pieces frames)
unfolding fd_to_data_frames clear_first
fd_to_data_frames_lem piece pieces f frames h e =
    rw (read_frames-fill_all (piece ∷ pieces) (f ∷ frames) 0 h (omega arith)) refl

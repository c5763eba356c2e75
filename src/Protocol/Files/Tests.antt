-- ===== src/Protocol/Files/Tests.antt =====
-- The theorems about get_data_frames, applied to a dump of one frame and to a file of two blocks.
use soc.Common.{
  ℕ, ◌≡◌, refl, List, [], ◌∷◌, length, concat, replicate, All, none, some, true, false, arith,
}
use soc.Common.Effects.{returns}
use soc.Protocol.Data.{DataFrame, data_frame_bytes, network_data_frame}
use soc.Protocol.Receive.Transfer.{Sendable}
use soc.Protocol.Samples.{picture_frame, picture_frame-Sendable, old_memory}
use soc.Protocol.Slices.Carries.{Carries}
use soc.Protocol.Files.{PictureFile, GotFrames, get_data_frames}
use soc.Protocol.Files.Binary.{dump_of, get_data_frames-dump}
use soc.Protocol.Files.Blocks.{replicate-lt, get_data_frames-Carries}

abbrev before : GotFrames
before = record { result = 0; n_file = 3; n_frame = 0; frames = none }

abbrev dump : PictureFile
dump = record {
  opened = true;
  size = some 534;
  reads = some (dump_of picture_frame) ∷ [];
  closed = true;
}

get_data_frames-dump_example :
    (get_data_frames dump true (some (replicate 534 0)) none before
      ≡ returns (record {
        result = 0;
        n_file = 2;
        n_frame = 1;
        frames = some (network_data_frame picture_frame ∷ []);
      }))
    × (data_frame_bytes (network_data_frame picture_frame) ∷ [] ≡ dump_of picture_frame ∷ [])
get_data_frames-dump_example =
    get_data_frames-dump dump picture_frame [] (replicate 534 0) none before
      (picture_frame-Sendable.fits, tt) (omega arith) refl refl refl refl

-- Two blocks.
abbrev block : List ℕ
block = replicate 512 7

abbrev file : PictureFile
file = record {
  opened = true;
  size = some 1024;
  reads = some block ∷ some block ∷ [];
  closed = false;
}

get_data_frames-Carries_example :
    (frames : List DataFrame) × (get_data_frames file false none
        (some (old_memory ∷ old_memory ∷ []))
        before
      ≡ returns (record { result = 2; n_file = 3; n_frame = 2; frames = some frames }))
    × (length frames ≡ 2)
    × All Sendable frames
    × Carries frames (concat (block ∷ block ∷ []))
get_data_frames-Carries_example =
    get_data_frames-Carries file block (block ∷ []) none (old_memory ∷ old_memory ∷ []) before
      (refl, (refl, tt)) (replicate-lt 7 512 (omega arith), (replicate-lt 7 512 (omega arith), tt))
      (omega arith) refl refl refl refl (omega arith) (refl, (refl, tt)) (omega arith)

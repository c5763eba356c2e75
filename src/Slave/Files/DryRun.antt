-- ===== src/Slave/Files/DryRun.antt =====
-- A file in a dry run: its bit stream is the file.
use soc.Common.{
  ℕ, ◌*◌, ◌<◌, ◌≡◌, refl, ap, subst, ◌∙◌, List, ◌∷◌, length, map, concat, set, All, Option, some,
  Bool, true, false, leb, lt→leb, if◌then◌else◌, arith,
}
use soc.Common.Effects.{Call, returns}
use soc.Protocol.Data.{DataFrame}
use soc.Protocol.Slices.{data_frame_to_data_len, data_frames_to_data}
use soc.Protocol.Slices.Alloc.{IsMemory, Payloads}
use soc.Protocol.Slices.Carries.{Carries}
use soc.Protocol.Files.{get_data_frames}
use soc.Protocol.Files.Blocks.{Blocks, get_data_frames-Carries}
use soc.Slave.State.{Slave, stream}
use soc.Slave.Process.{Allocations, Yuv, copy_to, process_data_frames_dry_run}
use soc.Slave.Files.{FileRun, encode_file}

dry_run_lem :
    (encode : Yuv → Call (List ℕ)) (process : Allocations) (frames : List DataFrame) (n : ℕ)
    (p_addr : Option (List ℕ)) (bytes : List ℕ)
    → process.stream ≡ true
    → length frames ≡ n
    → Carries frames bytes
    → process_data_frames_dry_run encode true process frames n p_addr
      ≡ returns (length bytes, some bytes)
unfolding process_data_frames_dry_run copy_to
dry_run_lem encode process frames n p_addr bytes found count c =
    let len : data_frame_to_data_len frames n ≡ returns (length bytes) =
      subst (λ k. data_frame_to_data_len frames k ≡ returns (length bytes)) count c.len in
    let copied : data_frames_to_data frames n ≡ returns bytes =
      subst (λ k. data_frames_to_data frames k ≡ returns bytes) count c.bytes in
    rw (len, copied, found) refl

-- What get_data_frames gives is handed on, whether the file is closed or not.
encode_file_step :
    (encode : Yuv → Call (List ℕ)) (dry_run binary closed : Bool) (k n : ℕ) (r : FileRun)
    (s : Slave) (frames : List DataFrame) (bytes : List ℕ)
    → k < 8
    → get_data_frames r.file binary r.raw r.memory (record r.before { n_file = k })
      ≡ returns (record {
        result = if closed then 0 else 2;
        n_file = k;
        n_frame = n;
        frames = some frames;
      })
    → process_data_frames_dry_run encode dry_run r.process frames n (stream s k).addr
      ≡ returns (length bytes, some bytes)
    → encode_file encode dry_run binary k r s
      ≡ returns (
          some (record s {
            bit_streams = set s.bit_streams k (record { addr = some bytes; len = length bytes });
          }))
unfolding encode_file
encode_file_step encode dry_run binary true k n r s frames bytes small got processed =
    let below : leb 8 k ≡ false = lt→leb _ _ small in rw (got, below, processed) refl
encode_file_step encode dry_run binary false k n r s frames bytes small got processed =
    let below : leb 8 k ≡ false = lt→leb _ _ small in rw (got, below, processed) refl

-- One of the first eight files, of 1 to 65535 whole blocks of 512 bytes, one block a read, in a dry
-- run: whether the file can be closed or not, its bit stream becomes the bytes of the file, and
-- nothing else of the slave changes.
pub encode_file-dry_run :
    (encode : Yuv → Call (List ℕ)) (k : ℕ) (r : FileRun) (s : Slave) (block : List ℕ)
    (blocks : List (List ℕ)) (memory : List DataFrame)
    → k < 8
    → Blocks (block ∷ blocks)
    → All (λ b. All (λ x. x < 256) b) (block ∷ blocks)
    → length (block ∷ blocks) < 65536
    → r.file.opened ≡ true
    → r.file.size ≡ some (512 * length (block ∷ blocks))
    → r.file.reads ≡ map some (block ∷ blocks)
    → r.memory ≡ some memory
    → length memory ≡ length (block ∷ blocks)
    → IsMemory memory
    → Payloads memory
    → r.process.stream ≡ true
    → encode_file encode true false k r s
      ≡ returns (
          some (record s {
            bit_streams = set s.bit_streams k (record {
              addr = some (concat (block ∷ blocks));
              len = length (concat (block ∷ blocks));
            });
          }))
encode_file-dry_run encode k r s block blocks memory small h bytes few opened sized read found space
      m payloads stored =
    let (frames, got, count, sendable, carried) =
      get_data_frames-Carries r.file block blocks r.raw memory (record r.before { n_file = k }) h
        bytes few opened sized read space m payloads (omega (arith, small)) in
    encode_file_step encode true false r.file.closed k (length (block ∷ blocks)) r s frames
      (concat (block ∷ blocks)) small
      (ap (λ mem. get_data_frames r.file false r.raw mem (record r.before { n_file = k })) found
        ∙ got)
      (dry_run_lem encode r.process frames (length (block ∷ blocks)) (stream s k).addr
        (concat (block ∷ blocks)) stored count carried)

-- ===== src/Slave/Files/Tests.antt =====
-- The theorems about picture files, applied to a file of one block and to a file that is not there.
use soc.Common.{
  ℕ, ◌≡◌, refl, List, [], ◌∷◌, length, set, replicate, All, none, some, true, false, arith,
}
use soc.Common.Effects.{returns, exits, pos, Ends}
use soc.Protocol.Samples.{old_memory}
use soc.Protocol.Files.Blocks.{replicate-lt}
use soc.Protocol.Files.Skips.{IsSkipped}
use soc.Slave.State.{initial}
use soc.Slave.Files.{FileRun, encode_file, encode_files}
use soc.Slave.Files.DryRun.{encode_file-dry_run}
use soc.Slave.Files.Paths.{encode_files-overflow}

abbrev block : List ℕ
block = replicate 512 7

abbrev one_block : FileRun
one_block = record {
  file = record { opened = true; size = some 512; reads = some block ∷ []; closed = true };
  raw = none;
  memory = some (old_memory ∷ []);
  before = record { result = 0; n_file = 0; n_frame = 0; frames = none };
  process = record { input = true; stream = true };
  path_found = true;
  dump = record { found = true; made = pos 0; opened = true; written = pos 512; closed = true };
}

encode_file-dry_run_example :
    encode_file (λ yuv. exits) true false 2 one_block initial
    ≡ returns (
        some (record initial {
          bit_streams =
              set initial.bit_streams 2 (record { addr = some block; len = length block });
        }))
encode_file-dry_run_example =
    encode_file-dry_run (λ yuv. exits) 2 one_block initial block [] (old_memory ∷ []) (omega arith)
      (refl, tt) (replicate-lt 7 512 (omega arith), tt) (omega arith) refl refl refl refl refl
      (omega arith) (refl, tt) refl

abbrev missing : FileRun
missing = record one_block {
  file = record { opened = false; size = none; reads = []; closed = true };
}

encode_files-overflow_example :
    Ends
      (λ s. (s ≡ initial) × All (λ r. IsSkipped r.file) (missing ∷ one_block ∷ []))
      (encode_files (λ yuv. exits) true false (b'.' ∷ []) 0 (missing ∷ one_block ∷ []) initial)
encode_files-overflow_example =
    encode_files-overflow (λ yuv. exits) true false (b'.' ∷ []) 0 (missing ∷ one_block ∷ []) initial

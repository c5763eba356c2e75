-- ===== src/Slave/Files.antt =====
-- The loop of main in project-spec/meta-user/recipes-apps/autostart/src/main.c over the picture files
-- that are named on its command line: each is encoded as a picture that the master sends would be,
-- and its bit stream is saved.
pub mod DryRun
pub mod Paths
mod Tests
use soc.Common.{
  ℕ, zero, suc, ◌+◌, ◌-◌, ◌/◌, ◌%◌, List, [], ◌∷◌, ◌++◌, length, set, Option, none, some, Bool,
  true, false, ltb, leb, ◌==◌, if◌then◌else◌,
}
use soc.Common.Effects.{Call, returns, exits, faults, ◌>>=◌, ℤ}
use soc.Protocol.Data.{DataFrame}
use soc.Protocol.Files.{PictureFile, GotFrames, get_data_frames}
use soc.Utils.{sprintf, DumpAnswers, dump_mem}
use soc.Slave.State.{Slave, stream, pictures_number_max}
use soc.Slave.Process.{Allocations, Yuv, process_data_frames_dry_run}

-- What happens with one file: the file, the memory for its frames as bytes or as frames, what the
-- variables hold before, the memory of the data path and of the path, and how it is saved.
pub record FileRun : Type 0 where
  pub file : PictureFile
  pub raw : Option (List ℕ)
  pub memory : Option (List DataFrame)
  pub before : GotFrames
  pub process : Allocations
  pub path_found : Bool
  pub dump : DumpAnswers

-- `%d` of a number with at most `fuel` digits.
unfoldable pub decimal : ℕ → ℕ → List ℕ
decimal zero n = []
decimal (suc fuel) n =
    let rest = decimal fuel (n / 10) in
    if ltb n 10 then (b'0' + n) ∷ [] else rest ++ ((b'0' + n % 10) ∷ [])

-- `%s/%d.bin`
abbrev pub path_text : List ℕ → ℕ → List ℕ
path_text out_dir k = out_dir ++ (b'/' ∷ decimal 10 k ++ (b'.' ∷ b'b' ∷ b'i' ∷ b'n' ∷ []))

-- sizeof("XX.bin") counts the 0 at the end.
unfoldable pub file_path : Bool → List ℕ → ℕ → Call (List ℕ)
file_path found out_dir k =
    if found then sprintf (length out_dir + 7 - 1) (path_text out_dir k) else faults

unfoldable pub save_file : List ℕ → ℕ → FileRun → Call ℤ
save_file out_dir k r = file_path r.path_found out_dir k >>= λ path. returns (dump_mem r.dump)

module _ (encode : Yuv → Call (List ℕ)) (dry_run binary : Bool) where
  -- The body of the loop up to the new bit stream; `none` skips the file.
  unfoldable pub encode_file : ℕ → FileRun → Slave → Call (Option Slave)
  encode_file k r s =
      get_data_frames r.file binary r.raw r.memory (record r.before { n_file = k }) >>= λ got.
      if got.result == 1 then returns none else if got.result == 3 then exits else elim got.frames [
        | none ↦ faults
        | some frames ↦
            let encoded =
              process_data_frames_dry_run encode dry_run r.process frames got.n_frame
                (stream s got.n_file).addr in
            if leb pictures_number_max got.n_file
            then faults
            else encoded >>= λ p. returns (
                some (record s {
                  bit_streams = set s.bit_streams got.n_file (record { addr = p.1; len = p.0 });
                }))
      ]

  -- From file `k` on.
  unfoldable pub encode_files : List ℕ → ℕ → List FileRun → Slave → Call Slave
  encode_files out_dir k [] s = returns s
  encode_files out_dir k (r ∷ files) s = encode_file k r s >>= λ encoded. elim encoded [
    | none ↦ encode_files out_dir (k + 1) files s
    | some s' ↦ save_file out_dir k r >>= λ saved. encode_files out_dir (k + 1) files s'
  ]

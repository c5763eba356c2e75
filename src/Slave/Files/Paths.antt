-- ===== src/Slave/Files/Paths.antt =====
-- The memory for the path of a bit stream is too small.
use soc.Common.{
  ℕ, zero, suc, ◌+◌, ◌-◌, ◌/◌, ◌%◌, ◌≤◌, ◌<◌, ◌≡◌, refl, List, [], ◌∷◌, ◌++◌, length, length-append,
  set, Option, none, some, Bool, Bool-cases, inl, inr, true, false, ltb, leb, lt→leb, ◌==◌,
  if◌then◌else◌, All, arith,
}
use soc.Common.Effects.{Call, returns, faults, ◌>>=◌, Ends, Ends-bind, Ends-if, Ends-then}
use soc.Protocol.Data.{DataFrame}
use soc.Protocol.Files.{PictureFile}
use soc.Protocol.Files.Skips.{IsSkipped, get_data_frames-IsSkipped}
use soc.Slave.State.{Slave, stream}
use soc.Slave.Process.{Yuv, process_data_frames_dry_run}
use soc.Slave.Files.{FileRun, decimal, path_text, file_path, save_file, encode_file, encode_files}

pub some_digit : (fuel n : ℕ) → 0 < fuel → 0 < length (decimal fuel n)
unfolding decimal
some_digit zero n h = absurd (omega arith)
some_digit (suc fuel) n h = elim (Bool-cases (ltb n 10)) [
  | inl one ↦ rw one (omega arith)
  | inr more ↦ rw more (omega (arith, length-append (decimal fuel (n / 10)) ((b'0' + n % 10) ∷ [])))
]

length-path_text : (out_dir : List ℕ) (k : ℕ) → length out_dir + 6 ≤ length (path_text out_dir k)
length-path_text out_dir k = omega (
  arith,
  length-append out_dir (b'/' ∷ decimal 10 k ++ (b'.' ∷ b'b' ∷ b'i' ∷ b'n' ∷ [])),
  length-append (decimal 10 k) (b'.' ∷ b'b' ∷ b'i' ∷ b'n' ∷ []),
  some_digit 10 k (omega arith),
)

file_path_overflow : (found : Bool) (out_dir : List ℕ) (k : ℕ) → file_path found out_dir k ≡ faults
unfolding file_path
file_path_overflow false out_dir k = refl
file_path_overflow true out_dir k =
    let long : leb (length (path_text out_dir k) + 1) (length out_dir + 7 - 1) ≡ false =
      lt→leb _ _ (omega (arith, length-path_text out_dir k)) in
    rw long refl

save_file_overflow : (out_dir : List ℕ) (k : ℕ) (r : FileRun) → save_file out_dir k r ≡ faults
unfolding save_file
save_file_overflow out_dir k r = rw (file_path_overflow r.path_found out_dir k) refl

Ends-map :
    {A : Type 0} {P Q : A → Type 0} (m : Call A) → Ends P m → ((a : A) → P a → Q a) → Ends Q m
Ends-map m (Ends.on_return a p) h = Ends.on_return a (h a p)
Ends-map m Ends.on_exit h = Ends.on_exit
Ends-map m Ends.on_fault h = Ends.on_fault

-- `none` is for a file that is skipped.
IsEncoded : PictureFile → Option Slave → Type 0
IsEncoded file none = IsSkipped file
IsEncoded file (some s) = Unit

module _ (encode : Yuv → Call (List ℕ)) (dry_run binary : Bool) where
  goes_on :
      (frames : Option (List DataFrame)) (n_file n_frame : ℕ) (r : FileRun) (s : Slave)
      → Ends (IsEncoded r.file) (elim frames [
        | none ↦ faults
        | some made ↦
            let encoded =
              process_data_frames_dry_run encode dry_run r.process made n_frame
                (stream s n_file).addr in
            if leb 8 n_file
            then faults
            else encoded >>= λ p. returns (
                some (record s {
                  bit_streams = set s.bit_streams n_file (record { addr = p.1; len = p.0 });
                }))
      ])
  unfolding IsEncoded
  goes_on none n_file n_frame r s = Ends.on_fault
  goes_on (some made) n_file n_frame r s = Ends-if (leb 8 n_file) Ends.on_fault (
      Ends-bind
        (process_data_frames_dry_run encode dry_run r.process made n_frame (stream s n_file).addr) _
        (λ p. Ends.on_return _ tt))

  encode_file-IsEncoded :
      (k : ℕ) (r : FileRun) (s : Slave)
      → Ends (IsEncoded r.file) (encode_file encode dry_run binary k r s)
  unfolding encode_file IsEncoded
  encode_file-IsEncoded k r s =
      Ends-then _ _
        (get_data_frames-IsSkipped r.file binary r.raw r.memory (record r.before { n_file = k }))
        (λ got skipped. elim (Bool-cases (got.result == 1)) [
          | inl one ↦ rw one (Ends.on_return none (skipped (ground arith)))
          | inr not_one ↦ rw not_one (
              Ends-if (got.result == 3) Ends.on_exit
                (goes_on got.frames got.n_file got.n_frame r s))
        ])

  -- However the files, their memory and the system calls are: the loop over the files comes to its end
  -- only if every file is skipped, and then leaves the slave as it was; the path of the first bit
  -- stream is written past the end of its memory.
  pub encode_files-overflow :
      (out_dir : List ℕ) (k : ℕ) (files : List FileRun) (s : Slave)
      → Ends
          (λ s'. (s' ≡ s) × All (λ r. IsSkipped r.file) files)
          (encode_files encode dry_run binary out_dir k files s)
  unfolding encode_files IsEncoded
  encode_files-overflow out_dir k [] s = Ends.on_return s (refl, tt)
  encode_files-overflow out_dir k (r ∷ files) s =
      let later = encode_files-overflow out_dir (k + 1) files s in
      Ends-then (encode_file encode dry_run binary k r s) _ (encode_file-IsEncoded k r s)
        (λ encoded ends. goes_over later encoded ends)
    where
      goes_over :
          Ends
            (λ s'. (s' ≡ s) × All (λ q. IsSkipped q.file) files)
            (encode_files encode dry_run binary out_dir (k + 1) files s)
          → (encoded : Option Slave) → IsEncoded r.file encoded
          → Ends
              (λ s'. (s' ≡ s) × All (λ q. IsSkipped q.file) (r ∷ files))
              (elim encoded [
                | none ↦ encode_files encode dry_run binary out_dir (k + 1) files s
                | some s' ↦ save_file out_dir k r >>= λ saved.
                    encode_files encode dry_run binary out_dir (k + 1) files s'
              ])
      goes_over later none skipped = Ends-map _ later (λ s' h. (h.0, (skipped, h.1)))
      goes_over later (some s') ends = rw (save_file_overflow out_dir k r) Ends.on_fault

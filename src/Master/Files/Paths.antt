-- ===== src/Master/Files/Paths.antt =====
-- The memory for the path of a bit stream, or of a dump, is too small.
use soc.Common.{
  ℕ, ◌+◌, ◌-◌, ◌^◌, ◌<◌, ◌≡◌, ◌≢◌, refl, List, [], ◌∷◌, ◌++◌, length, length-append, get_elem?,
  Option, some, none, Bool, Bool-cases, inl, inr, true, false, ltb, leb, lt→leb, arith,
}
use soc.Common.Effects.{returns, faults, ◌>?>◌, >>=-returns, >?>-some}
use soc.Protocol.Control.{Frame, zero_frame}
use soc.Slave.Files.Paths.{some_digit}
use soc.Master.Pictures.{recv_file, recv_request}
use soc.Master.{query_request}
use soc.Master.Files.{
  FileTransfer, Received, number_text, bin_extension, output_path, send_files, receive_one,
  receive_files, transfer_files,
}

some_text : (n : ℕ) → 0 < length (number_text n)
some_text n = elim (Bool-cases (ltb n (2 ^ 31))) [
  | inl small ↦ rw small (some_digit 10 n (omega arith))
  | inr large ↦ rw large (omega arith)
]

pub output_path_overflow :
    (found : Bool) (out_dir : List ℕ) (n : ℕ) (extension : List ℕ)
    → length extension ≡ 4
    → output_path found out_dir n extension ≡ faults
unfolding output_path
output_path_overflow false out_dir n extension four = refl
output_path_overflow true out_dir n extension four =
    let long : leb (length (out_dir ++ (b'/' ∷ number_text n ++ extension)) + 1)
          (length out_dir + 7 - 1)
        ≡ false =
      lt→leb _ _ (
        omega (
          arith,
          length-append out_dir (b'/' ∷ number_text n ++ extension),
          length-append (number_text n) extension,
          some_text n,
          four,
        )) in
    rw long refl

receive_one-fails :
    (out_dir : List ℕ) (n : ℕ) (t : FileTransfer) (output_frame : Frame) (r : Received)
    → receive_one out_dir n t output_frame ≢ returns (some r)
unfolding receive_one
receive_one-fails out_dir n t output_frame r e =
    let (got, e1, e2) =
      >?>-some (recv_file t.queries t.calloc t.receiving (record output_frame { n_file = n })) _ r
        e in
    let (path, e3, e4) =
      >>=-returns (output_path t.bin_path_found out_dir n bin_extension) _ (some r) e2 in
    let fails = output_path_overflow t.bin_path_found out_dir n bin_extension refl in
    absurd (ground arith)

receive_files-fails :
    (out_dir : List ℕ) (n_files : List ℕ) (k : ℕ) (t : FileTransfer) (files : List FileTransfer)
    (output_frame : Frame) (received : List Received)
    → receive_files out_dir n_files k (t ∷ files) output_frame ≢ returns (some received)
unfolding receive_files
receive_files-fails out_dir n_files k t files output_frame received =
    by_number (get_elem? n_files k)
  where
    by_number :
        (number : Option ℕ)
        → elim number [
          | none ↦ faults
          | some n_file ↦ receive_one out_dir n_file t output_frame >?> λ got.
              receive_files out_dir n_files
                (k + 1)
                files
                (recv_request (query_request (record output_frame { n_file = n_file })))
              >?> λ rest. returns (some (got ∷ rest))
        ]
          ≢ returns (some received)
    by_number none e = absurd (ground arith)
    by_number (some n_file) e =
        let (got, e1, e2) = >?>-some (receive_one out_dir n_file t output_frame) _ received e in
        receive_one-fails out_dir n_file t output_frame got e1

-- Whatever the files, the slave, the memory and the system calls are: with a file on its command line
-- the master never comes to its end. For the first bit stream that it has received, if not for the
-- dump of a file before, it writes a path past the end of its memory.
pub transfer_files-overflow :
    (flushed binary dump : Bool) (out_dir n_files : List ℕ) (t : FileTransfer)
    (files : List FileTransfer) (received : List Received)
    → transfer_files flushed binary dump out_dir n_files (t ∷ files) ≢ returns (some received)
unfolding transfer_files
transfer_files-overflow false binary dump out_dir n_files t files received e = absurd (ground arith)
transfer_files-overflow true binary dump out_dir n_files t files received e =
    let (s, e1, e2) =
      >?>-some
        (send_files binary dump out_dir 0 (t ∷ files)
          (record { output_frame = zero_frame; n_files = n_files; wire = []; n_total_frame = 0 }))
        _ received e in
    receive_files-fails out_dir s.n_files 0 t files s.output_frame received e2

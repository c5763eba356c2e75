-- ===== src/Master/Files/RoundTrip.antt =====
-- A picture file from the master's disk to the slave and back.
use soc.Common.{
  ℕ, zero, suc, ◌+◌, ◌*◌, ◌≤◌, ◌<◌, ◌≡◌, refl, sym, ap, subst, ◌∙◌, List, [], ◌∷◌, ◌++◌, concat,
  length, get_elem?, get_or, All, some, true, false, arith,
}
use soc.Common.Effects.{Call, returns, ℤ}
use soc.Protocol.Control.{Frame, IsFrame, zero_frame}
use soc.Protocol.Data.{DataFrame}
use soc.Protocol.Receive.Reading.{Nonempty}
use soc.Protocol.Slices.{frames_needed}
use soc.Protocol.Slices.Alloc.{IsMemory}
use soc.Protocol.Files.Blocks.{length-concat, concat-bytes}
use soc.Slave.State.{Slave, stream, info}
use soc.Slave.Process.{Yuv}
use soc.Slave.Commands.{Answers, handle}
use soc.Slave.Invariant.{IsSlave}
use soc.Slave.Download.{Writes}
use soc.Master.{Attempt, query_request}
use soc.Master.Exchange.{TimesOut}
use soc.Master.Query.{arrived, heard}
use soc.Master.Pictures.{RecvRound, recv_file, DumpAnswers, dump_data_frames}
use soc.Master.Pictures.Sending.{Replies}
use soc.Master.Pictures.Announced.{HasStream, recv_command}
use soc.Master.Pictures.Download.{data_round, recv_file-download}
use soc.Master.Files.{FileTransfer, SentFiles, send_files}
use soc.Master.Files.Runs.{IsPictureFile, PictureRun, bytes_of, count_of}
use soc.Master.Files.Upload.{
  Wired, AllGoWell, HasNone, AllUploaded, UploadsFrom, uploads_from, zero_frame-IsFrame,
}

-- What holds of one of the files after the first loop.
record UploadedAt (r : PictureRun) (v : Slave) (n_files : List ℕ) (n : ℕ) : Type 0 where
  stored : stream v n ≡ record { addr = some (bytes_of r); len = length (bytes_of r) }
  counted : (info v n).len ≡ count_of r
  noted : get_elem? n_files n ≡ some n

uploaded_at :
    (k : ℕ) (runs : List PictureRun) (v : Slave) (n_files : List ℕ) (i : ℕ) (r : PictureRun)
    → AllUploaded k runs v n_files
    → get_elem? runs i ≡ some r
    → UploadedAt r v n_files (k + i)
uploaded_at k [] v n_files i r h e = absurd (ground arith)
uploaded_at k (q ∷ runs) v n_files zero r h e =
    let same : q ≡ r = cc in
    let here : k ≡ k + 0 = omega arith in
    subst (UploadedAt r v n_files) here (
      subst (λ x. UploadedAt x v n_files k) same
        (record { stored = h.0; counted = h.1; noted = h.2 }))
uploaded_at k (q ∷ runs) v n_files (suc i) r h e =
    let there : k + 1 + i ≡ k + suc i = omega arith in
    subst (UploadedAt r v n_files) there (uploaded_at (k + 1) runs v n_files i r h.3 e)

file_at :
    (k c : ℕ) (runs : List PictureRun) (i : ℕ) (r : PictureRun)
    → AllGoWell k c runs
    → get_elem? runs i ≡ some r
    → IsPictureFile r.transfer (r.block ∷ r.blocks)
file_at k c [] i r h e = absurd (ground arith)
file_at k c (q ∷ runs) zero r h e =
    let same : q ≡ r = cc in
    subst (λ x. IsPictureFile x.transfer (x.block ∷ x.blocks)) same h.0.file
file_at k c (q ∷ runs) (suc i) r h e = file_at (k + 1) _ runs i r h.1 e

below_length :
    (runs : List PictureRun) (i : ℕ) (r : PictureRun) → get_elem? runs i ≡ some r → i < length runs
below_length [] i r e = absurd (ground arith)
below_length (q ∷ runs) zero r e = omega arith
below_length (q ∷ runs) (suc i) r e = omega (arith, below_length runs i r e)

whole_frames : (n : ℕ) → frames_needed (512 * n) ≡ n
unfolding frames_needed
whole_frames n = ground arith

-- The slave has a file's bytes as a bit stream, of as many frames as it has counted.
HasStream-uploaded :
    (r : PictureRun) (v : Slave) (n_files : List ℕ) (n : ℕ)
    → IsPictureFile r.transfer (r.block ∷ r.blocks)
    → UploadedAt r v n_files n
    → n < 8
    → HasStream v n (bytes_of r) × (frames_needed (length (bytes_of r)) ≡ count_of r)
HasStream-uploaded r v n_files n f u small =
    let size : length (bytes_of r) ≡ 512 * count_of r =
      length-concat (r.block ∷ r.blocks) f.whole in
    (
      record {
        small = small;
        stored = u.stored;
        some_bytes = omega (arith, size);
        fits = omega (arith, size, f.few);
        bytes_fit = concat-bytes (r.block ∷ r.blocks) f.bytes;
      },
      ap frames_needed size ∙ whole_frames (count_of r),
    )

module _ (encode : Yuv → Call (List ℕ)) (out_dir : List ℕ) where
  -- The master sends up to eight files, each of 1 to 65535 whole blocks of 512 bytes, one block a
  -- read, with memory for its frames and for as many numbers as files, not in binary mode and with
  -- no dump, to a slave that is in a state that satisfies the invariant and in a dry run and has
  -- nothing of the pictures; the slave's system calls go well, the bytes of each file's frames,
  -- numbered on from the file before it, arrive in any non-empty pieces, and the master reads each
  -- answer of the slave after any rounds that time out. Then the master's first loop comes to its
  -- end. After it the master asks for one of the pictures by the number that it has noted for its
  -- file, with a request that fits its types and has address 0, and the slave's system calls go well
  -- again: the slave serves the query and the request to receive, and if the master reads the two
  -- answers, each after any rounds that time out, and then the bytes that the slave wrote after the
  -- second one, in any non-empty pieces, and has memory for them, one round of receiving is enough, and dump_data_frames, if
  -- it can make the directory and open the file, hands exactly the bytes of the picture's file to
  -- write(2).
  pub send_files-recv_file :
      (runs : List PictureRun) (n_files : List ℕ) (v : Slave) (r : PictureRun) (out : Frame)
      (query_env recv_env : Answers) (memory : List DataFrame)
      → length runs ≤ 8
      → length n_files ≡ length runs
      → AllGoWell 0 0 runs
      → IsSlave v
      → HasNone 0 v
      → get_elem? runs out.n_file ≡ some r
      → IsFrame out
      → out.address ≡ 0
      → length memory ≡ count_of r
      → IsMemory memory
      → Replies query_env
      → Writes recv_env memory
      → (files : List FileTransfer) × (v' : Slave) × (s' : SentFiles) × Wired encode 0 zero_frame
          runs files v v'
        × (send_files false false out_dir 0 files (record {
          output_frame = zero_frame;
          n_files = n_files;
          wire = [];
          n_total_frame = 0;
        })
            ≡ returns (some s'))
        × (get_elem? s'.n_files out.n_file ≡ some out.n_file)
        × ((q g sent : List ℕ) × (v1 v2 : Slave) × (handle encode true query_env
                (arrived (query_request out))
                v'
              ≡ returns (q, v1))
            × (handle encode true recv_env (recv_command out) v1 ≡ returns (g ++ sent, v2))
            × ((lost lost' later later' : List Attempt) (queries : List (List Attempt))
                  (rounds : List RecvRound) (p : List ℕ) (ps : List (List ℕ))
                → All TimesOut lost
                → All TimesOut lost'
                → All Nonempty (p ∷ ps)
                → concat (p ∷ ps) ≡ sent
                → (n : ℕ) × (frames : List DataFrame) × (recv_file
                      ((lost ++ (heard q ∷ later)) ∷ queries)
                      true
                      (data_round lost' g later' (λ k. get_or (p ∷ ps) k []) ∷ rounds)
                      out
                    ≡ returns (some (n, frames)))
                  × ((env : DumpAnswers)
                      → env.made ≡ true
                      → env.opened ≡ true
                      → (size : ℤ) × (dump_data_frames env frames n ≡ returns (bytes_of r, size)))))
  send_files-recv_file runs n_files v r out query_env recv_env memory small room well h none_yet at
        ho a size mem rq w =
      let all : UploadsFrom encode out_dir 0 runs _ v =
        uploads_from encode out_dir 0 runs
          (record { output_frame = zero_frame; n_files = n_files; wire = []; n_total_frame = 0 }) v
          (omega (arith, small)) (omega (arith, room)) well zero_frame-IsFrame refl (omega arith) h
          none_yet in
      let number : 0 + out.n_file ≡ out.n_file = omega arith in
      let u : UploadedAt r all.v' all.s'.n_files out.n_file =
        subst (UploadedAt r all.v' all.s'.n_files) number
          (uploaded_at 0 runs all.v' all.s'.n_files out.n_file r all.uploaded at) in
      let (has, needed) =
        HasStream-uploaded r all.v' all.s'.n_files out.n_file
          (file_at 0 0 runs out.n_file r well at) u
          (omega (arith, small, below_length runs out.n_file r at)) in
      (
        all.files,
        all.v',
        all.s',
        all.wired,
        all.sent,
        u.noted,
        recv_file-download encode true query_env recv_env out memory (bytes_of r) all.v' ho a
            all.slave has (omega (arith, needed, u.counted)) (size ∙ sym needed) mem rq w,
      )

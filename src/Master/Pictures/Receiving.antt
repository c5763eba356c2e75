-- ===== src/Master/Pictures/Receiving.antt =====
-- The parts of a download: the array that the frames go to, one round of receiving, and the file.
use soc.Common.{
  ℕ, zero, suc, ◌+◌, ◌≤◌, ◌≡◌, refl, ap, List, [], ◌∷◌, ◌++◌, take, replicate, Option, some, true,
  false, ltb, leb, ◌==◌, Bool-cases, inl, inr, arith,
}
use soc.Common.Effects.{Call, returns, ◌>>=◌, ℤ, pos, negsuc, >>=-returns}
use soc.Protocol.Control.{Frame}
use soc.Protocol.Data.{DataFrame, zero_data_frame}
use soc.Protocol.Receive.{receive_data_frames}
use soc.Protocol.Slices.{data_frames_to_data}
use soc.Master.{Attempt, send_and_receive_frame, query_request, query_status}
use soc.Master.Pictures.{
  RecvRound, recv_request, recv_rounds, recv_file, wait_processed, DumpAnswers, add_written,
  dump_loop, dump_data_frames,
}

-- A longer array of calloc.
pub replicate-split :
    (n k : ℕ)
    → n ≤ k
    → (j : ℕ) × (replicate k zero_data_frame
        ≡ replicate n zero_data_frame ++ replicate j zero_data_frame)
replicate-split zero k h = (k, refl)
replicate-split (suc n) zero h = absurd (omega arith)
replicate-split (suc n) (suc k) h =
    let (j, e) = replicate-split n k (omega arith) in (j, ap (λ l. zero_data_frame ∷ l) e)

-- One round is enough if every frame is there after it.
pub recv_file-once :
    (attempts later granted_later : List Attempt) (queries : List (List Attempt)) (r : RecvRound)
    (rounds : List RecvRound) (out g granted : Frame) (frames : List DataFrame)
    → query_status attempts out ≡ returns (some (g, later))
    → g.status ≡ 0x5555
    → send_and_receive_frame r.request (recv_request (query_request out))
      ≡ returns (some (granted, granted_later))
    → receive_data_frames r.data_ready r.reads (replicate g.n_frame zero_data_frame) granted.n_frame
      ≡ returns (0, frames)
    → r.flushed ≡ true
    → recv_file (attempts ∷ queries) true (r ∷ rounds) out
      ≡ returns (some (granted.n_frame, frames))
unfolding recv_file recv_rounds wait_processed
recv_file-once attempts later granted_later queries r rounds out g granted frames q done ok e
      flushed =
    let processed : (g.status == 0x5555) ≡ true = ground arith in
    rw (q, processed, ok, e, flushed) refl

-- What data_frames_to_data copies is what is written to the file, whatever write(2) answers.
pub dump_loop-data :
    (n i : ℕ) (frames more : List DataFrame) (d : List ℕ) (written : ℕ → Option ℕ) (size : ℤ)
    → data_frames_to_data frames n ≡ returns d
    → (total : ℤ) × (dump_loop n i (frames ++ more) written size ≡ returns (d, total))
unfolding dump_loop data_frames_to_data
dump_loop-data zero i frames more d written size e =
    (size, ap (λ (c : Call (List ℕ)). c >>= λ b. returns (b, size)) e)
dump_loop-data (suc n) i [] more d written size e = absurd (ground arith)
dump_loop-data (suc n) i (f ∷ frames) more d written size e =
    let (rest, e', k) = >>=-returns (data_frames_to_data frames n) _ d e in
    let (total, r) =
      dump_loop-data n (i + 1) frames more rest written (add_written size (written i)) e' in
    elim (Bool-cases (leb f.data_len 512)) [
      | inl fits ↦
          let no_more : ltb 512 f.data_len ≡ false = ground arith in
          let bytes : returns (take f.data_len f.payload ++ rest) ≡ returns d = rw fits at k in
          (total, rw (no_more, r) (ap (λ (c : Call (List ℕ)). c >>= λ b. returns (b, total)) bytes))
      | inr long ↦ absurd (ground arith)
    ]

pub dump_data_frames-data :
    (env : DumpAnswers) (frames more : List DataFrame) (n : ℕ) (d : List ℕ)
    → env.made ≡ true
    → env.opened ≡ true
    → data_frames_to_data frames n ≡ returns d
    → (size : ℤ) × (dump_data_frames env (frames ++ more) n ≡ returns (d, size))
unfolding dump_data_frames
dump_data_frames-data env frames more n d made opened e =
    let (total, r) = dump_loop-data n 0 frames more d env.written (pos 0) e in
    elim (Bool-cases env.closed) [
      | inl closed ↦ (total, rw (made, opened, r, closed) refl)
      | inr failed ↦ (negsuc 0, rw (made, opened, r, failed) refl)
    ]

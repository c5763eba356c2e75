-- ===== src/Master/Pictures/Download.antt =====
-- A bit stream from the slave's memory to the master's file.
use soc.Common.{
  ℕ, ◌≤◌, ◌≡◌, refl, ap, ◌∙◌, List, [], ◌∷◌, ◌++◌, map, concat, length, get_or, replicate, All,
  some, Bool, true, arith,
}
use soc.Common.Effects.{Call, returns, ℤ}
use soc.Protocol.Control.{Frame, IsFrame}
use soc.Protocol.Data.{DataFrame, zero_data_frame}
use soc.Protocol.Receive.{ready, receive_data_frames}
use soc.Protocol.Receive.Frames.{delivered}
use soc.Protocol.Receive.Reading.{Nonempty}
use soc.Protocol.Receive.Transfer.{wire, Sendable, receive-wires_more}
use soc.Protocol.Slices.{frames_needed, data_frames_to_data}
use soc.Protocol.Slices.Alloc.{IsMemory}
use soc.Protocol.Slices.Carries.{Carries-delivered}
use soc.Slave.State.{Slave, info}
use soc.Slave.Process.{Yuv}
use soc.Slave.Commands.{Answers, handle}
use soc.Slave.Invariant.{IsSlave}
use soc.Slave.Download.{Writes}
use soc.Master.{Attempt, query_request}
use soc.Master.Exchange.{TimesOut}
use soc.Master.Query.{arrived, heard}
use soc.Master.Pictures.{RecvRound, recv_file, DumpAnswers, dump_data_frames}
use soc.Master.Pictures.Sending.{Replies, Pending-fresh}
use soc.Master.Pictures.Receiving.{replicate-split, recv_file-once, dump_data_frames-data}
use soc.Master.Pictures.Announced.{HasStream, recv_command, announced}

-- A round in which the answer is heard after rounds that time out, and the data come in pieces.
abbrev pub data_round : List Attempt → List ℕ → List Attempt → (ℕ → List ℕ) → RecvRound
data_round lost answer later reads = record {
  request = lost ++ (heard answer ∷ later);
  data_ready = ready;
  reads = reads;
  flushed = true;
}

-- All frames come in, though the array may be longer, and the file is what they carry.
received :
    (fs : List DataFrame) (p : List ℕ) (ps : List (List ℕ)) (n k : ℕ)
    → n ≡ length fs
    → n ≤ k
    → All Sendable fs
    → All Nonempty (p ∷ ps)
    → concat (p ∷ ps) ≡ concat (map wire fs)
    → (j : ℕ) × (receive_data_frames ready
          (λ i. get_or (p ∷ ps) i [])
          (replicate k zero_data_frame)
          n
        ≡ returns (0, map delivered fs ++ replicate j zero_data_frame))
received fs p ps n k e le ss ne pieces =
    let (j, split) = replicate-split (length fs) k (omega arith) in
    (
      j,
      rw (e, split)
          (receive-wires_more fs (replicate (length fs) zero_data_frame)
            (replicate j zero_data_frame) p ps ss (Pending-fresh fs) ne pieces),
    )

module _ (encode : Yuv → Call (List ℕ)) (dry_run : Bool) where
  -- A picture below 8 whose bit stream on the slave, in a state that satisfies the invariant, is 1 to
  -- 65535 * 512 `bytes`, for which the slave has counted at least as many frames of the picture as the
  -- bit stream needs; and a master whose request fits its types and has address 0: if the slave's
  -- system calls go well, it serves the master's query and its request to receive; and if the master reads the two answers, each after any number of rounds that time out,
  -- and then the bytes that the slave wrote after the second one, in any non-empty pieces, and has
  -- memory for them, then one round of receiving is enough, and dump_data_frames, if it can make the directory and open the file,
  -- hands exactly `bytes` to write(2).
  pub recv_file-download :
      (query_env recv_env : Answers) (out : Frame) (memory : List DataFrame) (bytes : List ℕ)
      (s : Slave)
      → IsFrame out
      → out.address ≡ 0
      → IsSlave s
      → HasStream s out.n_file bytes
      → frames_needed (length bytes) ≤ (info s out.n_file).len
      → length memory ≡ frames_needed (length bytes)
      → IsMemory memory
      → Replies query_env
      → Writes recv_env memory
      → (q r sent : List ℕ) × (s1 s2 : Slave) × (handle encode dry_run query_env
            (arrived (query_request out))
            s
          ≡ returns (q, s1))
        × (handle encode dry_run recv_env (recv_command out) s1 ≡ returns (r ++ sent, s2))
        × ((lost lost' later later' : List Attempt) (queries : List (List Attempt))
              (rounds : List RecvRound) (p : List ℕ) (ps : List (List ℕ))
            → All TimesOut lost
            → All TimesOut lost'
            → All Nonempty (p ∷ ps)
            → concat (p ∷ ps) ≡ sent
            → (n : ℕ) × (frames : List DataFrame) × (recv_file
                  ((lost ++ (heard q ∷ later)) ∷ queries)
                  true
                  (data_round lost' r later' (λ k. get_or (p ∷ ps) k []) ∷ rounds)
                  out
                ≡ returns (some (n, frames)))
              × ((env : DumpAnswers)
                  → env.made ≡ true
                  → env.opened ≡ true
                  → (size : ℤ) × (dump_data_frames env frames n ≡ returns (bytes, size))))
  recv_file-download query_env recv_env out memory bytes s ho a h b enough size mem rq w =
      let (q, r, fs, s1, s2, queried, granted, an) =
        announced encode dry_run query_env recv_env out memory bytes s ho a h b size mem rq w in
      (
        q,
        r,
        concat (map wire fs),
        s1,
        s2,
        queried,
        granted,
        λ lost lost' later later' queries rounds p ps timeouts timeouts' ne pieces.
            let (j, came) =
              received fs p ps an.granted.n_frame an.answer.n_frame an.n_frame
                (omega (arith, an.n_frame, an.count, an.held)) an.sendable ne pieces in
            let stored = (Carries-delivered fs bytes an.carries).0 in
            (
              an.granted.n_frame,
              map delivered fs ++ replicate j zero_data_frame,
              recv_file-once _ later later' queries _ rounds out an.answer an.granted _
                  (an.queried lost later timeouts) an.processed
                  (an.requested lost' later' timeouts') came refl,
              λ env made opened.
                  dump_data_frames-data env (map delivered fs) _ _ bytes made opened
                    (ap (data_frames_to_data (map delivered fs)) an.n_frame ∙ stored),
            ),
      )

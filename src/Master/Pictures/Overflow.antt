-- ===== src/Master/Pictures/Overflow.antt =====
-- A bit stream of more frames than the array that the master makes for it.
use soc.Common.{
  ℕ, zero, suc, ◌-◌, ◌*◌, ◌<◌, ◌≡◌, refl, List, [], ◌∷◌, ◌++◌, drop, map, concat, length,
  length-replicate, replicate, All, some, Bool, true, ◌==◌, arith,
}
use soc.Common.Effects.{Call, returns, faults}
use soc.Protocol.Control.{Frame, IsFrame}
use soc.Protocol.Data.{DataFrame, zero_data_frame}
use soc.Protocol.Receive.{ready, collect, read_fuel, receive_data_frames}
use soc.Protocol.Receive.Reading.{read_loop_total}
use soc.Protocol.Receive.Transfer.{wire}
use soc.Protocol.Slices.{frames_needed}
use soc.Protocol.Slices.Alloc.{IsMemory}
use soc.Slave.State.{Slave, info}
use soc.Slave.Process.{Yuv}
use soc.Slave.Commands.{Answers, handle}
use soc.Slave.Invariant.{IsSlave}
use soc.Slave.Download.{Writes}
use soc.Master.{Attempt, send_and_receive_frame, query_request, query_status}
use soc.Master.Exchange.{TimesOut}
use soc.Master.Query.{arrived, heard}
use soc.Master.Pictures.{RecvRound, recv_request, recv_rounds, recv_file, wait_processed}
use soc.Master.Pictures.Sending.{Replies}
use soc.Master.Pictures.Announced.{HasStream, recv_command, announced}
use soc.Master.Pictures.Download.{data_round}

collect_short :
    (n : ℕ) (olds : List DataFrame) (temp : List ℕ) → length olds < n → collect n olds temp ≡ faults
unfolding collect
collect_short zero olds temp h = absurd (omega arith)
collect_short (suc n) [] temp h = refl
collect_short (suc n) (o ∷ olds) temp h =
    rw (collect_short n olds (drop 534 temp) (omega arith)) refl

receive_short :
    (reads : ℕ → List ℕ) (olds : List DataFrame) (n : ℕ)
    → length olds < n
    → receive_data_frames ready reads olds n ≡ faults
unfolding receive_data_frames
receive_short reads olds n h =
    let (r, e, _) =
      read_loop_total (read_fuel len) 0 len reads [] 0 (omega arith) (omega arith) (omega arith) in
    rw (e, receive_data_frames)
      (collect_short n olds (r.temp ++ replicate (len - length r.temp) 0) h)
  where
    len : ℕ
    len = 534 * n

recv_file_short :
    (attempts later granted_later : List Attempt) (queries : List (List Attempt)) (r : RecvRound)
    (rounds : List RecvRound) (out g granted : Frame)
    → query_status attempts out ≡ returns (some (g, later))
    → g.status ≡ 0x5555
    → send_and_receive_frame r.request (recv_request (query_request out))
      ≡ returns (some (granted, granted_later))
    → r.data_ready ≡ ready
    → g.n_frame < granted.n_frame
    → recv_file (attempts ∷ queries) true (r ∷ rounds) out ≡ faults
unfolding recv_file recv_rounds wait_processed
recv_file_short attempts later granted_later queries r rounds out g granted q done ok is_ready h =
    let processed : (g.status == 0x5555) ≡ true = ground arith in
    let short : receive_data_frames ready r.reads (replicate g.n_frame zero_data_frame)
          granted.n_frame
        ≡ faults =
      receive_short r.reads (replicate g.n_frame zero_data_frame) granted.n_frame
        (omega (arith, length-replicate {A = DataFrame} g.n_frame zero_data_frame)) in
    rw (q, processed, ok, is_ready, short) refl

module _ (encode : Yuv → Call (List ℕ)) (dry_run : Bool) where
  -- A picture below 8 whose bit stream on the slave, in a state that satisfies the invariant, is 1 to
  -- 65535 * 512 `bytes`, for which the slave has counted fewer frames of the picture than the bit
  -- stream needs; and a master whose request fits its types and has address 0: if the slave's system
  -- calls go well, it serves the master's query and its request to receive; and if the master reads the two answers, each after any number of rounds that time out,
  -- the descriptor is ready and calloc finds its memory, then whatever it reads, it runs past the end of the array that it
  -- made for the frames.
  pub recv_file_overflow :
      (query_env recv_env : Answers) (out : Frame) (memory : List DataFrame) (bytes : List ℕ)
      (s : Slave)
      → IsFrame out
      → out.address ≡ 0
      → IsSlave s
      → HasStream s out.n_file bytes
      → (info s out.n_file).len < frames_needed (length bytes)
      → length memory ≡ frames_needed (length bytes)
      → IsMemory memory
      → Replies query_env
      → Writes recv_env memory
      → (q r sent : List ℕ) × (s1 s2 : Slave) × (handle encode dry_run query_env
            (arrived (query_request out))
            s
          ≡ returns (q, s1))
        × (handle encode dry_run recv_env (recv_command out) s1 ≡ returns (r ++ sent, s2))
        × ((lost lost' later later' : List Attempt) (queries : List (List Attempt))
              (rounds : List RecvRound) (reads : ℕ → List ℕ)
            → All TimesOut lost
            → All TimesOut lost'
            → recv_file
                ((lost ++ (heard q ∷ later)) ∷ queries)
                true
                (data_round lost' r later' reads ∷ rounds)
                out
              ≡ faults)
  recv_file_overflow query_env recv_env out memory bytes s ho a h b few size mem rq w =
      let (q, r, fs, s1, s2, queried, granted, an) =
        announced encode dry_run query_env recv_env out memory bytes s ho a h b size mem rq w in
      (
        q,
        r,
        concat (map wire fs),
        s1,
        s2,
        queried,
        granted,
        λ lost lost' later later' queries rounds reads timeouts timeouts'.
            recv_file_short _ later later' queries _ rounds out an.answer an.granted
              (an.queried lost later timeouts) an.processed (an.requested lost' later' timeouts')
              refl (omega (arith, an.n_frame, an.count, an.held)),
      )

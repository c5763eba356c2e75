-- ===== src/Master/Pictures.antt =====
-- The loops over pictures in main of project-spec/meta-user/recipes-apps/autostart/src/master.c, for one
-- picture: how it is sent, how its bit stream is received, and dump_data_frames. What the system
-- calls answer is an argument; the pauses are left out. The dump of the frames is in Master/Files.
pub mod Sending
pub mod Upload
pub mod Receiving
pub mod Announced
pub mod Download
pub mod Overflow
mod Tests
use soc.Common.{
  ℕ, zero, suc, ◌+◌, ◌*◌, ◌-◌, List, [], ◌∷◌, ◌++◌, take, replicate, Option, none, some, Bool, true,
  false, not, ltb, ◌==◌, if◌then◌else◌,
}
use soc.Common.Effects.{Call, returns, exits, faults, ◌>>=◌, ◌>?>◌, ℤ, pos, negsuc}
use soc.Protocol.Control.{Frame}
use soc.Protocol.Data.{DataFrame, zero_data_frame, send_data_frame, send_data_frame_directly}
use soc.Protocol.Receive.{Waited, receive_data_frames}
use soc.Slave.State.{tp_status_unreceived, tp_status_processed}
use soc.Master.{Attempt, send_and_receive_frame, query_request, query_status}

-- What the system calls answer while the array is sent once: the rounds of the request, epoll_wait and
-- write for the k-th frame, and the rounds of the query after it.
pub record SendRound : Type 0 where
  pub request : List Attempt
  pub frame_ready : ℕ → Bool
  pub frame_written : ℕ → Option ℕ
  pub query : List Attempt

-- What the loop over the frames leaves: the bytes sent, the array, and `n_total_frame`.
pub record SentFrames : Type 0 where
  pub wire : List ℕ
  pub frames : List DataFrame
  pub n_total_frame : ℕ

abbrev pub sent_before : List ℕ → DataFrame → SentFrames → SentFrames
sent_before wire f rest = record rest { wire = wire ++ rest.wire; frames = f ∷ rest.frames }

-- The loop over `n` frames from the k-th on. What the two functions return is not looked at.
unfoldable pub send_frames : Bool → ℕ → ℕ → List DataFrame → SendRound → ℕ → Call SentFrames
send_frames binary zero k frames r n_total_frame =
    returns (record { wire = []; frames = frames; n_total_frame = n_total_frame })
send_frames binary (suc n) k [] r n_total_frame = faults
send_frames true (suc n) k (f ∷ frames) r n_total_frame =
    let sent = send_data_frame_directly (r.frame_ready k) f (r.frame_written k) in
    sent.1 >>= λ ret. send_frames true n (k + 1) frames r n_total_frame >>= λ rest.
    returns (sent_before sent.0 f rest)
send_frames false (suc n) k (f ∷ frames) r n_total_frame =
    let sent = send_data_frame (r.frame_ready k) n_total_frame f (r.frame_written k) in
    sent.result >>= λ ret. send_frames false n (k + 1) frames r sent.counter >>= λ rest.
    returns (sent_before sent.wire sent.frame rest)

-- The last answer of the slave, all bytes of data frames that were sent, and `n_total_frame`.
pub record SentPicture : Type 0 where
  pub input_frame : Frame
  pub wire : List ℕ
  pub n_total_frame : ℕ

abbrev pub more_wire : List ℕ → SentPicture → SentPicture
more_wire wire p = record p { wire = wire ++ p.wire }

-- The request to send data.
abbrev pub send_request : Frame → Frame
send_request output_frame = record output_frame { frame_type = 3 }

-- The `do … while` loop that sends the array until the slave has all of it; `none` if it is still going
-- on after all rounds.
unfoldable pub send_rounds :
    Bool → List SendRound → Frame → List DataFrame → ℕ → Call (Option SentPicture)
send_rounds binary [] output_frame frames n_total_frame = returns none
send_rounds binary (r ∷ rounds) output_frame frames n_total_frame =
    send_and_receive_frame r.request (send_request output_frame) >?> λ granted.
    (send_frames binary output_frame.n_frame 0 frames r n_total_frame >>= λ sent.
    query_status r.query (send_request output_frame) >?> λ answer.
    let again =
      send_rounds binary rounds (query_request (send_request output_frame)) sent.frames
        sent.n_total_frame in
    if answer.0.status == tp_status_unreceived
    then (again >?> λ p. returns (some (more_wire sent.wire p)))
    else returns (
        some (record {
          input_frame = answer.0;
          wire = sent.wire;
          n_total_frame = sent.n_total_frame;
        })))

-- A picture of the first loop once its frames are made; it is skipped if the slave has it.
unfoldable pub send_file :
    Bool → List Attempt → List SendRound → Frame → List DataFrame → ℕ → Call (Option SentPicture)
unfolding send_rounds
send_file binary first rounds output_frame frames n_total_frame =
    query_status first output_frame >?> λ answer.
    if not (answer.0.status == tp_status_unreceived)
    then returns
        (some (record { input_frame = answer.0; wire = []; n_total_frame = n_total_frame }))
    else send_rounds binary rounds (query_request output_frame) frames n_total_frame

-- `do query_status while (input_frame.status != TP_STATUS_PROCESSED)`: the answer.
unfoldable pub wait_processed : List (List Attempt) → Frame → Call (Option Frame)
wait_processed [] output_frame = returns none
wait_processed (attempts ∷ queries) output_frame =
    let again = wait_processed queries (query_request output_frame) in
    query_status attempts output_frame >?> λ answer.
    if answer.0.status == tp_status_processed then returns (some answer.0) else again

-- What the system calls answer while the bit stream is received once; tcflush is the last of them.
pub record RecvRound : Type 0 where
  pub request : List Attempt
  pub data_ready : Waited
  pub reads : ℕ → List ℕ
  pub flushed : Bool

-- The request to receive data.
abbrev pub recv_request : Frame → Frame
recv_request output_frame = record output_frame { frame_type = 7 }

-- The `do … while (sum > 0)` loop: the number of frames that the slave announced, and the array.
unfoldable pub recv_rounds :
    List RecvRound → Frame → List DataFrame → Call (Option (ℕ × List DataFrame))
recv_rounds [] output_frame frames = returns none
recv_rounds (r ∷ rounds) output_frame frames =
    send_and_receive_frame r.request (recv_request output_frame) >?> λ granted.
    receive_data_frames r.data_ready r.reads frames granted.0.n_frame >>= λ received.
    let again = recv_rounds rounds (recv_request output_frame) received.1 in
    if not r.flushed
    then exits
    else if ltb 0 received.0
    then again
    else returns (some (granted.0.n_frame, received.1))

-- The array for a bit stream has as many frames as the slave's answer to the query says.
unfoldable pub recv_file :
    List (List Attempt) → Bool → List RecvRound → Frame → Call (Option (ℕ × List DataFrame))
unfolding wait_processed recv_rounds
recv_file queries calloc rounds output_frame = wait_processed queries output_frame >?> λ answer.
    if calloc
    then recv_rounds rounds (query_request output_frame) (replicate answer.n_frame zero_data_frame)
    else exits

-- What mkdir_p, open, write for the i-th frame, and close answer in dump_data_frames.
pub record DumpAnswers : Type 0 where
  pub made : Bool
  pub opened : Bool
  pub written : ℕ → Option ℕ
  pub closed : Bool

-- `size += write(…)`, where a failed write adds -1.
abbrev pub add_written : ℤ → Option ℕ → ℤ
add_written (pos n) (some k) = pos (n + k)
add_written (pos zero) none = negsuc 0
add_written (pos (suc n)) none = pos n
add_written (negsuc n) none = negsuc (suc n)
add_written (negsuc n) (some k) = if ltb n k then pos (k - (n + 1)) else negsuc (n - k)

-- The bytes handed to write(2), and the sum. A `data_len` above 512 reads past the payload.
unfoldable pub dump_loop : ℕ → ℕ → List DataFrame → (ℕ → Option ℕ) → ℤ → Call (List ℕ × ℤ)
dump_loop zero i frames written size = returns ([], size)
dump_loop (suc n) i [] written size = faults
dump_loop (suc n) i (f ∷ frames) written size =
    let rest = dump_loop n (i + 1) frames written (add_written size (written i)) in
    if ltb 512 f.data_len
    then faults
    else rest >>= λ r. returns (take f.data_len f.payload ++ r.0, r.1)

unfoldable pub dump_data_frames : DumpAnswers → List DataFrame → ℕ → Call (List ℕ × ℤ)
unfolding dump_loop
dump_data_frames env frames n_frame =
    if not env.made
    then returns ([], negsuc 0)
    else if not env.opened
    then returns ([], negsuc 0)
    else dump_loop n_frame 0 frames env.written (pos 0) >>= λ r.
        returns (if env.closed then r else (r.0, negsuc 0))

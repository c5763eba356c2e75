-- ===== src/Master.antt =====
-- The master of project-spec/meta-user/recipes-apps/autostart/src/master.c: how it asks the slave and
-- waits for the answer.
pub mod Exchange
pub mod Query
pub mod Pictures
pub mod Files
pub mod Options
mod Tests
use soc.Common.{
  ℕ, List, [], ◌∷◌, Option, none, some, Bool, true, false, ◌||◌, not, ◌==◌, if◌then◌else◌,
}
use soc.Common.Effects.{Call, returns, ◌>>=◌, ℤ, is_positive}
use soc.Protocol.Control.{Frame, zero_frame, send_frame, receive_frame}

-- What the system calls answer to one round: epoll_wait and write for the request, epoll_wait and
-- read for the answer.
pub record Attempt : Type 0 where
  pub write_ready : Bool
  pub written : Option ℕ
  pub read_ready : Bool
  pub read : Option (List ℕ)

-- The condition under which a round is repeated.
unfoldable pub unanswered : ℤ → Frame → Frame → Bool
unanswered n input_frame output_frame =
    not (is_positive n)
    || not (input_frame.address == 1)
    || not (input_frame.frame_type == output_frame.frame_type)
    || not (input_frame.n_file == output_frame.n_file)

-- The answer and the rounds that are left; `none` if the loop is still going on after all of them.
-- The pause at the end of a round is left out.
unfoldable pub send_and_receive_frame : List Attempt → Frame → Call (Option (Frame × List Attempt))
unfolding unanswered
send_and_receive_frame [] output_frame = returns none
send_and_receive_frame (a ∷ attempts) output_frame =
    let rest = send_and_receive_frame attempts output_frame in
    (send_frame a.write_ready output_frame a.written).1 >>= λ sent.
    if is_positive sent
    then (receive_frame a.read_ready zero_frame a.read >>= λ r.
        if unanswered r.0 r.1 output_frame then rest else returns (some (r.1, attempts)))
    else rest

-- The request of query_status; `n_frame` is kept.
abbrev pub query_request : Frame → Frame
query_request output_frame = record output_frame { frame_type = 1; status = 0 }

unfoldable pub query_status : List Attempt → Frame → Call (Option (Frame × List Attempt))
query_status attempts output_frame = send_and_receive_frame attempts (query_request output_frame)

-- ===== src/Master/Query.antt =====
-- A query of the master, the slave that serves it, and the answer that the master takes.
use soc.Common.{
  ℕ, ◌≡◌, refl, ◌∙◌, List, ◌∷◌, ◌++◌, All, Option, some, Bool, true, ltb, ◌==◌, if◌then◌else◌,
  arith,
}
use soc.Common.Effects.{Call, returns}
use soc.Protocol.Control.{Frame, IsFrame, zero_frame, network_frame, write_frame}
use soc.Protocol.Control.RoundTrip.{receive-write, network_frame-IsFrame}
use soc.Master.{Attempt, send_and_receive_frame, query_request, query_status}
use soc.Master.Exchange.{
  IsAnswer, TimesOut, send_and_receive_frame-timeouts, send_and_receive_frame-answered,
}
use soc.Slave.State.{Slave, info, get_status}
use soc.Slave.Process.{Yuv}
use soc.Slave.Commands.{Answers, handle, wait_frame}
use soc.Slave.Invariant.{IsSlave}
use soc.Slave.Served.{query_reply, query_answered}

-- The request as it arrives.
abbrev pub arrived : Frame → Frame
arrived request = record request { check_sum = (network_frame request).check_sum }

pub arrived-IsFrame : (request : Frame) → IsFrame request → IsFrame (arrived request)
arrived-IsFrame request h = record {
  address = h.address;
  frame_type = h.frame_type;
  n_file = h.n_file;
  n_frame = h.n_frame;
  status = h.status;
  check_sum = (network_frame-IsFrame request h).check_sum;
}

pub query_request-IsFrame : (f : Frame) → IsFrame f → IsFrame (query_request f)
query_request-IsFrame f h = record {
  address = h.address;
  frame_type = omega arith;
  n_file = h.n_file;
  n_frame = h.n_frame;
  status = omega arith;
  check_sum = h.check_sum;
}

-- A round in which the slave's frame is read.
abbrev pub heard : List ℕ → Attempt
heard sent = record { write_ready = true; written = some 12; read_ready = true; read = some sent }

-- A reply of the slave that is read after any rounds that time out.
pub reply-heard :
    (lost later : List Attempt) (request reply : Frame)
    → IsFrame reply
    → IsAnswer request reply
    → All TimesOut lost
    → send_and_receive_frame (lost ++ (heard (write_frame reply (some 12)).0 ∷ later)) request
      ≡ returns (some (arrived reply, later))
reply-heard lost later request reply h answer timeouts =
    send_and_receive_frame-timeouts lost _ request timeouts
    ∙ send_and_receive_frame-answered _ later request (arrived reply) _ refl
        (receive-write reply zero_frame h) answer

wait_frame-arrived :
    (request : Frame) (answers : List (Bool × Option (List ℕ)))
    → IsFrame request
    → request.address ≡ 0
    → wait_frame ((true, some (write_frame request (some 12)).0) ∷ answers)
      ≡ returns (some (arrived request, answers))
unfolding wait_frame
wait_frame-arrived request answers h a =
    let master : (request.address == 0) ≡ true = ground arith in
    rw (receive-write request zero_frame h, master) refl

module _ (encode : Yuv → Call (List ℕ)) (dry_run : Bool) where
  -- The master's frame fits its types and has address 0, and the slave is in a state that satisfies
  -- the invariant and can write its reply. Then the slave's loop takes the master's query as a command,
  -- and serves it without a change to anything but its output frame; and if the master, after any
  -- number of rounds that time out, reads what the slave wrote, query_status ends with the slave's
  -- status for the picture, and with the number of frames that the slave has of it.
  pub query_status-handle :
      (env : Answers) (out : Frame) (s : Slave) (answers : List (Bool × Option (List ℕ)))
      → IsFrame out
      → out.address ≡ 0
      → IsSlave s
      → env.reply_ready ≡ true
      → env.reply_written ≡ some 12
      → (wait_frame ((true, some (write_frame (query_request out) (some 12)).0) ∷ answers)
          ≡ returns (some (arrived (query_request out), answers)))
        × ((sent : List ℕ) × (g : Frame) × (handle encode dry_run env
                (arrived (query_request out))
                s
              ≡ returns
                  (sent, record s { output_frame = query_reply (arrived (query_request out)) s }))
            × ((lost later : List Attempt)
                → All TimesOut lost
                → query_status
                    (lost
                      ++ (record {
                        write_ready = true;
                        written = some 12;
                        read_ready = true;
                        read = some sent;
                      }
                          ∷ later))
                    out
                  ≡ returns (some (g, later)))
            × (g.status ≡ get_status s out.n_file)
            × (g.n_frame ≡ (if ltb out.n_file 8 then (info s out.n_file).len else 0)))
  unfolding query_status
  query_status-handle env out s answers h a hs ready written =
      let fits = query_request-IsFrame out h in
      let (sent, g, served, read, address, frame_type, n_file, status, n_frame) =
        query_answered encode dry_run env (arrived (query_request out)) zero_frame s
          (arrived-IsFrame (query_request out) fits) hs refl ready written in
      (
        wait_frame-arrived (query_request out) answers fits a,
        (
          sent,
          g,
          served,
          λ lost later timeouts.
              send_and_receive_frame-timeouts lost _ (query_request out) timeouts
              ∙ send_and_receive_frame-answered _ later (query_request out) g sent refl read
                  (address, frame_type, n_file),
          status,
          n_frame,
        ),
      )

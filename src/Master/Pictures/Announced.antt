-- ===== src/Master/Pictures/Announced.antt =====
-- The slave's answers to a query and to a request to receive, and what the master reads of them.
use soc.Common.{
  ℕ, ◌*◌, ◌≤◌, ◌<◌, ◌≡◌, refl, sym, ap, ◌∙◌, List, [], ◌∷◌, ◌++◌, map, concat, length, All, some,
  Bool, true, ltb, lt→ltb, lt→leb, if◌then◌else◌, arith,
}
use soc.Common.Effects.{Call, returns}
use soc.Protocol.Control.{Frame, IsFrame, write_frame}
use soc.Protocol.Data.{DataFrame}
use soc.Protocol.Receive.Transfer.{wire, Sendable}
use soc.Protocol.Slices.{frames_needed}
use soc.Protocol.Slices.Alloc.{IsMemory}
use soc.Protocol.Slices.Carries.{Carries}
use soc.Slave.State.{Slave, stream, info, get_status}
use soc.Slave.Process.{Yuv}
use soc.Slave.Commands.{Answers, handle}
use soc.Slave.Invariant.{IsSlave, with_output, reply-IsFrame}
use soc.Slave.Served.{query_reply}
use soc.Slave.Download.{Writes, recv_reply, frames_needed-lt, download}
use soc.Master.{Attempt, send_and_receive_frame, query_request, query_status}
use soc.Master.Exchange.{TimesOut}
use soc.Master.Query.{
  arrived, arrived-IsFrame, query_request-IsFrame, heard, reply-heard, query_status-handle,
}
use soc.Master.Pictures.{recv_request}
use soc.Master.Pictures.Sending.{Replies, query_reply-IsFrame}

-- The bit stream that the slave has of a picture: 1 to 65535 * 512 bytes.
pub record HasStream (s : Slave) (n_file : ℕ) (bytes : List ℕ) : Type 0 where
  pub small : n_file < 8
  pub stored : stream s n_file ≡ record { addr = some bytes; len = length bytes }
  pub some_bytes : 0 < length bytes
  pub fits : length bytes ≤ 65535 * 512
  pub bytes_fit : All (λ x. x < 256) bytes

-- The master's request to receive, as it arrives.
abbrev pub recv_command : Frame → Frame
recv_command out = arrived (recv_request (query_request out))

get_status-loaded :
    (s : Slave) (n : ℕ) (bytes : List ℕ) → HasStream s n bytes → get_status s n ≡ 0x5555
unfolding get_status
get_status-loaded s n bytes b =
    let some_len : ltb 0 (stream s n).len ≡ true =
      rw b.stored (lt→ltb 0 (length bytes) b.some_bytes) in
    rw (lt→leb 8 n b.small, some_len) refl

recv_request-IsFrame : (out : Frame) → IsFrame out → IsFrame (recv_request (query_request out))
recv_request-IsFrame out h = record {
  address = h.address;
  frame_type = omega arith;
  n_file = h.n_file;
  n_frame = h.n_frame;
  status = omega arith;
  check_sum = h.check_sum;
}

recv_reply-IsFrame :
    (f : Frame) (len : ℕ) (s : Slave)
    → IsFrame f
    → len ≤ 65535 * 512
    → IsSlave s
    → IsFrame (recv_reply f (frames_needed len) s)
recv_reply-IsFrame f len s hf le h =
    reply-IsFrame s.output_frame f.frame_type f.n_file (frames_needed len) s.output_frame.status
      h.output_frame hf.frame_type hf.n_file (omega (arith, frames_needed-lt len le))
      h.output_frame.status

-- The numbers that the master gets for `bytes` on the slave, and the frames on their way.
pub record Announced (out : Frame) (s : Slave) (bytes q r : List ℕ) (fs : List DataFrame)
    : Type 0 where
  pub answer : Frame
  pub granted : Frame
  pub queried :
      (lost later : List Attempt)
      → All TimesOut lost
      → query_status (lost ++ (heard q ∷ later)) out ≡ returns (some (answer, later))
  pub requested :
      (lost later : List Attempt)
      → All TimesOut lost
      → send_and_receive_frame (lost ++ (heard r ∷ later)) (recv_request (query_request out))
        ≡ returns (some (granted, later))
  pub processed : answer.status ≡ 0x5555
  pub held : answer.n_frame ≡ (info s out.n_file).len
  pub n_frame : granted.n_frame ≡ length fs
  pub count : length fs ≡ frames_needed (length bytes)
  pub sendable : All Sendable fs
  pub carries : Carries fs bytes

module _ (encode : Yuv → Call (List ℕ)) (dry_run : Bool) where
  pub announced :
      (query_env recv_env : Answers) (out : Frame) (memory : List DataFrame) (bytes : List ℕ)
      (s : Slave)
      → IsFrame out
      → out.address ≡ 0
      → IsSlave s
      → HasStream s out.n_file bytes
      → length memory ≡ frames_needed (length bytes)
      → IsMemory memory
      → Replies query_env
      → Writes recv_env memory
      → (q r : List ℕ) × (fs : List DataFrame) × (s1 s2 : Slave) × (handle encode dry_run query_env
            (arrived (query_request out))
            s
          ≡ returns (q, s1))
        × (handle encode dry_run recv_env (recv_command out) s1
            ≡ returns (r ++ concat (map wire fs), s2))
        × Announced out s bytes q r fs
  announced query_env recv_env out memory bytes s ho a h b size mem rq w =
      let (_, (q, g, served, first_heard, status, count)) =
        query_status-handle encode dry_run query_env out s [] ho a h rq.ready rq.written in
      let s1 : Slave = record s { output_frame = query_reply (arrived (query_request out)) s } in
      let h1 : IsSlave s1 =
        with_output s _ h
          (query_reply-IsFrame (arrived (query_request out)) s
            (arrived-IsFrame (query_request out) (query_request-IsFrame out ho)) h)
          h.address in
      let (fs, c, sent, ss, ca, long) =
        download encode dry_run recv_env (recv_command out) memory bytes s1 refl b.small b.stored
          b.some_bytes b.fits b.bytes_fit h.n_total_frame size mem w in
      let reply = recv_reply (recv_command out) (frames_needed (length bytes)) s1 in
      (
        q,
        (write_frame reply (some 12)).0,
        fs,
        s1,
        _,
        served,
        sent,
        record {
          answer = g;
          granted = arrived reply;
          queried = first_heard;
          requested = λ lost later timeouts.
              reply-heard lost later (recv_request (query_request out)) reply
                (recv_reply-IsFrame (recv_command out) (length bytes) s1
                  (arrived-IsFrame (recv_request (query_request out)) (recv_request-IsFrame out ho))
                  b.fits h1)
                (h.address, refl, refl) timeouts;
          processed = status ∙ get_status-loaded s out.n_file bytes b;
          held =
              count
              ∙ ap (λ b. if b then (info s out.n_file).len else 0) (lt→ltb out.n_file 8 b.small);
          n_frame = sym long;
          count = long;
          sendable = ss;
          carries = ca;
        },
      )

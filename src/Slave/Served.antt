-- ===== src/Slave/Served.antt =====
-- The invariant of the slave over whole commands and over runs of its loop, and the answers to QUERY.
use soc.Common.{
  ℕ, zero, suc, ◌+◌, ◌%◌, ◌<◌, ◌≡◌, refl, List, [], ◌∷◌, replicate, Option, none, some, Bool, true,
  false, ltb, leb, ◌==◌, if◌then◌else◌, arith, All,
}
use soc.Common.Effects.{
  Call, returns, is_true, pos, Ends, on_return, on_fault, Ends-bind, Ends-then, Ends-if, Ends-value,
}
use soc.Protocol.Control.{Frame, IsFrame, send_frame, write_frame, network_frame, receive_frame}
use soc.Protocol.Control.RoundTrip.{receive-write, send_frame-written}
use soc.Protocol.Data.{DataFrame, send_data_frame}
use soc.Protocol.Slices.{frames_needed, alloc_data_frames}
use soc.Slave.State.{BitStream, Slave, info, get_status, initial, no_info}
use soc.Slave.Process.{Yuv}
use soc.Slave.Commands.{
  Answers, source_of, send_data_frames, query, bit_stream, send_picture, recv, handle, serves,
  Reachable, start, next,
}
use soc.Slave.Invariant.{
  IsInfo, IsSlave, with_output, reply-IsFrame, query-IsSlave, send-IsSlave, query_frames-lt,
  get_status-lt,
}

counter-lt :
    (ready : Bool) (c : ℕ) (f : DataFrame) (w : Option ℕ)
    → c < 16777216
    → (send_data_frame ready c f w).counter < 16777216
unfolding send_data_frame
counter-lt true c f w h = omega arith
counter-lt false c f w h = h

send_data_frames-counter :
    (n k : ℕ) (frames : List DataFrame) (env : Answers) (c : ℕ)
    → c < 16777216
    → Ends (λ (r : List ℕ × ℕ). r.1 < 16777216) (send_data_frames n k frames env c)
unfolding send_data_frames
send_data_frames-counter zero k frames env c h = on_return _ h
send_data_frames-counter (suc n) k [] env c h = on_fault
send_data_frames-counter (suc n) k (f ∷ frames) env c h =
    Ends-bind (send_data_frame (env.frame_ready k) c f (env.frame_written k)).result _ λ ret.
      Ends-then _ _
        (send_data_frames-counter n (k + 1) frames env _
          (counter-lt (env.frame_ready k) c f (env.frame_written k) h))
        λ (r : List ℕ × ℕ) small. on_return _ small

send_picture-IsSlave :
    (env : Answers) (reply : Frame) (frames : List DataFrame) (s : Slave)
    → IsFrame reply
    → reply.address ≡ 1
    → IsSlave s
    → Ends (λ (r : List ℕ × Slave). IsSlave r.1) (send_picture env reply frames s)
unfolding send_picture
send_picture-IsSlave env reply frames s hr a h =
    Ends-bind (send_frame env.reply_ready reply env.reply_written).1 _ λ ret.
      Ends-if (is_true ret)
        (Ends-then (send_data_frames reply.n_frame 0 frames env s.n_total_frame) _
          (send_data_frames-counter reply.n_frame 0 frames env s.n_total_frame h.n_total_frame)
          λ (r : List ℕ × ℕ) small. on_return _ (record {
            bit_streams = h.bit_streams;
            data_frame_infos = h.data_frame_infos;
            infos = h.infos;
            output_frame = hr;
            address = a;
            n_total_frame = small;
          }))
        (on_return _ (with_output s reply h hr a))

recv-IsSlave :
    (env : Answers) (f : Frame) (s : Slave)
    → IsFrame f
    → IsSlave s
    → Ends (λ (r : List ℕ × Slave). IsSlave r.1) (recv env f s)
unfolding recv
recv-IsSlave env f s hf h = Ends-if (leb 8 f.n_file) (on_return ([], s) h) (
    Ends-bind (bit_stream s f.n_file) _ λ b. Ends-if (b.len == 0) (on_return ([], s) h) (
      Ends-bind
        (alloc_data_frames env.frames (reply b).n_frame (reply b).n_file (source_of env b) 0xaa
          (b.len % 4294967296))
        _ (made b)))
  where
    reply : BitStream → Frame
    reply b = record s.output_frame {
      frame_type = f.frame_type;
      n_file = f.n_file;
      n_frame = frames_needed b.len % 65536;
    }

    reply-Fits : (b : BitStream) → IsFrame (reply b)
    reply-Fits b =
        reply-IsFrame s.output_frame f.frame_type f.n_file _ s.output_frame.status h.output_frame
          hf.frame_type hf.n_file (omega arith) h.output_frame.status

    made :
        (b : BitStream) (o : Option (List DataFrame))
        → Ends
            (λ (r : List ℕ × Slave). IsSlave r.1)
            (elim o [
              | none ↦ returns ([], record s { output_frame = reply b })
              | some frames ↦ send_picture env (reply b) frames s
            ])
    made b none = on_return _ (with_output s (reply b) h (reply-Fits b) h.address)
    made b (some frames) = send_picture-IsSlave env (reply b) frames s (reply-Fits b) h.address h

replicate-IsInfo : (n : ℕ) → All IsInfo (replicate n no_info)
replicate-IsInfo zero = tt
replicate-IsInfo (suc n) = ((omega arith, omega arith), replicate-IsInfo n)

initial-IsSlave : IsSlave initial
initial-IsSlave = record {
  bit_streams = refl;
  data_frame_infos = refl;
  infos = replicate-IsInfo 8;
  output_frame = record {
    address = omega arith;
    frame_type = omega arith;
    n_file = omega arith;
    n_frame = omega arith;
    status = omega arith;
    check_sum = omega arith;
  };
  address = refl;
  n_total_frame = omega arith;
}

module _ (encode : Yuv → Call (List ℕ)) (dry_run : Bool) where
  pub handle-IsSlave :
      (env : Answers) (f : Frame) (s : Slave)
      → IsFrame f
      → IsSlave s
      → Ends (λ (r : List ℕ × Slave). IsSlave r.1) (handle encode dry_run env f s)
  unfolding handle
  handle-IsSlave env f s hf h = Ends-if (f.frame_type == 1) (query-IsSlave env f s hf h) (
      Ends-if (f.frame_type == 3) (send-IsSlave encode dry_run env f s hf h)
        (Ends-if (f.frame_type == 7) (recv-IsSlave env f s hf h) (on_return ([], s) h)))

  pub Reachable-IsSlave : (s : Slave) → Reachable encode dry_run s → IsSlave s
  Reachable-IsSlave s start = initial-IsSlave
  Reachable-IsSlave s (next {s = before} sent r (serves env f hf _ e)) =
      Ends-value (λ (r : List ℕ × Slave). IsSlave r.1) (sent, s)
        (handle-IsSlave env f before hf (Reachable-IsSlave before r)) e

-- The reply to a QUERY for a number that no picture has.
abbrev pub unknown_reply : Frame → Slave → Frame
unknown_reply f s = record s.output_frame {
  frame_type = f.frame_type;
  n_file = f.n_file;
  status = 0xaaaa;
  n_frame = 0;
}

-- The reply to QUERY.
abbrev pub query_reply : Frame → Slave → Frame
query_reply f s = record s.output_frame {
  frame_type = f.frame_type;
  n_file = f.n_file;
  status = get_status s f.n_file;
  n_frame = if ltb f.n_file 8 then (info s f.n_file).len else 0;
}

module _ (encode : Yuv → Call (List ℕ)) (dry_run : Bool) where
  -- A slave in a state that satisfies the invariant and that gets a QUERY command, when its reply can
  -- be written, changes nothing but its output frame, and what it writes is for receive_frame a frame
  -- of the slave with the command's type, the picture's number, its status, and the frames it has of it, or 0 from number
  -- 8 on.
  pub query_answered :
      (env : Answers) (f old : Frame) (s : Slave)
      → IsFrame f
      → IsSlave s
      → f.frame_type ≡ 1
      → env.reply_ready ≡ true
      → env.reply_written ≡ some 12
      → (sent : List ℕ) × (g : Frame) × (handle encode dry_run env f s
          ≡ returns (sent, record s { output_frame = query_reply f s }))
        × (receive_frame true old (some sent) ≡ returns (pos 12, g))
        × (g.address ≡ 1)
        × (g.frame_type ≡ f.frame_type)
        × (g.n_file ≡ f.n_file)
        × (g.status ≡ get_status s f.n_file)
        × (g.n_frame ≡ (if ltb f.n_file 8 then (info s f.n_file).len else 0))
  unfolding handle query
  query_answered env f old s hf h t ready written =
      let is_query : (f.frame_type == 1) ≡ true = ground arith in
      let reply-Fits : IsFrame (query_reply f s) =
        reply-IsFrame s.output_frame f.frame_type f.n_file _ (get_status s f.n_file) h.output_frame
          hf.frame_type hf.n_file (query_frames-lt s f.n_file h) (get_status-lt s f.n_file) in
      let replied : send_frame env.reply_ready (query_reply f s) env.reply_written
          ≡ ((write_frame (query_reply f s) (some 12)).0, returns (pos 12)) =
        rw (ready, written) (send_frame-written (query_reply f s)) in
      (
        (write_frame (query_reply f s) (some 12)).0,
        record (query_reply f s) { check_sum = (network_frame (query_reply f s)).check_sum },
        rw (is_query, replied) refl,
        receive-write (query_reply f s) old reply-Fits,
        h.address,
        refl,
        refl,
        refl,
        refl,
      )

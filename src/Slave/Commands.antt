-- ===== src/Slave/Commands.antt =====
-- The loop of main in main.c: the frames it waits for, and what it does for each type of frame.
-- What the system calls answer while a frame is served is an argument of the step.
use soc.Common.{
  ℕ, zero, suc, ◌+◌, ◌-◌, ◌%◌, List, [], ◌∷◌, ◌++◌, set, replicate, Option, none, some, Bool, ◌&&◌,
  ltb, leb, ◌==◌, ◌≡◌, if◌then◌else◌,
}
use soc.Common.Effects.{Call, returns, exits, faults, ◌>>=◌, is_positive, is_true}
use soc.Protocol.Control.{Frame, IsFrame, zero_frame, send_frame, receive_frame}
use soc.Protocol.Data.{DataFrame, zero_data_frame, send_data_frame}
use soc.Protocol.Receive.{Waited, receive_data_frames}
use soc.Protocol.Slices.{Source, at_addr, from_fd, frames_needed, alloc_data_frames}
use soc.Slave.State.{
  BitStream, DataFrameInfo, Slave, pictures_number_max, tp_address_master, tp_status_processed,
  stream, info, get_status, initial,
}
use soc.Slave.Process.{Allocations, Yuv, process_data_frames_dry_run}

-- The answers of the system calls to one command: send_frame for the reply; calloc, epoll_wait and
-- read for data frames that come in, and malloc while they are processed; malloc and the
-- descriptor's reads in alloc_data_frames, and send_data_frame for the k-th frame that goes out.
pub record Answers : Type 0 where
  pub reply_ready : Bool
  pub reply_written : Option ℕ
  pub calloc : Bool
  pub data_ready : Waited
  pub reads : ℕ → List ℕ
  pub memory : Allocations
  pub frames : Option (List DataFrame)
  pub fd_reads : List (Option (List ℕ))
  pub frame_ready : ℕ → Bool
  pub frame_written : ℕ → Option ℕ

-- The `do … while` loop that waits for a frame of the master, on what epoll_wait and read answer
-- in turn: the frame and the answers left, or `none` if the answers end first.
unfoldable pub wait_frame :
    List (Bool × Option (List ℕ)) → Call (Option (Frame × List (Bool × Option (List ℕ))))
wait_frame [] = returns none
wait_frame ((ready, bytes) ∷ answers) = do
  (n, input_frame) ← receive_frame ready zero_frame bytes
  if is_positive n && input_frame.address == tp_address_master
      then returns (some (input_frame, answers))
      else wait_frame answers

-- `case TP_FRAME_TYPE_QUERY`: the bytes sent, and the state.
unfoldable pub query : Answers → Frame → Slave → Call (List ℕ × Slave)
query env input_frame s =
    let reply : Frame = record s.output_frame {
      frame_type = input_frame.frame_type;
      n_file = input_frame.n_file;
      status = get_status s input_frame.n_file;
      n_frame =
          if ltb input_frame.n_file pictures_number_max then (info s input_frame.n_file).len else 0;
    } in
    let sent = send_frame env.reply_ready reply env.reply_written in
    sent.1 >>= λ n. returns (sent.0, record s { output_frame = reply })

-- `data_frame_infos[n_file].addr` once it is freed if the picture was processed, and allocated if it
-- is NULL. The array has eight elements.
unfoldable pub prepare_addr : Answers → Frame → Slave → Call (List DataFrame)
prepare_addr env input_frame s =
    if leb pictures_number_max input_frame.n_file
    then faults
    else elim (if get_status s input_frame.n_file == tp_status_processed
        then none
        else (info s input_frame.n_file).addr) [
          | some frames ↦ returns frames
          | none ↦
              if env.calloc then returns (replicate input_frame.n_frame zero_data_frame) else exits
        ]

-- `data_frame_infos[n_file]` once the frames are read; `len` is an `n_frame_t`.
abbrev pub info_after : Frame → ℕ → List DataFrame → DataFrameInfo
info_after input_frame sum frames = record {
  addr = some frames;
  len = (input_frame.n_frame + 65536 - sum) % 65536;
  total_len = input_frame.n_frame;
}

module _ (encode : Yuv → Call (List ℕ)) (dry_run : Bool) where
  -- `if (sum == 0)`: the state with the new bit stream.
  unfoldable pub process_if_complete : Answers → Frame → ℕ → List DataFrame → Slave → Call Slave
  process_if_complete env input_frame sum frames s =
      if sum == 0
      then (process_data_frames_dry_run encode dry_run env.memory frames input_frame.n_frame
            (stream s input_frame.n_file).addr
          >>= λ r. returns (record s {
            bit_streams = set s.bit_streams input_frame.n_file (record { addr = r.1; len = r.0 });
          }))
      else returns s

  -- `case TP_FRAME_TYPE_SEND` after the reply is sent.
  unfoldable pub receive_picture : Answers → Frame → Slave → Call Slave
  unfolding prepare_addr process_if_complete
  receive_picture env input_frame s = do
    addr ← prepare_addr env input_frame s
    (sum, frames) ← receive_data_frames env.data_ready env.reads addr input_frame.n_frame
    process_if_complete env input_frame sum frames (record s {
      data_frame_infos =
          set s.data_frame_infos input_frame.n_file (info_after input_frame sum frames);
    })

  -- `case TP_FRAME_TYPE_SEND`
  unfoldable pub send : Answers → Frame → Slave → Call (List ℕ × Slave)
  unfolding receive_picture
  send env input_frame s =
      if leb pictures_number_max input_frame.n_file
      then returns ([], s)
      else (let reply : Frame = record s.output_frame {
        frame_type = input_frame.frame_type;
        n_file = input_frame.n_file;
        n_frame = input_frame.n_frame;
      } in
          let sent = send_frame env.reply_ready reply env.reply_written in
          sent.1 >>= λ ret.
          if is_positive ret
          then (receive_picture env input_frame (record s { output_frame = reply }) >>= λ s'.
              returns (sent.0, s'))
          else returns (sent.0, record s { output_frame = reply }))

-- The loop that sends `n` frames from the k-th on: the bytes sent, and `n_total_frame`.
unfoldable pub send_data_frames : ℕ → ℕ → List DataFrame → Answers → ℕ → Call (List ℕ × ℕ)
send_data_frames zero k frames env n_total_frame = returns ([], n_total_frame)
send_data_frames (suc n) k [] env n_total_frame = faults
send_data_frames (suc n) k (f ∷ frames) env n_total_frame =
    let sent = send_data_frame (env.frame_ready k) n_total_frame f (env.frame_written k) in
    sent.result >>= λ ret.
    send_data_frames n (k + 1) frames env sent.counter >>= λ r. returns (sent.wire ++ r.0, r.1)

-- Where alloc_data_frames finds the bit stream: with a NULL address `len` is a descriptor.
abbrev pub source_of : Answers → BitStream → Source
source_of env b = elim b.addr [ none ↦ from_fd env.fd_reads | some bytes ↦ at_addr bytes b.len ]

-- `case TP_FRAME_TYPE_RECV` once the frames are made. A reply that was not sent (-1) counts as sent.
unfoldable pub send_picture : Answers → Frame → List DataFrame → Slave → Call (List ℕ × Slave)
unfolding send_data_frames
send_picture env reply output_data_frames s =
    let sent = send_frame env.reply_ready reply env.reply_written in
    sent.1 >>= λ ret.
    if is_true ret
    then (send_data_frames reply.n_frame 0 output_data_frames env s.n_total_frame >>= λ r.
        returns (sent.0 ++ r.0, record s { output_frame = reply; n_total_frame = r.1 }))
    else returns (sent.0, record s { output_frame = reply })

-- `bit_streams[n_file]` of the array of eight elements.
unfoldable pub bit_stream : Slave → ℕ → Call BitStream
bit_stream s n_file = if leb pictures_number_max n_file then faults else returns (stream s n_file)

-- `case TP_FRAME_TYPE_RECV`
unfoldable pub recv : Answers → Frame → Slave → Call (List ℕ × Slave)
unfolding send_picture bit_stream
recv env input_frame s =
    if leb pictures_number_max input_frame.n_file
    then returns ([], s)
    else bit_stream s input_frame.n_file >>= λ b.
        if b.len == 0
        then returns ([], s)
        else (let reply : Frame = record s.output_frame {
          frame_type = input_frame.frame_type;
          n_file = input_frame.n_file;
          n_frame = frames_needed b.len % 65536;
        } in
            alloc_data_frames env.frames reply.n_frame reply.n_file (source_of env b) 0xaa
              (b.len % 4294967296)
            >>= λ o. elim o [
              | none ↦ returns ([], record s { output_frame = reply })
              | some output_data_frames ↦ send_picture env reply output_data_frames s
            ])

module _ (encode : Yuv → Call (List ℕ)) (dry_run : Bool) where
  -- The switch on `frame_type`.
  unfoldable pub handle : Answers → Frame → Slave → Call (List ℕ × Slave)
  unfolding query send recv
  handle env input_frame s =
      if input_frame.frame_type == 1
      then query env input_frame s
      else if input_frame.frame_type == 3
      then send encode dry_run env input_frame s
      else if input_frame.frame_type == 7
      then recv env input_frame s
      else returns ([], s)

  -- A command of the master that the slave serves to its end.
  pub data Serves (s : Slave) (sent : List ℕ) (s' : Slave) : Type 0 where
    serves :
        (env : Answers) (input_frame : Frame)
        → IsFrame input_frame
        → input_frame.address ≡ tp_address_master
        → handle env input_frame s ≡ returns (sent, s')
        → Serves s sent s'

  -- The states that the loop of main can come to.
  pub data Reachable : Slave → Type 0 where
    start : Reachable initial
    next : {s s' : Slave} (sent : List ℕ) → Reachable s → Serves s sent s' → Reachable s'

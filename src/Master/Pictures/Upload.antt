-- ===== src/Master/Pictures/Upload.antt =====
-- A picture from the master's frames to the slave's bit stream.
use soc.Common.{
  ℕ, ◌+◌, ◌%◌, ◌<◌, ◌≡◌, refl, sym, ap, ◌∙◌, List, [], ◌∷◌, ◌++◌, map, concat, length, replicate,
  All, none, some, true, false,
}
use soc.Common.Effects.{Call, returns, Ends-value}
use soc.Protocol.Control.{Frame, IsFrame, write_frame}
use soc.Protocol.Data.{DataFrame, zero_data_frame}
use soc.Protocol.Receive.Reading.{Nonempty}
use soc.Protocol.Receive.Transfer.{wire, Sendable}
use soc.Protocol.Slices.Carries.{Carries, Carries-numbered, numbered, length-numbered}
use soc.Slave.State.{Slave, stream, info, get_status}
use soc.Slave.Process.{Yuv}
use soc.Slave.Commands.{Answers, prepare_addr, handle}
use soc.Slave.Invariant.{IsSlave, with_output}
use soc.Slave.Served.{handle-IsSlave, query_reply}
use soc.Slave.Upload.{Delivers, uploaded, send_reply, prepare_addr-fresh, upload}
use soc.Slave.Download.{numbered-Sendable}
use soc.Master.{Attempt, query_request}
use soc.Master.Exchange.{TimesOut}
use soc.Master.Query.{
  arrived, arrived-IsFrame, query_request-IsFrame, heard, reply-heard, query_status-handle,
}
use soc.Master.Pictures.{SendRound, send_request, send_frames, send_file}
use soc.Master.Pictures.Sending.{
  Replies, send_frames-numbered, Pending-fresh, send_file-once, send_command, send_request-IsFrame,
  send_command-IsFrame, heard_round, query_reply-IsFrame, send_reply-IsFrame, stream-uploaded,
  info-uploaded,
}

module _ (encode : Yuv → Call (List ℕ)) where
  -- The request to send for a picture that the slave has nothing of.
  granted :
      (env : Answers) (out : Frame) (fs : List DataFrame) (d p : List ℕ) (ps : List (List ℕ))
      (c : ℕ) (s : Slave)
      → out.n_file < 8
      → out.n_frame ≡ length fs
      → IsSlave s
      → (info s out.n_file).addr ≡ none
      → c < 16777216
      → All Sendable fs
      → Carries fs d
      → 0 < length d
      → env.calloc ≡ true
      → Delivers env (p ∷ ps)
      → All Nonempty (p ∷ ps)
      → concat (p ∷ ps) ≡ concat (map wire (numbered c fs))
      → (handle encode true env (send_command out) s
          ≡ returns (
            (write_frame (send_reply (send_command out) s) (some 12)).0,
            uploaded
                (send_command out)
                (numbered c fs)
                d
                (record s { output_frame = send_reply (send_command out) s }),
          ))
        × (get_status
              (uploaded
                (send_command out)
                (numbered c fs)
                d
                (record s { output_frame = send_reply (send_command out) s }))
              out.n_file
            ≡ 0x5555)
  granted env out fs d p ps c s small n h fresh ct ss ca more calloc dl ne e =
      let slots : prepare_addr env (send_command out) s
          ≡ returns (replicate (length (numbered c fs)) zero_data_frame) =
        prepare_addr-fresh env (send_command out) s small fresh calloc
        ∙ ap (λ k. returns (replicate k zero_data_frame)) (n ∙ sym (length-numbered c fs)) in
      upload encode env (send_command out) (numbered c fs)
        (replicate (length (numbered c fs)) zero_data_frame) d p ps s refl small
        (n ∙ sym (length-numbered c fs)) h.bit_streams slots (numbered-Sendable c fs ct ss)
        (Pending-fresh (numbered c fs)) ne e (Carries-numbered c fs d ca) more dl

  -- A picture below 8 that the slave, in a state that satisfies the invariant and in a dry run, has
  -- nothing of, and that the master, whose request fits its types and has address 0 and whose counter
  -- has 24 bits, sends (not in binary mode, with every write whole) in frames that fit their types,
  -- have the protocol's header and carry data `d`, not empty: if the slave's system calls go well and the bytes that the master writes for its frames arrive in any non-empty
  -- pieces, then the slave serves the master's query, its request to send and its second query, and
  -- has `d` as the picture's bit stream and has counted its frames; and if the master reads the slave's answers, each after any
  -- number of rounds that time out, then one round of sending is enough: the master has written each
  -- frame once, numbered from its counter on, and its last answer has the status `processed`.
  pub send_file-upload :
      (query_env send_env last_env : Answers) (out : Frame) (fs : List DataFrame) (d p : List ℕ)
      (ps : List (List ℕ)) (c : ℕ) (s : Slave)
      → IsFrame out
      → out.address ≡ 0
      → out.n_file < 8
      → out.n_frame ≡ length fs
      → IsSlave s
      → get_status s out.n_file ≡ 0xaaaa
      → (info s out.n_file).addr ≡ none
      → c < 16777216
      → All Sendable fs
      → Carries fs d
      → 0 < length d
      → Replies query_env
      → send_env.calloc ≡ true
      → Delivers send_env (p ∷ ps)
      → All Nonempty (p ∷ ps)
      → concat (p ∷ ps) ≡ concat (map wire (numbered c fs))
      → Replies last_env
      → (q r l : List ℕ) × (s1 s2 s3 : Slave) × (last : Frame) × (handle encode true query_env
            (arrived (query_request out))
            s
          ≡ returns (q, s1))
        × (handle encode true send_env (send_command out) s1 ≡ returns (r, s2))
        × (handle encode true last_env (arrived (query_request out)) s2 ≡ returns (l, s3))
        × (stream s3 out.n_file ≡ record { addr = some d; len = length d })
        × ((info s3 out.n_file).len ≡ length fs)
        × ((lost lost' lost'' later later' later'' : List Attempt) (rounds : List SendRound)
            → All TimesOut lost
            → All TimesOut lost'
            → All TimesOut lost''
            → send_file false
                (lost ++ (heard q ∷ later))
                (heard_round lost' r later' lost'' l later'' ∷ rounds)
                out
                fs
                c
              ≡ returns (
                  some (record {
                    input_frame = last;
                    wire = concat (map wire (numbered c fs));
                    n_total_frame = (c + length fs) % 16777216;
                  })))
        × (last.status ≡ 0x5555)
  send_file-upload query_env send_env last_env out fs d p ps c s ho a small n h new fresh ct ss ca
        more rq calloc dl ne e rl =
      let (_, (q, g, served, first_heard, status, _)) =
        query_status-handle encode true query_env out s [] ho a h rq.ready rq.written in
      let s1 : Slave = record s { output_frame = query_reply (arrived (query_request out)) s } in
      let h1 : IsSlave s1 =
        with_output s _ h
          (query_reply-IsFrame (arrived (query_request out)) s
            (arrived-IsFrame (query_request out) (query_request-IsFrame out ho)) h)
          h.address in
      let r : List ℕ = (write_frame (send_reply (send_command out) s1) (some 12)).0 in
      let (stored, processed) =
        granted send_env out fs d p ps c s1 small n h1 fresh ct ss ca more calloc dl ne e in
      let s2 : Slave =
        uploaded (send_command out) (numbered c fs) d
          (record s1 { output_frame = send_reply (send_command out) s1 }) in
      let h2 : IsSlave s2 =
        Ends-value (λ (r : List ℕ × Slave). IsSlave r.1) (_, s2)
          (handle-IsSlave encode true send_env (send_command out) s1 (send_command-IsFrame out ho)
            h1)
          stored in
      let (_, (l, last, served', last_heard, status', _)) =
        query_status-handle encode true last_env (send_request (query_request out)) s2 []
          (send_request-IsFrame out ho) a h2 rl.ready rl.written in
      (
        q,
        r,
        l,
        s1,
        s2,
        _,
        last,
        served,
        stored,
        served',
        stream-uploaded (send_command out) (numbered c fs) d _ small h1.bit_streams,
        info-uploaded (send_command out) (numbered c fs) d _ small ho.n_frame
              (n ∙ sym (length-numbered c fs)) h1.data_frame_infos
            ∙ length-numbered c fs,
        λ lost lost' lost'' later later' later'' rounds timeouts timeouts' timeouts''.
            send_file-once _ _ _ rounds out g _ last _ _ fs c _ (first_heard lost later timeouts)
              (status ∙ new)
              (reply-heard lost' later' (send_request (query_request out)) _
                (send_reply-IsFrame (send_command out) s1 (send_command-IsFrame out ho) h1)
                (h.address, refl, refl) timeouts')
              (ap (λ k. send_frames false k 0 fs (heard_round lost' r later' lost'' l later'') c) n
                ∙ send_frames-numbered fs 0 c _ ct
                    (record { frame_ready = λ k. refl; frame_written = λ k. refl }))
              (last_heard lost'' later'' timeouts'') (status' ∙ processed),
        status' ∙ processed,
      )

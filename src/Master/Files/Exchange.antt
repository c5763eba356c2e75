-- ===== src/Master/Files/Exchange.antt =====
-- One picture file from the master's disk to the slave's bit stream.
use soc.Common.{
  ℕ, ◌+◌, ◌%◌, ◌<◌, ◌≡◌, ◌≢◌, refl, sym, ap, subst, ◌∙◌, List, ◌∷◌, ◌++◌, map, concat, length, set,
  All, some, none, Bool, true, false, arith,
}
use soc.Common.Effects.{Call, returns, Ends-value}
use soc.Protocol.Control.{Frame, IsFrame}
use soc.Protocol.Data.{DataFrame}
use soc.Protocol.Receive.Transfer.{wire, Sendable}
use soc.Protocol.Slices.Carries.{Carries, numbered}
use soc.Protocol.Files.{get_data_frames}
use soc.Protocol.Files.Blocks.{length-concat, get_data_frames-Carries}
use soc.Slave.State.{Slave, stream, info, get_status}
use soc.Slave.Process.{Yuv}
use soc.Slave.Commands.{handle}
use soc.Slave.Invariant.{IsSlave}
use soc.Slave.Served.{handle-IsSlave}
use soc.Slave.Isolation.{handle_isolated}
use soc.Master.{query_request}
use soc.Master.Query.{arrived, arrived-IsFrame, query_request-IsFrame}
use soc.Master.Pictures.Sending.{send_command, send_command-IsFrame}
use soc.Master.Pictures.Upload.{send_file-upload}
use soc.Master.Files.{FileTransfer, SentFiles, send_one}
use soc.Master.Files.Runs.{
  made, picture_request, picture_request-IsFrame, send_one_step, IsPictureFile, PictureRun,
  bytes_of, count_of, GoesWell, answered,
}

-- The three commands for one file, which the slave serves.
pub record Serves (encode : Yuv → Call (List ℕ)) (out : Frame) (r : PictureRun) (t : FileTransfer)
    (v v' : Slave) : Type 0 where
  pub q : List ℕ
  pub g : List ℕ
  pub l : List ℕ
  pub v1 : Slave
  pub v2 : Slave
  pub queried : handle encode true r.query_env (arrived (query_request out)) v ≡ returns (q, v1)
  pub granted : handle encode true r.send_env (send_command out) v1 ≡ returns (g, v2)
  pub processed : handle encode true r.last_env (arrived (query_request out)) v2 ≡ returns (l, v')
  pub heard : t ≡ answered r q g l

-- The commands for picture `k` leave the other pictures alone.
pub Serves-isolated :
    (encode : Yuv → Call (List ℕ)) (out : Frame) (r : PictureRun) (t : FileTransfer) (v v' : Slave)
    (j : ℕ)
    → Serves encode out r t v v'
    → out.n_file ≢ j
    → (stream v' j ≡ stream v j) × (info v' j ≡ info v j)
Serves-isolated encode out r t v v' j w ne =
    let (b, d) =
      handle_isolated encode true r.query_env (arrived (query_request out)) v w.v1 w.q j w.queried
        ne in
    let (b', d') =
      handle_isolated encode true r.send_env (send_command out) w.v1 w.v2 w.g j w.granted ne in
    let (b'', d'') =
      handle_isolated encode true r.last_env (arrived (query_request out)) w.v2 v' w.l j w.processed
        ne in
    (b'' ∙ b' ∙ b, d'' ∙ d' ∙ d)

pub Serves-IsSlave :
    (encode : Yuv → Call (List ℕ)) (out : Frame) (r : PictureRun) (t : FileTransfer) (v v' : Slave)
    → Serves encode out r t v v'
    → IsFrame out
    → IsSlave v
    → IsSlave v'
Serves-IsSlave encode out r t v v' w ho h =
    let asks : IsFrame (arrived (query_request out)) =
      arrived-IsFrame (query_request out) (query_request-IsFrame out ho) in
    let P : List ℕ × Slave → Type 0 = λ a. IsSlave a.1 in
    let h1 : IsSlave w.v1 =
      Ends-value P (w.q, w.v1) (handle-IsSlave encode true r.query_env _ v asks h) w.queried in
    let h2 : IsSlave w.v2 =
      Ends-value P (w.g, w.v2)
        (handle-IsSlave encode true r.send_env _ w.v1 (send_command-IsFrame out ho) h1) w.granted in
    Ends-value P (w.l, v') (handle-IsSlave encode true r.last_env _ w.v2 asks h2) w.processed

pub same_status :
    (v v' : Slave) (j : ℕ)
    → stream v' j ≡ stream v j
    → info v' j ≡ info v j
    → get_status v' j ≡ get_status v j
unfolding get_status
same_status v v' j b d = rw (b, d) refl

frames_of_made :
    (closed : Bool) (k n : ℕ) (fs gs : List DataFrame)
    → returns (made closed k n fs) ≡ returns (made closed k n gs)
    → fs ≡ gs
frames_of_made closed k n fs gs e = cc

-- The frames of a file that goes well.
made_frames :
    (k c : ℕ) (r : PictureRun) (w : GoesWell k c r)
    → k < 8
    → (length w.frames ≡ count_of r) × All Sendable w.frames × Carries w.frames (bytes_of r)
made_frames k c r w small =
    let f : IsPictureFile r.transfer (r.block ∷ r.blocks) = w.file in
    let (frames, e, size, sendable, carries) =
      get_data_frames-Carries r.transfer.file r.block r.blocks r.transfer.raw f.memory
        (record r.transfer.before { n_file = k }) f.whole f.bytes f.few f.opened f.size f.reads
        f.space f.fits f.payloads (omega (arith, small)) in
    let same : frames ≡ w.frames =
      frames_of_made r.transfer.file.closed k (count_of r) frames w.frames (
        sym e
        ∙ sym (
            ap
              (λ m.
                get_data_frames r.transfer.file false r.transfer.raw m
                  (record r.transfer.before { n_file = k }))
              f.found)
        ∙ w.got) in
    subst (λ fs. (length fs ≡ count_of r) × All Sendable fs × Carries fs (bytes_of r)) same
      (size, sendable, carries)

-- The first loop after file `k`.
abbrev pub after_file : ℕ → PictureRun → List DataFrame → SentFiles → SentFiles
after_file k r frames s = record {
  output_frame = query_request (picture_request s.output_frame k (count_of r));
  n_files = set s.n_files k k;
  wire = s.wire ++ concat (map wire (numbered s.n_total_frame frames));
  n_total_frame = (s.n_total_frame + count_of r) % 16777216;
}

module _ (encode : Yuv → Call (List ℕ)) (out_dir : List ℕ) where
  pub one_file :
      (k : ℕ) (r : PictureRun) (s : SentFiles) (v : Slave) (w : GoesWell k s.n_total_frame r)
      → k < 8
      → k < length s.n_files
      → IsFrame s.output_frame
      → s.output_frame.address ≡ 0
      → s.n_total_frame < 16777216
      → IsSlave v
      → get_status v k ≡ 0xaaaa
      → (info v k).addr ≡ none
      → (t : FileTransfer) × (v' : Slave) × Serves encode
          (picture_request s.output_frame k (count_of r))
          r
          t
          v
          v'
        × (stream v' k ≡ record { addr = some (bytes_of r); len = length (bytes_of r) })
        × ((info v' k).len ≡ count_of r)
        × (send_one false false out_dir k t s ≡ returns (some (after_file k r w.frames s)))
  one_file k r s v w small room ho a fits h new fresh =
      let out : Frame = picture_request s.output_frame k (count_of r) in
      let (size, sendable, carries) = made_frames k s.n_total_frame r w small in
      let (q, g, l, v1, v2, v3, last, e1, e2, e3, stored, counted, sends, _) =
        send_file-upload encode r.query_env r.send_env r.last_env out w.frames (bytes_of r) r.piece
          r.pieces s.n_total_frame v
          (picture_request-IsFrame s.output_frame k (count_of r) ho small w.file.few) a small
          (sym size) h new fresh fits sendable carries
          (omega (arith, length-concat (r.block ∷ r.blocks) w.file.whole)) w.queried w.calloc
          w.delivered w.nonempty w.arrives w.last in
      (
        answered r q g l,
        v3,
        record {
          q = q;
          g = g;
          l = l;
          v1 = v1;
          v2 = v2;
          queried = e1;
          granted = e2;
          processed = e3;
          heard = refl;
        },
        stored,
        counted ∙ size,
        send_one_step false r.transfer.file.closed out_dir k (count_of r) (answered r q g l)
              w.frames s _ room w.got
              (sends r.lost r.lost' r.lost'' r.later r.later' r.later'' r.rounds w.lost w.lost'
                w.lost'')
            ∙ ap (λ n. returns (some (record (after_file k r w.frames s) { n_total_frame = n })))
                (ap (λ n. (s.n_total_frame + n) % 16777216) size),
      )

-- ===== src/Master/Files/Upload.antt =====
-- The loop over picture files: from the master's disk to the slave's bit streams.
use soc.Common.{
  ℕ, ◌+◌, ◌%◌, ◌<◌, ◌≤◌, ◌≡◌, refl, sym, ap, ◌∙◌, List, [], ◌∷◌, ◌++◌, concat, append-nil,
  append_assoc, length, get_elem?, get_elem?-set_self, get_elem?-set_ne, length-set, some, none,
  false, arith,
}
use soc.Common.Effects.{Call, returns}
use soc.Protocol.Control.{Frame, IsFrame, zero_frame}
use soc.Slave.State.{Slave, DataFrameInfo, stream, info, get_status}
use soc.Slave.Process.{Yuv}
use soc.Slave.Invariant.{IsSlave}
use soc.Master.{query_request}
use soc.Master.Query.{query_request-IsFrame}
use soc.Master.Files.{FileTransfer, SentFiles, send_files}
use soc.Master.Files.Runs.{
  picture_request, picture_request-IsFrame, PictureRun, bytes_of, count_of, GoesWell,
}
use soc.Master.Files.Exchange.{
  Serves, Serves-isolated, Serves-IsSlave, same_status, after_file, one_file,
}

-- The slave serves all commands for the files from `k` on, and the master hears its answers.
pub data Wired (encode : Yuv → Call (List ℕ))
    : ℕ → Frame → List PictureRun → List FileTransfer → Slave → Slave → Type 0 where
  wired_end : {k : ℕ} {out : Frame} {v : Slave} → Wired encode k out [] [] v v
  wired_next :
      {k : ℕ} {out : Frame} {r : PictureRun} {runs : List PictureRun} {t : FileTransfer}
      {files : List FileTransfer} {v v' v'' : Slave}
      → Serves encode (picture_request out k (count_of r)) r t v v'
      → Wired encode (k + 1) (query_request (picture_request out k (count_of r))) runs files v' v''
      → Wired encode k out (r ∷ runs) (t ∷ files) v v''

-- All goes well with the files as files `k` and later, from counter `c` on.
abbrev pub AllGoWell : ℕ → ℕ → List PictureRun → Type 0
AllGoWell k c [] = Unit {0}
AllGoWell k c (r ∷ runs) = GoesWell k c r × AllGoWell (k + 1) ((c + count_of r) % 16777216) runs

-- The slave has nothing of the pictures from `k` on.
abbrev pub HasNone : ℕ → Slave → Type 0
HasNone k v = (j : ℕ) → k ≤ j → j < 8 → (get_status v j ≡ 0xaaaa) × ((info v j).addr ≡ none)

-- The bytes of each file are the bit stream of the picture whose number the master has noted for it,
-- and the slave has counted its frames.
abbrev pub AllUploaded : ℕ → List PictureRun → Slave → List ℕ → Type 0
AllUploaded k [] v n_files = Unit {0}
AllUploaded k (r ∷ runs) v n_files =
    (stream v k ≡ record { addr = some (bytes_of r); len = length (bytes_of r) })
    × ((info v k).len ≡ count_of r)
    × (get_elem? n_files k ≡ some k)
    × AllUploaded (k + 1) runs v n_files

HasNone-after :
    (encode : Yuv → Call (List ℕ)) (out : Frame) (r : PictureRun) (t : FileTransfer) (k : ℕ)
    (v v' : Slave)
    → Serves encode out r t v v'
    → out.n_file ≡ k
    → HasNone k v
    → HasNone (k + 1) v'
HasNone-after encode out r t k v v' w e h j above small =
    let (b, d) = Serves-isolated encode out r t v v' j w (ground arith) in
    let (new, fresh) = h j (omega arith) small in (same_status v v' j b d ∙ new, rw d fresh)

-- What arrives at the slave of the data frames.
abbrev pub arriving : List PictureRun → List ℕ
arriving [] = []
arriving (r ∷ runs) = concat (r.piece ∷ r.pieces) ++ arriving runs

-- What the loop over the files from `k` on does, and what it leaves alone.
pub record UploadsFrom (encode : Yuv → Call (List ℕ)) (out_dir : List ℕ) (k : ℕ)
    (runs : List PictureRun) (s : SentFiles) (v : Slave) : Type 0 where
  pub files : List FileTransfer
  pub v' : Slave
  pub s' : SentFiles
  pub wired : Wired encode k s.output_frame runs files v v'
  pub sent : send_files false false out_dir k files s ≡ returns (some s')
  pub uploaded : AllUploaded k runs v' s'.n_files
  pub wire : s'.wire ≡ s.wire ++ arriving runs
  pub slave : IsSlave v'
  pub frame : IsFrame s'.output_frame
  pub address : s'.output_frame.address ≡ 0
  pub streams : (j : ℕ) → j < k → stream v' j ≡ stream v j
  pub infos : (j : ℕ) → j < k → info v' j ≡ info v j
  pub numbers : (j : ℕ) → j < k → get_elem? s'.n_files j ≡ get_elem? s.n_files j

pub zero_frame-IsFrame : IsFrame zero_frame
zero_frame-IsFrame = record {
  address = omega arith;
  frame_type = omega arith;
  n_file = omega arith;
  n_frame = omega arith;
  status = omega arith;
  check_sum = omega arith;
}

module _ (encode : Yuv → Call (List ℕ)) (out_dir : List ℕ) where
  pub uploads_from :
      (k : ℕ) (runs : List PictureRun) (s : SentFiles) (v : Slave)
      → k + length runs ≤ 8
      → k + length runs ≤ length s.n_files
      → AllGoWell k s.n_total_frame runs
      → IsFrame s.output_frame
      → s.output_frame.address ≡ 0
      → s.n_total_frame < 16777216
      → IsSlave v
      → HasNone k v
      → UploadsFrom encode out_dir k runs s v
  unfolding send_files
  uploads_from k [] s v small room well ho a fits h none_yet = record {
    files = [];
    v' = v;
    s' = s;
    wired = wired_end;
    sent = refl;
    uploaded = tt;
    wire = sym (append-nil s.wire);
    slave = h;
    frame = ho;
    address = a;
    streams = λ j below. refl;
    infos = λ j below. refl;
    numbers = λ j below. refl;
  }
  uploads_from k (r ∷ runs) s v small room well ho a fits h none_yet =
      let (new, fresh) = none_yet k (omega arith) (omega arith) in
      let out : Frame = picture_request s.output_frame k (count_of r) in
      let ho' : IsFrame out =
        picture_request-IsFrame s.output_frame k (count_of r) ho (omega arith) well.0.file.few in
      let (t, v', serves, stored, counted, sent) =
        one_file encode out_dir k r s v well.0 (omega arith) (omega arith) ho a fits h new fresh in
      let s' : SentFiles = after_file k r well.0.frames s in
      let rest : UploadsFrom encode out_dir (k + 1) runs s' v' =
        uploads_from (k + 1) runs s' v' (omega arith) (omega (arith, length-set s.n_files k k))
          well.1 (query_request-IsFrame out ho') a (omega arith)
          (Serves-IsSlave encode out r t v v' serves ho' h)
          (HasNone-after encode out r t k v v' serves refl none_yet) in
      record {
        files = t ∷ rest.files;
        v' = rest.v';
        s' = rest.s';
        wired = wired_next serves rest.wired;
        sent = rw (sent, rest.sent) refl;
        uploaded = (
          rest.streams k (omega arith) ∙ stored,
          ap (λ i. DataFrameInfo.len i) (rest.infos k (omega arith)) ∙ counted,
          rest.numbers k (omega arith) ∙ get_elem?-set_self s.n_files k k (omega arith),
          rest.uploaded,
        );
        wire =
            rest.wire
            ∙ ap (λ w. (s.wire ++ w) ++ arriving runs) (sym well.0.arrives)
            ∙ append_assoc s.wire (concat (r.piece ∷ r.pieces)) (arriving runs);
        slave = rest.slave;
        frame = rest.frame;
        address = rest.address;
        infos = λ j below.
            rest.infos j (omega arith)
            ∙ (Serves-isolated encode out r t v v' j serves (ground arith)).1;
        streams = λ j below.
            rest.streams j (omega arith)
            ∙ (Serves-isolated encode out r t v v' j serves (ground arith)).0;
        numbers = λ j below.
            rest.numbers j (omega arith) ∙ get_elem?-set_ne s.n_files k j k (ground arith);
      }

  -- The master sends up to eight files, each of 1 to 65535 whole blocks of 512 bytes, one block a read,
  -- with memory for its frames and for as many numbers as files, not in binary mode and with no dump,
  -- to a slave that is in a state that satisfies the invariant and in a dry run and has nothing of the
  -- pictures. If the slave's system calls go well, the bytes of each file's frames, numbered on from
  -- the file before it, arrive in any non-empty pieces, and the master reads each answer of the slave
  -- after any number of rounds that time out, then the slave serves the query, the request and the
  -- second query for each file in turn, and the master's loop comes to its end: it has written exactly
  -- the bytes that arrive, it has noted a number for each file, and the slave's bit stream of that
  -- number is the file, whose frames the slave has counted.
  pub send_files-upload :
      (runs : List PictureRun) (n_files : List ℕ) (v : Slave)
      → length runs ≤ 8
      → length n_files ≡ length runs
      → AllGoWell 0 0 runs
      → IsSlave v
      → HasNone 0 v
      → (files : List FileTransfer) × (v' : Slave) × (s' : SentFiles) × Wired encode 0 zero_frame
          runs files v v'
        × (send_files false false out_dir 0 files (record {
          output_frame = zero_frame;
          n_files = n_files;
          wire = [];
          n_total_frame = 0;
        })
            ≡ returns (some s'))
        × (s'.wire ≡ arriving runs)
        × AllUploaded 0 runs v' s'.n_files
  send_files-upload runs n_files v small room well h none_yet =
      let all : UploadsFrom encode out_dir 0 runs _ v =
        uploads_from 0 runs
          (record { output_frame = zero_frame; n_files = n_files; wire = []; n_total_frame = 0 }) v
          (omega (arith, small)) (omega (arith, room)) well zero_frame-IsFrame refl (omega arith) h
          none_yet in
      (all.files, all.v', all.s', all.wired, all.sent, all.wire, all.uploaded)

-- ===== src/Protocol/Tests.antt =====
-- The theorems about the protocol, applied to concrete frames.
use soc.Common.{
  ◌≤◌, ℕ, ◌+◌, ◌%◌, ◌<◌, ◌≡◌, refl, List, [], ◌∷◌, ◌++◌, take, drop, append-nil, take-append-drop,
  ap, sym, ◌∙◌, length, get_or, some, true, All, inl, arith,
}
use soc.Common.Effects.{returns, pos}
use soc.Crc.{crc16, swap_bytes, register, update}
use soc.Crc.Table.{lt}
use soc.Protocol.Words.{htobe16, htobe32}
use soc.Protocol.Control.{
  Frame, write_frame, receive_frame, network_frame, frame_at, accept_frame, host_frame,
}
use soc.Protocol.Control.RoundTrip.{receive-write, receive-only}
use soc.Protocol.Data.{
  DataFrame, tp_header, write_data_frame, data_frame_head, network_data_frame, data_frame_bytes,
}
use soc.Protocol.Gmm.{GmmT, gmm_at, entropy_to_gmm, entropy_to_gmm_lem}
use soc.Protocol.Receive.{ready, Progress, read_loop, accept_data_frame, receive_data_frames}
use soc.Protocol.Receive.Frames.{delivered, accept-sent, accept-only}
use soc.Protocol.Receive.Reading.{Nonempty, Ended, read_loop_total}
use soc.Protocol.Receive.Slots.{Slots, receive-Slots}
use soc.Protocol.Receive.Transfer.{wire, Sendable, receive-wires}
use soc.Protocol.Samples.{
  three_bytes, three_bytes-IsByte, picture_frame, picture_frame-Sendable, query_frame,
  query_frame-IsFrame, old_memory, picture_wire, picture_wire-IsByte, length-picture_wire,
}
use soc.Protocol.Slices.{frames_needed, at_addr, alloc_data_frames}
use soc.Protocol.Slices.Alloc.{alloc_data_frames_lem}
use soc.Protocol.Slices.Carries.{Carries}

-- A slot that no frame has filled.
abbrev old_empty : DataFrame
old_empty = record old_memory { data_len = 0 }

one_needed : 1 ≡ frames_needed 3
unfolding frames_needed
one_needed = refl

two_pieces : All Nonempty (take 100 (wire picture_frame) ∷ drop 100 (wire picture_frame) ∷ [])
unfolding write_data_frame data_frame_bytes data_frame_head network_data_frame
two_pieces = omega arith

receive-write_example :
    receive_frame true query_frame (some (write_frame query_frame (some 12)).0)
    ≡ returns (pos 12, record query_frame { check_sum = (network_frame query_frame).check_sum })
receive-write_example = receive-write query_frame query_frame query_frame-IsFrame

-- The bytes of the query on the wire.
abbrev query_bytes : List ℕ
query_bytes = 0 ∷ 1 ∷ 0 ∷ 0 ∷ 0 ∷ 0 ∷ 0 ∷ 0 ∷ 0 ∷ 0 ∷ 0x0a ∷ 0x1a ∷ []

abbrev query_read : Frame
query_read = record {
  address = 0;
  frame_type = 1;
  n_file = 0;
  n_frame = 0;
  status = 0;
  check_sum = 0x1a0a;
}

receive_query : receive_frame true query_frame (some query_bytes) ≡ returns (pos 12, query_read)
unfolding receive_frame accept_frame frame_at host_frame crc16 swap_bytes register update lt htobe32
    htobe16
receive_query = refl

receive-only_example : (◌≡◌ {A = ℕ} 12 12) × (query_bytes ≡ (write_frame query_read (some 12)).0)
receive-only_example =
    receive-only query_frame query_read 12 query_bytes (omega arith) receive_query

accept_picture : accept_data_frame picture_wire ≡ some (delivered picture_frame)
unfolding picture_wire
accept_picture = accept-sent picture_frame picture_frame-Sendable.fits picture_frame-Sendable.header

accept-only_example :
    (picture_wire ≡ data_frame_bytes (network_data_frame (delivered picture_frame)))
    × ((delivered picture_frame).header ≡ tp_header)
accept-only_example =
    accept-only picture_wire (delivered picture_frame) length-picture_wire picture_wire-IsByte
      accept_picture

read_loop_total_example :
    (r : Progress) × (read_loop 51 (λ k. get_or ((1 ∷ 2 ∷ []) ∷ [] ∷ (3 ∷ []) ∷ []) k []) 0 4 [] 0
      ≡ some r)
    × Ended 4 r
read_loop_total_example =
    read_loop_total 51 0 4 (λ k. get_or ((1 ∷ 2 ∷ []) ∷ [] ∷ (3 ∷ []) ∷ []) k []) [] 0 (omega arith)
      (omega arith) (omega arith)

receive-wires_example :
    receive_data_frames ready
      (λ k. get_or (take 100 (wire picture_frame) ∷ drop 100 (wire picture_frame) ∷ []) k [])
      (old_empty ∷ [])
      1
    ≡ returns (0, delivered picture_frame ∷ [])
receive-wires_example =
    receive-wires (picture_frame ∷ []) (old_empty ∷ []) (take 100 (wire picture_frame))
      (drop 100 (wire picture_frame) ∷ []) (picture_frame-Sendable, tt) (inl refl, tt) two_pieces
      (ap (λ t. take 100 (wire picture_frame) ++ t) (append-nil _)
        ∙ take-append-drop 100 (wire picture_frame)
        ∙ sym (append-nil (wire picture_frame)))

receive-Slots_example :
    (missing : ℕ) × (news : List DataFrame) × (receive_data_frames ready
        (λ k. get_or ((1 ∷ 2 ∷ []) ∷ []) k [])
        (picture_frame ∷ old_empty ∷ [])
        2
      ≡ returns (missing, news))
    × Slots 2 (picture_frame ∷ old_empty ∷ []) missing news
receive-Slots_example =
    receive-Slots (λ k. get_or ((1 ∷ 2 ∷ []) ∷ []) k []) (picture_frame ∷ old_empty ∷ []) 2
      (omega arith) (omega arith)

alloc_data_frames_lem_example :
    (frames : List DataFrame) × (alloc_data_frames
        (some (old_memory ∷ []))
        (frames_needed 3)
        2
        (at_addr three_bytes 3)
        0x8e
        3
      ≡ returns (some frames))
    × (length frames ≡ frames_needed 3)
    × All Sendable frames
    × Carries frames three_bytes
alloc_data_frames_lem_example =
    alloc_data_frames_lem (old_memory ∷ []) 2 0x8e 3 three_bytes (omega arith) (omega arith)
      three_bytes-IsByte one_needed (omega arith) (omega arith) (omega arith) (omega arith)

-- Eighteen coefficients fill the entries 0 and 9; the entries between are never set.
abbrev unset_entry : GmmT
unset_entry = record {
  prob1 = 7;
  prob2 = 7;
  prob3 = 7;
  mean1 = 7;
  mean2 = 7;
  mean3 = 7;
  std1 = 7;
  std2 = 7;
  std3 = 7;
}

entropy_to_gmm_lem_example :
    (out : ℕ → GmmT) × (entropy_to_gmm (λ i. 100 + i) (λ j. unset_entry) 18 ≡ some out)
    × ((j : ℕ) → j % 9 ≡ 0 → j < 18 → out j ≡ gmm_at (λ i. 100 + i) j)
    × ((j : ℕ) → 0 < j % 9 → out j ≡ unset_entry)
    × ((j : ℕ) → 18 ≤ j → out j ≡ unset_entry)
entropy_to_gmm_lem_example = entropy_to_gmm_lem (λ i. 100 + i) (λ j. unset_entry) 18

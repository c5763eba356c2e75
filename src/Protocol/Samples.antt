-- ===== src/Protocol/Samples.antt =====
-- Frames for the tests, with what the theorems ask of them.
use soc.Common.{ℕ, ◌<◌, ◌≡◌, refl, List, [], ◌∷◌, ◌++◌, replicate, length, All, All-append, arith}
use soc.Protocol.Control.{Frame, IsFrame}
use soc.Protocol.Data.{DataFrame, tp_header, data_frame_head, data_frame_bytes, network_data_frame}
use soc.Protocol.Words.{store16}
use soc.Protocol.Receive.Transfer.{Sendable}
use soc.Protocol.Slices.{data_frame_to_data_len, data_frames_to_data}
use soc.Protocol.Slices.Alloc.{zeros-IsByte}
use soc.Protocol.Slices.Carries.{Carries}

abbrev pub three_bytes : List ℕ
three_bytes = 1 ∷ 2 ∷ 3 ∷ []

pub three_bytes-IsByte : All (λ x. x < 256) three_bytes
three_bytes-IsByte = omega arith

-- A picture of three bytes in one data frame.
abbrev pub picture_frame : DataFrame
picture_frame = record {
  header = tp_header;
  n_total_frame = 0;
  flag = 0x8e;
  n_file = 2;
  n_frame = 0;
  total_data_len = 3;
  data_len = 3;
  payload = three_bytes ++ replicate 509 0;
  check_sum = 0;
}

pub picture_frame-Sendable : Sendable picture_frame
picture_frame-Sendable = record {
  fits = record {
    header = refl;
    header_bytes = omega arith;
    n_total_frame = omega arith;
    flag = omega arith;
    n_file = omega arith;
    n_frame = omega arith;
    total_data_len = omega arith;
    data_len = omega arith;
    payload = refl;
    payload_bytes =
        All-append (λ x. x < 256) three_bytes (replicate 509 0) three_bytes-IsByte
          (zeros-IsByte 509);
    check_sum = omega arith;
  };
  header = refl;
}

-- The bytes of the frame on the wire.
unfoldable pub picture_wire : List ℕ
picture_wire = data_frame_bytes (network_data_frame picture_frame)

pub length-picture_wire : length picture_wire ≡ 534
unfolding picture_wire data_frame_bytes data_frame_head network_data_frame
length-picture_wire = refl

pub picture_wire-IsByte : All (λ x. x < 256) picture_wire
unfolding picture_wire data_frame_bytes data_frame_head network_data_frame
picture_wire-IsByte =
    All-append (λ x. x < 256) (data_frame_head (network_data_frame picture_frame))
      (store16 (network_data_frame picture_frame).check_sum [])
      (
        omega arith,
        (
          omega arith,
          (
            omega arith,
            (
              omega arith,
              (
                omega arith,
                (
                  omega arith,
                  (
                    omega arith,
                    (
                      omega arith,
                      (
                        omega arith,
                        (
                          omega arith,
                          (
                            omega arith,
                            (
                              omega arith,
                              (
                                omega arith,
                                (
                                  omega arith,
                                  (
                                    omega arith,
                                    (
                                      omega arith,
                                      (
                                        omega arith,
                                        (
                                          omega arith,
                                          (
                                            omega arith,
                                            (
                                              omega arith,
                                              All-append (λ x. x < 256) three_bytes
                                                  (replicate 509 0) three_bytes-IsByte
                                                  (zeros-IsByte 509),
                                            ),
                                          ),
                                        ),
                                      ),
                                    ),
                                  ),
                                ),
                              ),
                            ),
                          ),
                        ),
                      ),
                    ),
                  ),
                ),
              ),
            ),
          ),
        ),
      )
      (omega arith)

pub picture_frame-Carries : Carries (picture_frame ∷ []) three_bytes
unfolding data_frames_to_data data_frame_to_data_len
picture_frame-Carries = record { bytes = refl; len = refl }

-- A query of the master for picture 2.
abbrev pub query_frame : Frame
query_frame = record {
  address = 0;
  frame_type = 1;
  n_file = 2;
  n_frame = 0;
  status = 0;
  check_sum = 0;
}

pub query_frame-IsFrame : IsFrame query_frame
query_frame-IsFrame = record {
  address = omega arith;
  frame_type = omega arith;
  n_file = omega arith;
  n_frame = omega arith;
  status = omega arith;
  check_sum = omega arith;
}

-- Memory of malloc.
abbrev pub old_memory : DataFrame
old_memory = record picture_frame { n_total_frame = 77; payload = replicate 512 9; check_sum = 5 }

-- ===== src/Protocol/Files.antt =====
-- get_data_frames of project-spec/meta-user/recipes-apps/autostart/src/transmission_protocol.c: the
-- frames of a picture's file, cut from its bytes, or read as they were dumped.
pub mod Binary
pub mod Blocks
pub mod Skips
mod Tests
use soc.Common.{
  ℕ, zero, suc, ◌+◌, ◌-◌, ◌*◌, ◌/◌, ◌%◌, ◌^◌, List, [], ◌∷◌, ◌++◌, take, drop, length, Option, none,
  some, Bool, not, leb, ◌==◌, if◌then◌else◌,
}
use soc.Common.Effects.{Call, returns, exits, faults, ◌>>=◌}
use soc.Protocol.Words.{htobe32, load32}
use soc.Protocol.Data.{DataFrame, data_frame_size, data_frame_at}
use soc.Protocol.Slices.{next_read, later_reads, frames_needed, from_fd, alloc_data_frames}

-- What the system calls say of a file: whether open succeeds, st_size if fstat does, the answers of
-- read, and whether close succeeds.
pub record PictureFile : Type 0 where
  pub opened : Bool
  pub size : Option ℕ
  pub reads : List (Option (List ℕ))
  pub closed : Bool

-- The result, `*n_file`, `*n_frame` and `*p_output_data_frames`.
pub record GotFrames : Type 0 where
  pub result : ℕ
  pub n_file : ℕ
  pub n_frame : ℕ
  pub frames : Option (List DataFrame)

-- The loop over the frames of a dump: `n` of them are left, `p` is the place in the memory. A read that
-- fails moves the pointer back.
unfoldable pub read_dump : ℕ → List (Option (List ℕ)) → ℕ → List ℕ → Call (List ℕ)
read_dump zero reads p memory = returns memory
read_dump (suc n) reads p memory = elim (next_read reads) [
  | none ↦
      let rest = read_dump n (later_reads reads) (p - 1) memory in if p == 0 then faults else rest
  | some bytes ↦
      let got = take data_frame_size bytes in
      let rest =
        read_dump n (later_reads reads) (p + length got)
          (take p memory ++ got ++ drop (length got) (drop p memory)) in
      if leb (p + length got) (length memory) then rest else faults
]

-- The first `n` frames that memory holds.
unfoldable pub frames_at : ℕ → List ℕ → List DataFrame
frames_at zero memory = []
frames_at (suc n) memory =
    data_frame_at (take data_frame_size memory) ∷ frames_at n (drop data_frame_size memory)

-- A dump: `raw` is the memory that malloc returns, `none` for NULL. `n_file` is read at byte 8.
unfoldable pub dumped_frames : ℕ → List (Option (List ℕ)) → Option (List ℕ) → Call GotFrames
dumped_frames size reads none = exits
dumped_frames size reads (some raw) = do
  memory ← read_dump (size / data_frame_size % 65536) reads 0 raw
  if leb 12 (length memory)
      then returns (record {
        result = 0;
        n_file = htobe32 (load32 memory 8);
        n_frame = size / data_frame_size % 65536;
        frames = some (frames_at (size / data_frame_size % 65536) memory);
      })
      else faults

-- TP_FLAG_1_YUV420
abbrev pub tp_flag_1_yuv420 : ℕ
tp_flag_1_yuv420 = 0x8e

-- A picture's bytes: `memory` is what malloc returns in alloc_data_frames.
unfoldable pub cut_frames :
    ℕ → List (Option (List ℕ)) → Option (List DataFrame) → ℕ → Call GotFrames
cut_frames size reads memory n_file =
    alloc_data_frames memory (frames_needed size % 65536) n_file (from_fd reads) tp_flag_1_yuv420
      (size % 2 ^ 32)
    >>= λ frames. returns (record {
      result = elim frames [ none ↦ 3 | some made ↦ 0 ];
      n_file = n_file;
      n_frame = frames_needed size % 65536;
      frames = frames;
    })

unfoldable pub close_file : Bool → GotFrames → GotFrames
close_file closed got =
    if got.result == 3 then got else if closed then got else record got { result = 2 }

unfoldable pub get_data_frames :
    PictureFile → Bool → Option (List ℕ) → Option (List DataFrame) → GotFrames → Call GotFrames
get_data_frames file binary raw memory before =
    if file.opened
    then elim file.size [
      | none ↦ returns (record before { result = 1 })
      | some size ↦
          (if binary
            then dumped_frames size file.reads raw
            else cut_frames size file.reads memory before.n_file)
          >>= λ got. returns (close_file file.closed got)
    ]
    else returns (record before { result = 1 })

-- ===== src/Protocol/Files/Blocks.antt =====
-- A picture's file of whole blocks of 512 bytes: the frames of get_data_frames carry it.
use soc.Common.{
  ℕ, zero, suc, ◌-◌, ◌*◌, ◌%◌, ◌^◌, ◌≤◌, ◌<◌, ◌≡◌, refl, ap, sym, ◌∙◌, subst, List, [], ◌∷◌, ◌++◌,
  append-nil, take, take_all, drop, length, length-append, map, concat, replicate, All, All-append,
  Option, some, true, false, if◌then◌else◌, arith,
}
use soc.Common.Effects.{returns}
use soc.Protocol.Data.{DataFrame}
use soc.Protocol.Receive.Transfer.{Sendable}
use soc.Protocol.Slices.{
  from_fd, frames_needed, fd_to_data_frames, init_from, init_data_frames, fill_data_frames,
  alloc_data_frames,
}
use soc.Protocol.Slices.File.{filled, fill_all, last_length, fd_to_data_frames_lem}
use soc.Protocol.Slices.Join.{Prepared, Holds, joined}
use soc.Protocol.Slices.Alloc.{IsMemory, Payloads, init_from-Prepared, Holds-Sendable}
use soc.Protocol.Slices.Carries.{Carries}
use soc.Protocol.Files.{PictureFile, GotFrames, tp_flag_1_yuv420, cut_frames, get_data_frames}
use soc.Protocol.Files.Binary.{closed_lem}

-- Blocks of 512 bytes.
abbrev pub Blocks : List (List ℕ) → Type 0
Blocks = All (λ block. length block ≡ 512)

last_length-Blocks : (blocks : List (List ℕ)) → Blocks blocks → last_length 512 blocks ≡ 512
last_length-Blocks [] h = refl
last_length-Blocks (b ∷ blocks) h = rw h.0 (last_length-Blocks blocks h.1)

drop_past : (n : ℕ) (xs : List ℕ) → length xs ≤ n → drop n xs ≡ []
drop_past zero [] h = refl
drop_past zero (x ∷ xs) h = absurd (omega arith)
drop_past (suc n) [] h = refl
drop_past (suc n) (x ∷ xs) h = drop_past n xs (omega arith)

-- A block fills a payload.
filled_payload :
    (block : List ℕ) (f : DataFrame)
    → length block ≡ 512
    → length f.payload ≡ 512
    → (filled block f).payload ≡ block
filled_payload block f h k =
    ap (λ rest. block ++ rest) (drop_past (length block) f.payload (omega (arith, h, k)))
    ∙ append-nil block

fill_all-Holds :
    (block : List ℕ) (blocks : List (List ℕ)) (frames : List DataFrame)
    → Blocks (block ∷ blocks)
    → length frames ≡ length (block ∷ blocks)
    → Payloads frames
    → Holds (concat (block ∷ blocks)) (fill_all (block ∷ blocks) frames)
fill_all-Holds block blocks [] h e k = absurd (omega arith)
fill_all-Holds block [] (f ∷ []) h e k =
    subst (λ p. Holds p (fill_all (block ∷ []) (f ∷ []))) (sym (append-nil block))
      (Holds.end block (filled block f) refl (omega (arith, h.0)) (omega (arith, h.0))
        (filled_payload block f h.0 k.0 ∙ sym padded))
  where
    padded : block ++ replicate (512 - length block) 0 ≡ block
    padded =
        let none_left : 512 - length block ≡ 0 = omega (arith, h.0) in
        rw none_left (append-nil block)
fill_all-Holds block [] (f ∷ g ∷ frames) h e k = absurd (omega arith)
fill_all-Holds block (b ∷ blocks) (f ∷ frames) h e k =
    Holds.more block (filled block f) h.0 (filled_payload block f h.0 k.0) h.0
      (fill_all-Holds b blocks frames h.1 (omega arith) k.1)

pub length-concat :
    (blocks : List (List ℕ)) → Blocks blocks → length (concat blocks) ≡ 512 * length blocks
length-concat [] h = refl
length-concat (b ∷ blocks) h =
    omega (arith, length-append b (concat blocks), h.0, length-concat blocks h.1)

-- With whole blocks, what fd_to_data_frames clears is nothing.
cleared :
    (block : List ℕ) (blocks : List (List ℕ)) (f : DataFrame)
    → Blocks (block ∷ blocks)
    → length f.payload ≡ 512
    → take (last_length (length block) blocks) (filled block f).payload
        ++ replicate (512 - last_length (length block) blocks) 0
      ≡ (filled block f).payload
cleared block blocks f h k =
    let last : last_length (length block) blocks ≡ 512 =
      subst (λ n. last_length n blocks ≡ 512) (sym h.0) (last_length-Blocks blocks h.1) in
    let none_left : 512 - last_length (length block) blocks ≡ 0 = omega (arith, last) in
    rw none_left (
      append-nil (take (last_length (length block) blocks) (filled block f).payload)
      ∙ take_all (last_length (length block) blocks) (filled block f).payload
          (omega (arith, last, ap length (filled_payload block f h.0 k), h.0)))

fd_to_data_frames-Blocks :
    (block : List ℕ) (blocks : List (List ℕ)) (frames : List DataFrame)
    → Blocks (block ∷ blocks)
    → length frames ≡ length (block ∷ blocks)
    → Payloads frames
    → fd_to_data_frames (map some (block ∷ blocks)) frames (length (block ∷ blocks))
      ≡ returns (fill_all (block ∷ blocks) frames)
fd_to_data_frames-Blocks block blocks [] h e k = absurd (omega arith)
fd_to_data_frames-Blocks block blocks (f ∷ frames) h e k =
    fd_to_data_frames_lem block blocks f frames (small (block ∷ blocks) h) (omega arith)
    ∙ ap (λ p. returns (record (filled block f) { payload = p } ∷ fill_all blocks frames))
        (cleared block blocks f h k.0)
  where
    small : (bs : List (List ℕ)) → Blocks bs → All (λ b. length b ≤ 512) bs
    small [] g = tt
    small (b ∷ bs) g = (omega (arith, g.0), small bs g.1)

fill_all-Prepared :
    (pieces : List (List ℕ)) (frames : List DataFrame)
    → All Prepared frames
    → All Prepared (fill_all pieces frames)
fill_all-Prepared [] frames h = h
fill_all-Prepared (piece ∷ pieces) [] h = tt
fill_all-Prepared (piece ∷ pieces) (f ∷ frames) h = (h.0, fill_all-Prepared pieces frames h.1)

length-fill_all :
    (pieces : List (List ℕ)) (frames : List DataFrame)
    → length (fill_all pieces frames) ≡ length frames
length-fill_all [] frames = refl
length-fill_all (piece ∷ pieces) [] = refl
length-fill_all (piece ∷ pieces) (f ∷ frames) = ap suc (length-fill_all pieces frames)

pub concat-bytes :
    (blocks : List (List ℕ))
    → All (λ b. All (λ x. x < 256) b) blocks
    → All (λ x. x < 256) (concat blocks)
concat-bytes [] h = tt
concat-bytes (b ∷ blocks) h =
    All-append (λ x. x < 256) b (concat blocks) h.0 (concat-bytes blocks h.1)

needed : (n : ℕ) → n < 65536 → frames_needed (512 * n) % 65536 ≡ n
unfolding frames_needed
needed n few = ground arith

alloc_run :
    (memory frames out : List DataFrame) (n n_file total : ℕ) (reads : List (Option (List ℕ)))
    → init_from n 0 memory n n_file tp_flag_1_yuv420 total ≡ returns frames
    → fd_to_data_frames reads frames n ≡ returns out
    → alloc_data_frames (some memory) n n_file (from_fd reads) tp_flag_1_yuv420 total
      ≡ returns (some out)
unfolding alloc_data_frames init_data_frames fill_data_frames
alloc_run memory frames out n n_file total reads made filled = rw (made, filled) refl

cut_run :
    (file : PictureFile) (raw : Option (List ℕ)) (memory out : List DataFrame) (n : ℕ)
    (before : GotFrames)
    → file.opened ≡ true
    → file.size ≡ some (512 * n)
    → frames_needed (512 * n) % 65536 ≡ n
    → alloc_data_frames
        (some memory)
        n
        before.n_file
        (from_fd file.reads)
        tp_flag_1_yuv420
        (512 * n % 2 ^ 32)
      ≡ returns (some out)
    → get_data_frames file false raw (some memory) before
      ≡ returns (record {
        result = if file.closed then 0 else 2;
        n_file = before.n_file;
        n_frame = n;
        frames = some out;
      })
unfolding get_data_frames cut_frames
cut_run file raw memory out n before opened sized count made =
    rw (opened, sized, count, made) (closed_lem file.closed before.n_file n (some out))

-- A file of 1 to 65535 whole blocks of 512 bytes, one block a read, as a picture of 3840 x 2160 is:
-- without the option `binary` get_data_frames makes as many frames, which can be sent, have the number
-- that the caller gives and carry the bytes of the file.
pub get_data_frames-Carries :
    (file : PictureFile) (block : List ℕ) (blocks : List (List ℕ)) (raw : Option (List ℕ))
    (memory : List DataFrame) (before : GotFrames)
    → Blocks (block ∷ blocks)
    → All (λ b. All (λ x. x < 256) b) (block ∷ blocks)
    → length (block ∷ blocks) < 65536
    → file.opened ≡ true
    → file.size ≡ some (512 * length (block ∷ blocks))
    → file.reads ≡ map some (block ∷ blocks)
    → length memory ≡ length (block ∷ blocks)
    → IsMemory memory
    → Payloads memory
    → before.n_file < 4294967296
    → (frames : List DataFrame) × (get_data_frames file false raw (some memory) before
        ≡ returns (record {
          result = if file.closed then 0 else 2;
          n_file = before.n_file;
          n_frame = length (block ∷ blocks);
          frames = some frames;
        }))
      × (length frames ≡ length (block ∷ blocks))
      × All Sendable frames
      × Carries frames (concat (block ∷ blocks))
get_data_frames-Carries file block blocks raw memory before h bytes few opened sized read space m k
      number =
    let n = length (block ∷ blocks) in
    let (frames, made, prepared, same, keeps) =
      init_from-Prepared 0 n before.n_file tp_flag_1_yuv420 (512 * n % 2 ^ 32) memory
        (omega (arith, space)) number (omega arith) (omega arith) m in
    let made' : init_from n 0 memory n before.n_file tp_flag_1_yuv420 (512 * n % 2 ^ 32)
        ≡ returns frames =
      subst
        (λ j.
          init_from j 0 memory n before.n_file tp_flag_1_yuv420 (512 * n % 2 ^ 32) ≡ returns frames)
        space made in
    let out = fill_all (block ∷ blocks) frames in
    let size : length frames ≡ n = same ∙ space in
    let filled_out : fd_to_data_frames file.reads frames n ≡ returns out =
      subst (λ r. fd_to_data_frames r frames n ≡ returns out) (sym read)
        (fd_to_data_frames-Blocks block blocks frames h size (keeps k)) in
    let holds = fill_all-Holds block blocks frames h size (keeps k) in
    let count = length-fill_all (block ∷ blocks) frames in
    let (carried, lengths) =
      joined (length out) holds refl (omega (arith, few, length-concat (block ∷ blocks) h)) in
    (
      out,
      cut_run file raw memory out n before opened sized (needed n few) (
          alloc_run memory frames out n before.n_file (512 * n % 2 ^ 32) file.reads made'
            filled_out),
      count ∙ size,
      Holds-Sendable holds (fill_all-Prepared (block ∷ blocks) frames prepared)
          (concat-bytes (block ∷ blocks) bytes),
      record { bytes = carried; len = lengths },
    )

-- A block of one byte repeated.
pub replicate-lt : (x n : ℕ) → x < 256 → All (λ b. b < 256) (replicate n x)
replicate-lt x zero h = tt
replicate-lt x (suc n) h = (h, replicate-lt x n h)

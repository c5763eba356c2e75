-- ===== src/Protocol/Files/Binary.antt =====
-- A dump of frames, as master.c's option `dump` writes it, is read back with the option `binary`.
use soc.Common.{
  ℕ, zero, suc, ◌+◌, ◌*◌, ◌/◌, ◌%◌, ◌≤◌, ◌<◌, ◌≡◌, refl, ap, ap₂, sym, ◌∙◌, subst, List, [], ◌∷◌,
  ◌++◌, append_assoc, take, take_all, drop, take-append, drop-append, length, length-append,
  length-drop, get_or, map, concat, All, Option, some, Bool, true, false, leb, le→leb,
  if◌then◌else◌, arith,
}
use soc.Common.Effects.{Call, returns}
use soc.Protocol.Words.{htobe32, load32, htobe32-htobe32}
use soc.Protocol.Data.{
  DataFrame, IsDataFrame, data_frame_at, data_frame_bytes, network_data_frame, write_data_frame,
}
use soc.Protocol.Data.Memory.{
  data_frame_at-data_frame_bytes, length-data_frame_bytes, network_data_frame-IsDataFrame,
}
use soc.Protocol.Files.{
  PictureFile, GotFrames, read_dump, frames_at, dumped_frames, close_file, get_data_frames,
}

read_dump_step :
    (n : ℕ) (reads : List (Option (List ℕ))) (p : ℕ) (done chunk rest : List ℕ) (r : Call (List ℕ))
    → length done ≡ p
    → length chunk ≡ 534
    → 534 ≤ length rest
    → read_dump n reads (p + 534) (done ++ chunk ++ drop 534 rest) ≡ r
    → read_dump (suc n) (some chunk ∷ reads) p (done ++ rest) ≡ r
unfolding read_dump
read_dump_step n reads p done chunk rest r at_p size space next =
    let whole : take 534 chunk ≡ chunk = take_all 534 chunk (omega arith) in
    let inside : leb (p + 534) (length (done ++ rest)) ≡ true =
      le→leb _ _ (omega (arith, length-append done rest)) in
    rw (whole, size, take-append done rest p at_p, drop-append done rest p at_p, inside) next

read_dump_end : (p : ℕ) (memory : List ℕ) → read_dump 0 [] p memory ≡ returns memory
unfolding read_dump
read_dump_end p memory = refl

read_dump_lem :
    (chunks : List (List ℕ)) (p : ℕ) (done rest : List ℕ)
    → All (λ c. length c ≡ 534) chunks
    → length done ≡ p
    → length rest ≡ 534 * length chunks
    → read_dump (length chunks) (map some chunks) p (done ++ rest) ≡ returns (done ++ concat chunks)
read_dump_lem [] p done [] sizes at_p all = read_dump_end p (done ++ [])
read_dump_lem [] p done (x ∷ rest) sizes at_p all = absurd (omega arith)
read_dump_lem (c ∷ chunks) p done rest sizes at_p all =
    read_dump_step (length chunks) (map some chunks) p done c rest _ at_p sizes.0 (omega arith) (
      read_dump_lem chunks (p + 534) (done ++ c) (drop 534 rest) sizes.1
        (omega (arith, at_p, sizes.0, length-append done c))
        (omega (arith, all, length-drop 534 rest)))
    ∙ ap returns (append_assoc done c (concat chunks))

frames_at_lem :
    (frames : List DataFrame)
    → All IsDataFrame frames
    → frames_at (length frames) (concat (map data_frame_bytes frames)) ≡ frames
unfolding frames_at
frames_at_lem [] h = refl
frames_at_lem (f ∷ frames) h =
    let rest = concat (map data_frame_bytes frames) in
    let size = length-data_frame_bytes f h.0 in
    ap₂ ◌∷◌
      (ap data_frame_at (take-append (data_frame_bytes f) rest 534 size)
        ∙ data_frame_at-data_frame_bytes f h.0)
      (ap (frames_at (length frames)) (drop-append (data_frame_bytes f) rest 534 size)
        ∙ frames_at_lem frames h.1)

sizes_of :
    (frames : List DataFrame)
    → All IsDataFrame frames
    → All (λ c. length c ≡ 534) (map data_frame_bytes frames)
sizes_of [] h = tt
sizes_of (f ∷ frames) h = (length-data_frame_bytes f h.0, sizes_of frames h.1)

length-map : (frames : List DataFrame) → length (map data_frame_bytes frames) ≡ length frames
length-map [] = refl
length-map (f ∷ frames) = ap suc (length-map frames)

get_or-append : (xs ys : List ℕ) (i : ℕ) → i < length xs → get_or (xs ++ ys) i 0 ≡ get_or xs i 0
get_or-append [] ys i h = absurd (omega arith)
get_or-append (x ∷ xs) ys zero h = refl
get_or-append (x ∷ xs) ys (suc i) h = get_or-append xs ys i (omega arith)

load32-append : (xs ys : List ℕ) (i : ℕ) → i + 4 ≤ length xs → load32 (xs ++ ys) i ≡ load32 xs i
load32-append xs ys i h =
    let same = λ (j : ℕ) (k : j < length xs). get_or-append xs ys j k in
    omega (
      arith,
      same i (omega arith),
      same (i + 1) (omega arith),
      same (i + 2) (omega arith),
      same (i + 3) (omega arith),
    )

own_number : (f : DataFrame) → IsDataFrame f → load32 (data_frame_bytes f) 8 ≡ f.n_file
unfolding data_frame_at
own_number f h = ap DataFrame.n_file (data_frame_at-data_frame_bytes f h)

first_number :
    (f : DataFrame) (rest : List ℕ)
    → IsDataFrame f
    → load32 (data_frame_bytes f ++ rest) 8 ≡ f.n_file
first_number f rest h =
    load32-append (data_frame_bytes f) rest 8 (omega (arith, length-data_frame_bytes f h))
    ∙ own_number f h

dumped_frames_lem :
    (f : DataFrame) (frames : List DataFrame) (raw : List ℕ) (size : ℕ)
    → All IsDataFrame (f ∷ frames)
    → size ≡ 534 * length (f ∷ frames)
    → length (f ∷ frames) < 65536
    → length raw ≡ size
    → dumped_frames size (map some (map data_frame_bytes (f ∷ frames))) (some raw)
      ≡ returns (record {
        result = 0;
        n_file = htobe32 f.n_file;
        n_frame = length (f ∷ frames);
        frames = some (f ∷ frames);
      })
unfolding dumped_frames
dumped_frames_lem f frames raw size h whole few space =
    let bytes = concat (map data_frame_bytes (f ∷ frames)) in
    let count : size / 534 % 65536 ≡ length (f ∷ frames) = omega arith in
    let run : read_dump (length (f ∷ frames)) (map some (map data_frame_bytes (f ∷ frames))) 0 raw
        ≡ returns bytes =
      subst (λ n. read_dump n (map some (map data_frame_bytes (f ∷ frames))) 0 raw ≡ returns bytes)
        (length-map (f ∷ frames))
        (read_dump_lem (map data_frame_bytes (f ∷ frames)) 0 [] raw (sizes_of (f ∷ frames) h) refl
          (omega (arith, space, whole, length-map (f ∷ frames)))) in
    let enough : leb 12 (length bytes) ≡ true = le→leb 12 (length bytes) (
      omega (
        arith,
        length-append (data_frame_bytes f) (concat (map data_frame_bytes frames)),
        length-data_frame_bytes f h.0,
      )) in
    rw
      (
        count,
        run,
        enough,
        first_number f (concat (map data_frame_bytes frames)) h.0,
        frames_at_lem (f ∷ frames) h,
      )
      refl

-- The bytes of write_data_frame.
abbrev pub dump_of : DataFrame → List ℕ
dump_of f = (write_data_frame f (some 534)).0

dumps-network :
    (frames : List DataFrame)
    → map dump_of frames ≡ map data_frame_bytes (map network_data_frame frames)
unfolding write_data_frame
dumps-network [] = refl
dumps-network (f ∷ frames) = ap (◌∷◌ (dump_of f)) (dumps-network frames)

network-IsDataFrame :
    (frames : List DataFrame)
    → All IsDataFrame frames
    → All IsDataFrame (map network_data_frame frames)
network-IsDataFrame [] h = tt
network-IsDataFrame (f ∷ frames) h =
    (network_data_frame-IsDataFrame f h.0, network-IsDataFrame frames h.1)

length-network : (frames : List DataFrame) → length (map network_data_frame frames) ≡ length frames
length-network [] = refl
length-network (f ∷ frames) = ap suc (length-network frames)

network_number :
    (f : DataFrame) → IsDataFrame f → htobe32 (DataFrame.n_file (network_data_frame f)) ≡ f.n_file
unfolding network_data_frame
network_number f h = htobe32-htobe32 f.n_file h.n_file

pub closed_lem :
    (closed : Bool) (number count : ℕ) (made : Option (List DataFrame))
    → ◌≡◌ {A = Call GotFrames}
        (returns (
          close_file closed
            (record { result = 0; n_file = number; n_frame = count; frames = made })))
        (returns (record {
          result = if closed then 0 else 2;
          n_file = number;
          n_frame = count;
          frames = made;
        }))
unfolding close_file
closed_lem true number count made = refl
closed_lem false number count made = refl

-- A file that holds what write_data_frame wrote for up to 65535 frames, one frame a read: with the
-- option `binary` get_data_frames takes the number of the first frame, the number of the frames, and
-- the frames in network order, whose bytes are those that were written.
pub get_data_frames-dump :
    (file : PictureFile) (f : DataFrame) (frames : List DataFrame) (raw : List ℕ)
    (memory : Option (List DataFrame)) (before : GotFrames)
    → All IsDataFrame (f ∷ frames)
    → length (f ∷ frames) < 65536
    → file.opened ≡ true
    → file.size ≡ some (534 * length (f ∷ frames))
    → file.reads ≡ map some (map dump_of (f ∷ frames))
    → length raw ≡ 534 * length (f ∷ frames)
    → (get_data_frames file true (some raw) memory before
        ≡ returns (record {
          result = if file.closed then 0 else 2;
          n_file = f.n_file;
          n_frame = length (f ∷ frames);
          frames = some (map network_data_frame (f ∷ frames));
        }))
      × (map data_frame_bytes (map network_data_frame (f ∷ frames)) ≡ map dump_of (f ∷ frames))
unfolding get_data_frames
get_data_frames-dump file f frames raw memory before h few opened sized read space =
    let count = length-network (f ∷ frames) in
    let run =
      dumped_frames_lem (network_data_frame f) (map network_data_frame frames) raw
        (534 * length (f ∷ frames)) (network-IsDataFrame (f ∷ frames) h) (omega (arith, count))
        (omega (arith, count)) space in
    (
      rw
          (
            opened,
            sized,
            read ∙ ap (map some) (dumps-network (f ∷ frames)),
            run,
            network_number f h.0,
            count,
          )
          (closed_lem file.closed f.n_file (length (f ∷ frames)) _),
      sym (dumps-network (f ∷ frames)),
    )

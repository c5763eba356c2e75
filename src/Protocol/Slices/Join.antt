-- ===== src/Protocol/Slices/Join.antt =====
-- Data that data_to_data_frames cuts is what data_frames_to_data puts together.
use soc.Common.{
  ℕ, suc, ◌+◌, ◌-◌, ◌*◌, ◌%◌, ◌^◌, ◌≤◌, ◌<◌, ◌≡◌, refl, sym, ap, subst, ◌∙◌, List, [], ◌∷◌, ◌++◌,
  take, take_all, drop, length, length-take, length-drop, length-append, replicate, take-append,
  take-append-drop, append-nil, arith, All, true, false, ltb, leb, if◌then◌else◌, lt→ltb, le→leb,
}
use soc.Common.Effects.{returns, faults}
use soc.Protocol.Data.{DataFrame, tp_header}
use soc.Protocol.Slices.{
  last_slice, slices, frames_needed, data_to_data_frames, data_frames_to_data,
  data_frame_to_data_len,
}

-- `frames` hold `p`: every payload has 512 bytes, all but the last are full, the last is padded with
-- zeros and not empty.
pub data Holds : List ℕ → List DataFrame → Type 0 where
  end :
      (p : List ℕ) (f : DataFrame)
      → f.data_len ≡ length p
      → 0 < length p
      → length p ≤ 512
      → f.payload ≡ p ++ replicate (512 - length p) 0
      → Holds p (f ∷ [])
  more :
      {p : List ℕ} {frames : List DataFrame} (s : List ℕ) (f : DataFrame)
      → f.data_len ≡ 512
      → f.payload ≡ s
      → length s ≡ 512
      → Holds p frames
      → Holds (s ++ p) (f ∷ frames)

-- What alloc_data_frames sets in a frame before it fills it, and that the rest fits its types.
abbrev pub Prepared : DataFrame → Type 0
Prepared f =
    (f.header ≡ tp_header)
    × (f.n_total_frame < 16777216)
    × (f.flag < 256)
    × (f.n_file < 4294967296)
    × (f.n_frame < 65536)
    × (f.total_data_len < 4294967296)
    × (f.check_sum < 65536)

last_slice_lem :
    (len i : ℕ) (p : List ℕ) (f : DataFrame) (frames : List DataFrame)
    → len ≡ length p + i * 512
    → i * 512 < 2 ^ 64
    → length p ≤ 512
    → last_slice len i p f frames
      ≡ returns
          (record f { data_len = length p; payload = p ++ replicate (512 - length p) 0 } ∷ frames)
unfolding last_slice
last_slice_lem len i p f frames e b h =
    let d : (len + 2 ^ 64 - i * 512) % 65536 ≡ length p = omega arith in
    rw d (rw (take_all (length p) p (omega arith), fits, within))
  where
    fits : leb (length p) 512 ≡ true
    fits = ground arith

    within : leb (length p) (length p) ≡ true
    within = ground arith

slices-full :
    (n len i : ℕ) (p : List ℕ) (f : DataFrame) (frames out : List DataFrame)
    → i + 1 < n
    → n < 65536
    → 512 ≤ length p
    → slices n len (i + 1) (drop 512 p) frames ≡ returns out
    → slices n len i p (f ∷ frames)
      ≡ returns (record f { data_len = 512; payload = take 512 p } ∷ out)
unfolding slices
slices-full n len i p f frames out h b l e =
    let index : (i + 1) % 65536 ≡ i + 1 = omega arith in
    let below : ltb i ((n + 2 ^ 64 - 1) % 2 ^ 64) ≡ true = lt→ltb _ _ (omega arith) in
    let enough : leb 512 (length p) ≡ true = le→leb _ _ l in rw (index, below, enough, e)

slices-last :
    (n len i : ℕ) (p : List ℕ) (f : DataFrame) (frames : List DataFrame)
    → n ≡ i + 1
    → n < 65536
    → slices n len i p (f ∷ frames) ≡ last_slice len i p f frames
unfolding slices
slices-last n len i p f frames h b =
    let last : ltb i ((n + 2 ^ 64 - 1) % 2 ^ 64) ≡ false = ground arith in rw last

pub slices-Holds :
    (n len i : ℕ) (p : List ℕ) (frames : List DataFrame)
    → len ≡ length p + i * 512
    → n ≡ length frames + i
    → n < 65536
    → (n - 1) * 512 < len
    → len ≤ n * 512
    → 0 < length frames
    → (out : List DataFrame) × (slices n len i p frames ≡ returns out)
      × Holds p out
      × (length out ≡ length frames)
      × (All Prepared frames → All Prepared out)
slices-Holds n len i p [] e c b lo hi pos = absurd (omega arith)
slices-Holds n len i p (f ∷ []) e c b lo hi pos = (
  record f { data_len = length p; payload = p ++ replicate (512 - length p) 0 } ∷ [],
  slices-last n len i p f [] (omega arith) b
      ∙ last_slice_lem len i p f [] e (omega arith) (omega arith),
  end p _ refl (omega arith) (omega arith) refl,
  refl,
  λ h. h,
)
slices-Holds n len i p (f ∷ g ∷ frames) e c b lo hi pos =
    let (out, eq, holds, size, prepared) =
      slices-Holds n len (i + 1) (drop 512 p) (g ∷ frames) (omega (arith, length-drop 512 p))
        (omega arith) b lo hi (omega arith) in
    (
      record f { data_len = 512; payload = take 512 p } ∷ out,
      slices-full n len i p f (g ∷ frames) out (omega arith) b (omega arith) eq,
      subst (λ q. Holds q (record f { data_len = 512; payload = take 512 p } ∷ out))
          (take-append-drop 512 p)
          (more (take 512 p) _ refl refl (omega (arith, length-take 512 p)) holds),
      ap suc size,
      λ h. (h.0, prepared h.1),
    )

pub frames_needed_bounds :
    (len : ℕ)
    → 0 < len
    → ((frames_needed len - 1) * 512 < len)
      × (len ≤ frames_needed len * 512)
      × (0 < frames_needed len)
unfolding frames_needed
frames_needed_bounds len h = ground arith

-- What one frame adds to the data, when its length is one that its payload has.
copy_one :
    (s pad rest : List ℕ) (f : DataFrame)
    → f.data_len ≡ length s
    → length s ≤ 512
    → f.payload ≡ s ++ pad
    → (if leb f.data_len 512 then returns (take f.data_len f.payload ++ rest) else faults)
      ≡ returns (s ++ rest)
copy_one s pad rest f d h e =
    let enough : leb (length s) 512 ≡ true = le→leb _ _ h in
    rw (d, e, enough, take-append s pad (length s) refl)

-- What `frames` hold is what data_frames_to_data writes, and data_frame_to_data_len is its length.
Holds-data_frames_to_data :
    {p : List ℕ} {frames : List DataFrame}
    → Holds p frames
    → data_frames_to_data frames (length frames) ≡ returns p
unfolding data_frames_to_data
Holds-data_frames_to_data (end p f d pos small e) =
    copy_one p (replicate (512 - length p) 0) [] f d small e ∙ ap returns (append-nil p)
Holds-data_frames_to_data (more {p} {frames} s f d e l h) =
    rw (Holds-data_frames_to_data h)
      (copy_one s [] p f (d ∙ sym l) (omega arith) (e ∙ sym (append-nil s)))

Holds-data_frame_to_data_len :
    {p : List ℕ} {frames : List DataFrame}
    → Holds p frames
    → length p < 2 ^ 64
    → data_frame_to_data_len frames (length frames) ≡ returns (length p)
unfolding data_frame_to_data_len
Holds-data_frame_to_data_len (end p f d pos small e) h = ap returns (omega arith)
Holds-data_frame_to_data_len (more {p} {frames} s f d e l h) k =
    rw (Holds-data_frame_to_data_len h (omega (arith, length-append s p)))
      (ap returns (omega (arith, length-append s p)))

pub joined :
    {p : List ℕ} {frames : List DataFrame} (n : ℕ)
    → Holds p frames
    → n ≡ length frames
    → length p < 2 ^ 64
    → (data_frames_to_data frames n ≡ returns p)
      × (data_frame_to_data_len frames n ≡ returns (length p))
joined n holds e h = rw e (Holds-data_frames_to_data holds, Holds-data_frame_to_data_len holds h)

-- data_to_data_frames of up to 65535 * 512 bytes, into as many frames as they need, returns frames
-- whose lengths data_frame_to_data_len adds up to the data's length and from which
-- data_frames_to_data writes the data back.
pub data_to_data_frames_lem :
    (bytes : List ℕ) (memory : List DataFrame)
    → 0 < length bytes
    → length bytes ≤ 65535 * 512
    → length memory ≡ frames_needed (length bytes)
    → (frames : List DataFrame) × (data_to_data_frames bytes (length bytes) memory ≡ returns frames)
      × (data_frames_to_data frames (frames_needed (length bytes)) ≡ returns bytes)
      × (data_frame_to_data_len frames (frames_needed (length bytes)) ≡ returns (length bytes))
unfolding data_to_data_frames
data_to_data_frames_lem bytes memory pos h m =
    let (lo, hi, some_frame) = frames_needed_bounds (length bytes) pos in
    let (frames, eq, holds, size, _) =
      slices-Holds (frames_needed (length bytes)) (length bytes) 0 bytes memory (omega arith)
        (omega arith) (omega arith) lo hi (omega arith) in
    let count : frames_needed (length bytes) ≡ length frames = sym m ∙ sym size in
    let both = joined (frames_needed (length bytes)) holds count (omega arith) in
    (frames, eq, both.0, both.1)

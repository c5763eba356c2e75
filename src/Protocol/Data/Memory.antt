-- ===== src/Protocol/Data/Memory.antt =====
-- The memory of a `data_frame_t` and its fields, one from the other.
use soc.Common.{
  ℕ, ◌+◌, ◌*◌, ◌/◌, ◌%◌, ◌<◌, ◌≡◌, refl, sym, ap, ◌∙◌, subst, List, [], ◌∷◌, ◌++◌, take, drop,
  length, length-append, All, arith, take-append, drop-append, take-append-drop, length-drop,
  length-take, All-drop, All-take,
}
use soc.Protocol.Words.{
  htobe16, htobe32, store16, load16, store8_loaded, store16_loaded, store24_loaded, store32_loaded,
  load8-lt, load16-lt, load24-lt, load32-lt, htobe16-lt, htobe32-lt,
}
use soc.Crc.{crc16}
use soc.Crc.Detect.{crc16-lt}
use soc.Protocol.Data.{
  DataFrame, IsDataFrame, data_frame_head, data_frame_bytes, data_frame_at, network_data_frame,
}

-- A header of four bytes, spelled out.
four : (xs : List ℕ) → length xs ≡ 4 → (a b c d : ℕ) × (xs ≡ a ∷ b ∷ c ∷ d ∷ [])
four (a ∷ b ∷ c ∷ d ∷ []) e = (a, b, c, d, refl)
four _ e = absurd (omega arith)

two : (xs : List ℕ) → length xs ≡ 2 → (a b : ℕ) × (xs ≡ a ∷ b ∷ [])
two (a ∷ b ∷ []) e = (a, b, refl)
two _ e = absurd (omega arith)

module _ (f : DataFrame) (h : IsDataFrame f) where
  spelled :
      (a b c d : ℕ)
      → data_frame_at (data_frame_bytes (record f { header = a ∷ b ∷ c ∷ d ∷ [] }))
        ≡ record f { header = a ∷ b ∷ c ∷ d ∷ [] }
  unfolding data_frame_at data_frame_bytes
  spelled a b c d = ground (
    arith,
    take-append f.payload (store16 f.check_sum []) 512 h.payload,
    drop-append f.payload (store16 f.check_sum []) 512 h.payload,
    h,
  )

  -- Memory holds what was stored.
  pub data_frame_at-data_frame_bytes : data_frame_at (data_frame_bytes f) ≡ f
  data_frame_at-data_frame_bytes =
      let (a, b, c, d, e) = four f.header h.header in
      subst
        (λ hd.
          data_frame_at (data_frame_bytes (record f { header = hd })) ≡ record f { header = hd })
        (sym e) (spelled a b c d)

tail :
    (p : List ℕ)
    → length p ≡ 514
    → All (λ x. x < 256) p
    → take 512 p ++ store16 (load16 (drop 512 p) 0) [] ≡ p
tail p e h =
    let (a, b, split) = two (drop 512 p) (omega (arith, length-drop 512 p)) in
    let last : All (λ x. x < 256) (a ∷ b ∷ []) =
      subst (All (λ x. x < 256)) split (All-drop _ 512 p h) in
    let kept : store16 (a + b * 256) [] ≡ a ∷ b ∷ [] = ground arith in
    rw split (rw kept (ap (◌++◌ (take 512 p)) (sym split) ∙ take-append-drop 512 p))

-- The memory of a struct is what it was loaded from.
pub data_frame_bytes-data_frame_at :
    (b : List ℕ) → length b ≡ 534 → All (λ x. x < 256) b → data_frame_bytes (data_frame_at b) ≡ b
unfolding data_frame_bytes data_frame_at
data_frame_bytes-data_frame_at
      (b0 ∷ b1 ∷ b2 ∷ b3 ∷ b4 ∷ b5 ∷ b6 ∷ b7 ∷ b8 ∷ b9 ∷ b10 ∷ b11 ∷ b12 ∷ b13 ∷ b14 ∷ b15 ∷ b16
        ∷ b17 ∷ b18 ∷ b19 ∷ p)
      e h =
    ap (λ r. b0 ∷ b1 ∷ b2 ∷ b3 ∷ r)
      (store24_loaded b4 b5 b6 _ _ h.1.1.1.1 λ h. store8_loaded b7 _ _ h λ h.
        store32_loaded b8 b9 b10 b11 _ _ h λ h. store16_loaded b12 b13 _ _ h λ h.
          store32_loaded b14 b15 b16 b17 _ _ h
            λ h. store16_loaded b18 b19 _ _ h λ h. tail p (omega arith) h)
data_frame_bytes-data_frame_at _ e h = absurd (omega arith)

pub network_data_frame-IsDataFrame :
    (f : DataFrame) → IsDataFrame f → IsDataFrame (network_data_frame f)
unfolding network_data_frame
network_data_frame-IsDataFrame f h = ground (
  arith,
  htobe32-lt f.n_file,
  htobe16-lt f.n_frame,
  htobe32-lt f.total_data_len,
  htobe16-lt f.data_len,
  crc16-lt (
      data_frame_head (record f {
        n_total_frame = htobe32 f.n_total_frame / 256 % 16777216;
        n_file = htobe32 f.n_file;
        n_frame = htobe16 f.n_frame;
        total_data_len = htobe32 f.total_data_len;
        data_len = htobe16 f.data_len;
      })),
)

-- The checksum covers the memory before it.
pub length-data_frame_bytes : (f : DataFrame) → IsDataFrame f → length (data_frame_bytes f) ≡ 534
unfolding data_frame_bytes
length-data_frame_bytes f h =
    let (a, b, c, d, e) = four f.header h.header in
    rw e (omega (arith, length-append f.payload (store16 f.check_sum []), h.payload))

pub take-data_frame_bytes :
    (f : DataFrame) → IsDataFrame f → take 532 (data_frame_bytes f) ≡ data_frame_head f
unfolding data_frame_bytes
take-data_frame_bytes f h =
    let (a, b, c, d, e) = four f.header h.header in
    rw (e, take-append f.payload (store16 f.check_sum []) 512 h.payload)

pub check_sum-network_data_frame :
    (f : DataFrame)
    → crc16 (data_frame_head (network_data_frame f)) ≡ (network_data_frame f).check_sum
unfolding network_data_frame data_frame_head
check_sum-network_data_frame f = refl

pub data_frame_at-IsDataFrame :
    (b : List ℕ) → length b ≡ 534 → All (λ x. x < 256) b → IsDataFrame (data_frame_at b)
unfolding data_frame_at
data_frame_at-IsDataFrame b e h = record {
  header = omega (arith, length-take 4 b);
  header_bytes = All-take _ 4 b h;
  n_total_frame = load24-lt b 4 h;
  flag = load8-lt b 7 h;
  n_file = load32-lt b 8 h;
  n_frame = load16-lt b 12 h;
  total_data_len = load32-lt b 14 h;
  data_len = load16-lt b 18 h;
  payload = omega (arith, length-take 512 (drop 20 b), length-drop 20 b);
  payload_bytes = All-take _ 512 (drop 20 b) (All-drop _ 20 b h);
  check_sum = load16-lt (drop 532 b) 0 (All-drop _ 532 b h);
}

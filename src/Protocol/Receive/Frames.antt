-- ===== src/Protocol/Receive/Frames.antt =====
-- Which 534 bytes are taken for a data frame, and what is stored for them.
use soc.Common.{
  ℕ, ◌<◌, ◌≡◌, refl, sym, ap, ◌∙◌, List, [], ◌∷◌, take, length, All, some, true, ==-self, arith,
}
use soc.Protocol.Words.{htobe16-htobe16, htobe32-htobe32, htobe24-htobe24, htobe24_back}
use soc.Protocol.Data.{
  DataFrame, IsDataFrame, data_frame_head, data_frame_bytes, data_frame_at, network_data_frame,
  tp_header,
}
use soc.Protocol.Data.Memory.{
  data_frame_at-data_frame_bytes, data_frame_bytes-data_frame_at, network_data_frame-IsDataFrame,
  take-data_frame_bytes, check_sum-network_data_frame, data_frame_at-IsDataFrame,
}
use soc.Protocol.Receive.{same_bytes, host_data_frame, accept_data_frame}
use soc.Crc.{crc16}

pub same_bytes_sound : (xs ys : List ℕ) → same_bytes xs ys ≡ true → xs ≡ ys
unfolding same_bytes
same_bytes_sound [] [] e = refl
same_bytes_sound [] (y ∷ ys) e = ground arith
same_bytes_sound (x ∷ xs) [] e = ground arith
same_bytes_sound (x ∷ xs) (y ∷ ys) e = ground (arith, same_bytes_sound xs ys)

pub same_bytes_self : (xs : List ℕ) → same_bytes xs xs ≡ true
unfolding same_bytes
same_bytes_self [] = refl
same_bytes_self (x ∷ xs) = ground (arith, same_bytes_self xs)

-- The frame that the receiver stores for `f`: `f`, with the checksum of the bytes sent.
unfoldable pub delivered : DataFrame → DataFrame
delivered f = record f { check_sum = (network_data_frame f).check_sum }

host_data_frame-network_data_frame :
    (f : DataFrame) → IsDataFrame f → host_data_frame (network_data_frame f) ≡ delivered f
unfolding network_data_frame host_data_frame delivered
host_data_frame-network_data_frame f h = rw (
  htobe24-htobe24 f.n_total_frame h.n_total_frame,
  htobe32-htobe32 f.n_file h.n_file,
  htobe16-htobe16 f.n_frame h.n_frame,
  htobe32-htobe32 f.total_data_len h.total_data_len,
  htobe16-htobe16 f.data_len h.data_len,
)

network_data_frame-host_data_frame :
    (t : DataFrame)
    → IsDataFrame t
    → crc16 (data_frame_head t) ≡ t.check_sum
    → network_data_frame (host_data_frame t) ≡ t
unfolding network_data_frame host_data_frame
network_data_frame-host_data_frame t h e = rw (
  htobe24_back t.n_total_frame h.n_total_frame,
  htobe32-htobe32 t.n_file h.n_file,
  htobe16-htobe16 t.n_frame h.n_frame,
  htobe32-htobe32 t.total_data_len h.total_data_len,
  htobe16-htobe16 t.data_len h.data_len,
  e,
)

header : (f : DataFrame) → f.header ≡ tp_header → (network_data_frame f).header ≡ tp_header
unfolding network_data_frame
header f e = e

-- A frame with the protocol's header that was sent intact is accepted and stored as it was.
pub accept-sent :
    (f : DataFrame)
    → IsDataFrame f
    → f.header ≡ tp_header
    → accept_data_frame (data_frame_bytes (network_data_frame f)) ≡ some (delivered f)
unfolding accept_data_frame
accept-sent f h e =
    let n : DataFrame = network_data_frame f in
    let hn : IsDataFrame n = network_data_frame-IsDataFrame f h in
    rw (
      data_frame_at-data_frame_bytes n hn,
      take-data_frame_bytes n hn,
      check_sum-network_data_frame f,
      ==-self,
      host_data_frame-network_data_frame f h,
      header f e,
      same_bytes_self tp_header,
    )

pub host_header : (t : DataFrame) → (host_data_frame t).header ≡ t.header
unfolding host_data_frame
host_header t = refl

pub accept_cases :
    (b : List ℕ) (g : DataFrame)
    → accept_data_frame b ≡ some g
    → ((data_frame_at b).header ≡ tp_header)
      × (crc16 (take 532 b) ≡ (data_frame_at b).check_sum)
      × (g ≡ host_data_frame (data_frame_at b))
unfolding accept_data_frame
accept_cases b g e = ground (arith, same_bytes_sound (data_frame_at b).header tp_header)

-- 534 bytes are accepted only if they are what write_data_frame writes for the frame that is
-- stored, and that frame has the protocol's header.
pub accept-only :
    (b : List ℕ) (g : DataFrame)
    → length b ≡ 534
    → All (λ x. x < 256) b
    → accept_data_frame b ≡ some g
    → (b ≡ data_frame_bytes (network_data_frame g)) × (g.header ≡ tp_header)
accept-only b g size bytes e = (sym encoded, ap (λ t. t.header) taken.2 ∙ host_header _ ∙ taken.0)
  where
    t : DataFrame
    t = data_frame_at b

    taken : (t.header ≡ tp_header) × (crc16 (take 532 b) ≡ t.check_sum) × (g ≡ host_data_frame t)
    taken = accept_cases b g e

    ht : IsDataFrame t
    ht = data_frame_at-IsDataFrame b size bytes

    stored : data_frame_bytes t ≡ b
    stored = data_frame_bytes-data_frame_at b size bytes

    summed : crc16 (data_frame_head t) ≡ t.check_sum
    summed = ap crc16 (sym (take-data_frame_bytes t ht) ∙ ap (take 532) stored) ∙ taken.1

    encoded : data_frame_bytes (network_data_frame g) ≡ b
    encoded =
        ap (λ u. data_frame_bytes (network_data_frame u)) taken.2
        ∙ ap data_frame_bytes (network_data_frame-host_data_frame t ht summed)
        ∙ stored

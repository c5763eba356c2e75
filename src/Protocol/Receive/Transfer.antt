-- ===== src/Protocol/Receive/Transfer.antt =====
-- A picture crosses the link: over several rounds every frame that arrives intact is kept.
use soc.Common.{
  ℕ, ◌-◌, ◌*◌, ◌≡◌, refl, ap, sym, ◌∙◌, ◌⊎◌, inl, inr, List, [], ◌∷◌, ◌++◌, map, append-nil,
  take-append, drop-append, concat, length, length-append, get_or, All, Bool-cases, some, ltb,
  arith,
}
use soc.Common.Effects.{returns}
use soc.Protocol.Data.{DataFrame, IsDataFrame, network_data_frame, write_data_frame, tp_header}
use soc.Protocol.Data.Memory.{length-data_frame_bytes, network_data_frame-IsDataFrame}
use soc.Protocol.Receive.{ready, read_loop, read_fuel, update_frame, collect, receive_data_frames}
use soc.Protocol.Receive.Reading.{Nonempty, read_loop-concat, length-le-concat}
use soc.Protocol.Receive.Frames.{delivered, accept-sent}

-- The bytes that write_data_frame writes for a frame.
abbrev pub wire : DataFrame → List ℕ
wire f = (write_data_frame f (some 534)).0

-- A frame as the sender prepares it.
pub record Sendable (f : DataFrame) : Type 0 where
  pub fits : IsDataFrame f
  pub header : f.header ≡ tp_header

-- The receiver's array while `fs` are being sent: each slot is empty or holds its frame.
abbrev pub Pending : List DataFrame → List DataFrame → Type 0
Pending [] [] = Unit {0}
Pending [] (_ ∷ _) = ⊥
Pending (_ ∷ _) [] = ⊥
Pending (f ∷ fs) (old ∷ olds) = ((old.data_len ≡ 0) ⊎ (old ≡ delivered f)) × Pending fs olds

length-wire : (f : DataFrame) → Sendable f → length (wire f) ≡ 534
unfolding write_data_frame
length-wire f s =
    length-data_frame_bytes (network_data_frame f) (network_data_frame-IsDataFrame f s.fits)

-- A slot that was empty takes the frame, and one that holds it keeps it.
update_frame-wire :
    (f old : DataFrame)
    → Sendable f
    → (old.data_len ≡ 0) ⊎ (old ≡ delivered f)
    → update_frame old (wire f) ≡ (0, delivered f)
unfolding update_frame write_data_frame
update_frame-wire f old s p = elim (Bool-cases (ltb 0 old.data_len)) [
  | inl held ↦ rw held (ground (arith, p))
  | inr empty ↦ rw (empty, accept-sent f s.fits s.header)
]

-- The array may have more slots, which stay.
collect-wire :
    (fs olds more : List DataFrame)
    → All Sendable fs
    → Pending fs olds
    → collect (length fs) (olds ++ more) (concat (map wire fs))
      ≡ returns (0, map delivered fs ++ more)
unfolding collect
collect-wire [] [] more s p = refl
collect-wire [] (o ∷ olds) more s p = absurd p
collect-wire (f ∷ fs) [] more s p = absurd p
collect-wire (f ∷ fs) (o ∷ olds) more s p = rw (
  take-append (wire f) (concat (map wire fs)) 534 (length-wire f s.0),
  drop-append (wire f) (concat (map wire fs)) 534 (length-wire f s.0),
  update_frame-wire f o s.0 p.0,
  collect-wire fs olds more s.1 p.1,
)

length-wires :
    (fs : List DataFrame) → All Sendable fs → length (concat (map wire fs)) ≡ 534 * length fs
length-wires [] s = refl
length-wires (f ∷ fs) s =
    omega
      (arith, length-append (wire f) (concat (map wire fs)), length-wire f s.0, length-wires fs s.1)

pub receive-wires_more :
    (fs olds more : List DataFrame) (c : List ℕ) (cs : List (List ℕ))
    → All Sendable fs
    → Pending fs olds
    → All Nonempty (c ∷ cs)
    → concat (c ∷ cs) ≡ concat (map wire fs)
    → receive_data_frames ready (λ k. get_or (c ∷ cs) k []) (olds ++ more) (length fs)
      ≡ returns (0, map delivered fs ++ more)
unfolding receive_data_frames
receive-wires_more fs olds more c cs s p n e =
    rw (whole, receive_data_frames)
      (let none_left : len - length (concat (map wire fs)) ≡ 0 = omega (arith, length-wires fs s) in
        rw (none_left, append-nil) (collect-wire fs olds more s p))
  where
    len : ℕ
    len = 534 * length fs

    whole :
        read_loop (read_fuel len) (λ k. get_or (c ∷ cs) k []) 0 len [] 0
        ≡ some (record { temp = concat (map wire fs); count = 0 })
    whole =
        read_loop-concat c cs (read_fuel len) 0 len (λ k. get_or (c ∷ cs) k []) [] 0
          (λ i. ap (λ k. get_or (c ∷ cs) k []) (omega arith)) n (ap length e ∙ length-wires fs s)
          (omega (arith, length-le-concat (c ∷ cs) n, ap length e, length-wires fs s))
        ∙ ap (λ t. some (record { temp = t; count = 0 })) e

-- If epoll_wait reports data, calloc finds its memory, the bytes that write_data_frame writes for
-- `fs` arrive in any non-empty pieces, and each slot
-- of the receiver's array is empty or already holds its frame, then receive_data_frames returns 0
-- and the array holds `fs` in order, each with the checksum of the bytes sent for it.
pub receive-wires :
    (fs olds : List DataFrame) (c : List ℕ) (cs : List (List ℕ))
    → All Sendable fs
    → Pending fs olds
    → All Nonempty (c ∷ cs)
    → concat (c ∷ cs) ≡ concat (map wire fs)
    → receive_data_frames ready (λ k. get_or (c ∷ cs) k []) olds (length fs)
      ≡ returns (0, map delivered fs)
receive-wires fs olds c cs s p n e =
    ap (λ frames. receive_data_frames ready (λ k. get_or (c ∷ cs) k []) frames (length fs))
      (sym (append-nil olds))
    ∙ receive-wires_more fs olds [] c cs s p n e
    ∙ ap (λ frames. returns (0, frames)) (append-nil (map delivered fs))

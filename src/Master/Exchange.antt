-- ===== src/Master/Exchange.antt =====
-- The answers that the master takes, and the slave's among them.
use soc.Common.{
  ℕ, ◌≡◌, refl, ◌∙◌, List, [], ◌∷◌, ◌++◌, Option, none, some, true, false, ◌==◌, if◌then◌else◌, All,
  Bool-cases, inl, inr, arith,
}
use soc.Common.Effects.{
  Call, returns, ℤ, pos, is_positive, Ends, on_return, Ends-bind, Ends-if, Ends-value,
}
use soc.Protocol.Control.{Frame, zero_frame, send_frame, receive_frame}
use soc.Protocol.Control.RoundTrip.{send_frame-written}
use soc.Master.{Attempt, unanswered, send_and_receive_frame}

-- An answer to a request.
abbrev pub IsAnswer : Frame → Frame → Type 0
IsAnswer request g =
    (g.address ≡ 1) × (g.frame_type ≡ request.frame_type) × (g.n_file ≡ request.n_file)

answered_sound : (n : ℤ) (g request : Frame) → unanswered n g request ≡ false → IsAnswer request g
unfolding unanswered
answered_sound n g request e = ground arith

abbrev Accepted : Frame → Option (Frame × List Attempt) → Type 0
Accepted request none = Unit {0}
Accepted request (some r) = IsAnswer request r.0

taken :
    (n : ℤ) (g request : Frame) (attempts : List Attempt)
    (rest : Call (Option (Frame × List Attempt)))
    → Ends (Accepted request) rest
    → Ends
        (Accepted request)
        (if unanswered n g request then rest else returns (some (g, attempts)))
taken n g request attempts rest h = elim (Bool-cases (unanswered n g request)) [
  | inl again ↦ rw again h
  | inr answered ↦
      rw answered (on_return (some (g, attempts)) (answered_sound n g request answered))
]

exchange-Accepted :
    (attempts : List Attempt) (request : Frame)
    → Ends (Accepted request) (send_and_receive_frame attempts request)
unfolding send_and_receive_frame
exchange-Accepted [] request = on_return none tt
exchange-Accepted (a ∷ attempts) request =
    Ends-bind (send_frame a.write_ready request a.written).1 _ λ sent.
      Ends-if (is_positive sent)
        (Ends-bind (receive_frame a.read_ready zero_frame a.read) _
          λ (r : ℤ × Frame). taken r.0 r.1 request attempts _ (exchange-Accepted attempts request))
        (exchange-Accepted attempts request)

-- Whatever the line brings and in whatever rounds, a frame that send_and_receive_frame stores when it
-- ends has the slave's address, and the type and the picture number of the request.
pub send_and_receive_frame-answers :
    (attempts rest : List Attempt) (request g : Frame)
    → send_and_receive_frame attempts request ≡ returns (some (g, rest))
    → (g.address ≡ 1) × (g.frame_type ≡ request.frame_type) × (g.n_file ≡ request.n_file)
send_and_receive_frame-answers attempts rest request g e =
    Ends-value (Accepted request) (some (g, rest)) (exchange-Accepted attempts request) e

-- A round in which the request is written but no answer comes in time.
unfoldable pub TimesOut : Attempt → Type 0
TimesOut a = (a.write_ready ≡ true) × (a.written ≡ some 12) × (a.read_ready ≡ false)

send_and_receive_frame-TimesOut :
    (a : Attempt) (attempts : List Attempt) (request : Frame)
    → TimesOut a
    → send_and_receive_frame (a ∷ attempts) request ≡ send_and_receive_frame attempts request
unfolding send_and_receive_frame unanswered receive_frame TimesOut
send_and_receive_frame-TimesOut a attempts request h =
    rw (h.0, h.1, h.2, send_frame-written request) refl

pub send_and_receive_frame-timeouts :
    (lost attempts : List Attempt) (request : Frame)
    → All TimesOut lost
    → send_and_receive_frame (lost ++ attempts) request ≡ send_and_receive_frame attempts request
send_and_receive_frame-timeouts [] attempts request h = refl
send_and_receive_frame-timeouts (a ∷ lost) attempts request h =
    send_and_receive_frame-TimesOut a (lost ++ attempts) request h.0
    ∙ send_and_receive_frame-timeouts lost attempts request h.1

-- A round whose answer is right ends the loop.
pub send_and_receive_frame-answered :
    (a : Attempt) (attempts : List Attempt) (request g : Frame) (sent : List ℕ)
    → a ≡ record { write_ready = true; written = some 12; read_ready = true; read = some sent }
    → receive_frame true zero_frame (some sent) ≡ returns (pos 12, g)
    → IsAnswer request g
    → send_and_receive_frame (a ∷ attempts) request ≡ returns (some (g, attempts))
unfolding send_and_receive_frame unanswered
send_and_receive_frame-answered a attempts request g sent e r (address, frame_type, n_file) =
    let is_slave : (g.address == 1) ≡ true = ground arith in
    let same_type : (g.frame_type == request.frame_type) ≡ true = ground arith in
    let same_file : (g.n_file == request.n_file) ≡ true = ground arith in
    rw (e, send_frame-written request, r, is_slave, same_type, same_file) refl

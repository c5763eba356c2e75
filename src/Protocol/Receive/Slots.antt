-- ===== src/Protocol/Receive/Slots.antt =====
-- What receive_data_frames does to the receiver's array whatever arrives: it neither runs past the
-- array nor waits for ever, keeps what was received before, and counts what is still missing.
use soc.Common.{
  ℕ, zero, suc, ◌+◌, ◌-◌, ◌*◌, ◌%◌, ◌≤◌, ◌<◌, ◌≡◌, refl, ap, ◌∙◌, ◌⊎◌, inl, inr, List, [], ◌∷◌,
  ◌++◌, take, drop, length, replicate, Option-cases, Bool-cases, some, ltb, arith,
}
use soc.Common.Effects.{returns}
use soc.Protocol.Data.{DataFrame, tp_header}
use soc.Protocol.Receive.{
  ready, read_fuel, accept_data_frame, update_frame, collect, receive_data_frames,
}
use soc.Protocol.Receive.Reading.{read_loop_total}
use soc.Protocol.Receive.Frames.{accept_cases, host_header}

-- `missing` of the first `n` slots still fail; every slot that held a frame holds the same one, and
-- every other visited slot is unchanged and counted, or holds a frame with the protocol's header.
pub data Slots : ℕ → List DataFrame → ℕ → List DataFrame → Type 0 where
  done : (olds : List DataFrame) → Slots zero olds 0 olds
  held :
      {n missing : ℕ} {olds news : List DataFrame} (old : DataFrame)
      → 0 < old.data_len
      → Slots n olds missing news
      → Slots (suc n) (old ∷ olds) missing (old ∷ news)
  accepted :
      {n missing : ℕ} {olds news : List DataFrame} (old new : DataFrame)
      → old.data_len ≡ 0
      → new.header ≡ tp_header
      → Slots n olds missing news
      → Slots (suc n) (old ∷ olds) missing (new ∷ news)
  refused :
      {n missing : ℕ} {olds news : List DataFrame} (old : DataFrame)
      → old.data_len ≡ 0
      → Slots n olds missing news
      → Slots (suc n) (old ∷ olds) (suc missing) (old ∷ news)

missing-le : {n missing : ℕ} {olds news : List DataFrame} → Slots n olds missing news → missing ≤ n
missing-le (done olds) = omega arith
missing-le (held old h s) = omega (arith, missing-le s)
missing-le (accepted old new z h s) = omega (arith, missing-le s)
missing-le (refused old z s) = omega (arith, missing-le s)

host_header_of :
    (bytes : List ℕ) (new : DataFrame) → accept_data_frame bytes ≡ some new → new.header ≡ tp_header
host_header_of bytes new e =
    let taken = accept_cases bytes new e in ap (λ t. t.header) taken.2 ∙ host_header _ ∙ taken.0

update_frame_cases :
    (old : DataFrame) (bytes : List ℕ)
    → ((0 < old.data_len) × (update_frame old bytes ≡ (0, old)))
      ⊎ (((old.data_len ≡ 0) × (update_frame old bytes ≡ (1, old)))
          ⊎ ((new : DataFrame) × (old.data_len ≡ 0)
              × (new.header ≡ tp_header)
              × (update_frame old bytes ≡ (0, new))))
unfolding update_frame
update_frame_cases old bytes = elim (Bool-cases (ltb 0 old.data_len)) [
  | inl more ↦ inl (ground arith, rw more)
  | inr empty ↦ elim (Option-cases (accept_data_frame bytes)) [
    | inl no_frame ↦ inr (inl (ground arith, rw (empty, no_frame)))
    | inr (new, e) ↦ inr (inr (new, ground arith, host_header_of bytes new e, rw (empty, e)))
  ]
]

collect-step :
    (n m missing total : ℕ) (old f : DataFrame) (olds news : List DataFrame) (temp : List ℕ)
    → collect n olds (drop 534 temp) ≡ returns (missing, news)
    → update_frame old (take 534 temp) ≡ (m, f)
    → m + missing ≡ total
    → total < 65536
    → collect (suc n) (old ∷ olds) temp ≡ returns (total, f ∷ news)
unfolding collect
collect-step n m missing total old f olds news temp e u sum small =
    let fits : (m + missing) % 65536 ≡ total = omega arith in rw (e, u, fits)

collect-Slots :
    (n : ℕ) (olds : List DataFrame) (temp : List ℕ)
    → n ≤ length olds
    → n < 65536
    → (missing : ℕ) × (news : List DataFrame) × (collect n olds temp ≡ returns (missing, news))
      × Slots n olds missing news
unfolding collect
collect-Slots zero olds temp h k = (0, olds, refl, done olds)
collect-Slots (suc n) [] temp h k = absurd (omega arith)
collect-Slots (suc n) (old ∷ olds) temp h k =
    let (missing, news, e, s) = collect-Slots n olds (drop 534 temp) (omega arith) (omega arith) in
    elim (update_frame_cases old (take 534 temp)) [
      | inl (more, u) ↦ (
        missing,
        old ∷ news,
        step 0 missing missing old news e u (omega arith) (omega (arith, missing-le s)),
        held old more s,
      )
      | inr (inl (empty, u)) ↦ (
        suc missing,
        old ∷ news,
        step 1 missing (suc missing) old news e u (omega arith) (omega (arith, missing-le s)),
        refused old empty s,
      )
      | inr (inr (new, empty, hd, u)) ↦ (
        missing,
        new ∷ news,
        step 0 missing missing new news e u (omega arith) (omega (arith, missing-le s)),
        accepted old new empty hd s,
      )
    ]
  where
    step :
        (m missing total : ℕ) (f : DataFrame) (news : List DataFrame)
        → collect n olds (drop 534 temp) ≡ returns (missing, news)
        → update_frame old (take 534 temp) ≡ (m, f)
        → m + missing ≡ total
        → total < 65536
        → collect (suc n) (old ∷ olds) temp ≡ returns (total, f ∷ news)
    step m missing total f news = collect-step n m missing total old f olds news temp

-- If epoll_wait reports data, calloc finds its memory and the array has a slot for each of the `n` announced frames (fewer
-- than 65536), receive_data_frames returns, whatever the reads answer. Slots that held a frame keep
-- it; every other visited slot takes a frame with the protocol's header, or stays as it was and is
-- counted in the result; slots past the `n`-th stay as they were.
pub receive-Slots :
    (answers : ℕ → List ℕ) (olds : List DataFrame) (n : ℕ)
    → n ≤ length olds
    → n < 65536
    → (missing : ℕ) × (news : List DataFrame) × (receive_data_frames ready answers olds n
        ≡ returns (missing, news))
      × Slots n olds missing news
unfolding receive_data_frames
receive-Slots answers olds n h k =
    let (r, e, _) =
      read_loop_total (read_fuel len) 0 len answers [] 0 (omega arith) (omega arith)
        (omega arith) in
    let (missing, news, c, s) =
      collect-Slots n olds (r.temp ++ replicate (len - length r.temp) 0) h k in
    (missing, news, rw (e, receive_data_frames) c, s)
  where
    len : ℕ
    len = 534 * n

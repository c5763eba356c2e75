-- ===== src/Protocol/Receive/Reading.antt =====
-- The read loop ends, stays within the buffer, and loses no byte.
use soc.Common.{
  ℕ, zero, suc, ◌+◌, ◌-◌, ◌*◌, ◌≤◌, ◌<◌, ◌≡◌, refl, ap, ◌∙◌, ◌⊎◌, inl, inr, List, [], ◌∷◌, ◌++◌,
  take, take_all, concat, length, length-append, length-take, get_or, All, append-nil, append_assoc,
  some, Bool-cases, true, ◌&&◌, ltb, arith,
}
use soc.Protocol.Receive.{Progress, absorb, read_loop}

-- How the loop may end: within the buffer, and full or after ten reads in a row with nothing.
pub record Ended (len : ℕ) (r : Progress) : Type 0 where
  pub within : length r.temp ≤ len
  pub reason : (length r.temp ≡ len) ⊎ (r.count ≡ 10)

-- A round keeps to the buffer, and brings a byte or counts one attempt.
absorb_lem :
    (len : ℕ) (temp : List ℕ) (count : ℕ) (answer : List ℕ)
    → length temp ≤ len
    → length answer ≤ len - length temp
    → let r = absorb temp count answer in
      (length r.temp ≤ len)
      × (((r.count ≡ 0) × (length temp < length r.temp))
          ⊎ ((r.count ≡ count + 1) × (length r.temp ≡ length temp)))
unfolding absorb
absorb_lem len temp count [] h k = (h, inr (refl, refl))
absorb_lem len temp count (x ∷ xs) h k = ground (arith, length-append temp (x ∷ xs))

-- The read loop ends on any answers: with fuel for ten rounds per byte that is wanted and for the
-- rounds left without a byte, it stops at some progress that keeps to the buffer, and there either
-- every byte has come or ten reads in a row brought nothing.
pub read_loop_total :
    (fuel k len : ℕ) (answers : ℕ → List ℕ) (temp : List ℕ) (count : ℕ)
    → length temp ≤ len
    → count < 10
    → (len - length temp) * 10 + (10 - count) < fuel
    → (r : Progress) × (read_loop fuel answers k len temp count ≡ some r) × Ended len r
unfolding read_loop
read_loop_total zero k len answers temp count h c f = absurd (omega arith)
read_loop_total (suc fuel) k len answers temp count h c f =
    elim (Bool-cases (ltb (length r.temp) len && ltb r.count 10)) [
      | inl more ↦ rw more (
          read_loop_total fuel (k + 1) len answers r.temp r.count bounds.0 (ground (arith, bounds))
            (ground (arith, bounds)))
      | inr stop ↦ (r, rw stop, record { within = bounds.0; reason = ground (arith, bounds) })
    ]
  where
    r : Progress
    r = absorb temp count (take (len - length temp) (answers k))

    bounds :
        (length r.temp ≤ len)
        × (((r.count ≡ 0) × (length temp < length r.temp))
            ⊎ ((r.count ≡ count + 1) × (length r.temp ≡ length temp)))
    bounds =
        absorb_lem len temp count _ h (omega (arith, length-take (len - length temp) (answers k)))

-- The answers that follow one another in a list; after them every read brings nothing.
abbrev pub Nonempty : List ℕ → Type 0
Nonempty c = 0 < length c

absorb-Nonempty :
    (temp : List ℕ) (count : ℕ) (c : List ℕ)
    → Nonempty c
    → absorb temp count c ≡ record { temp = temp ++ c; count = 0 }
unfolding absorb
absorb-Nonempty temp count [] h = absurd (omega arith)
absorb-Nonempty temp count (x ∷ c) h = refl

module _ (c : List ℕ) (cs : List (List ℕ)) (k len : ℕ) (answers : ℕ → List ℕ) (temp : List ℕ)
    (count : ℕ) (a : (i : ℕ) → answers (k + i) ≡ get_or (c ∷ cs) i []) (n : All Nonempty (c ∷ cs))
    (e : length (temp ++ concat (c ∷ cs)) ≡ len) where
  length-concat : length temp + (length c + length (concat cs)) ≡ len
  length-concat = omega (arith, length-append temp (c ++ concat cs), length-append c (concat cs), e)

  round :
      absorb temp count (take (len - length temp) (answers k))
      ≡ record { temp = temp ++ c; count = 0 }
  round =
      let here : answers k ≡ c = ap answers (omega arith) ∙ a 0 in
      rw (here, take_all (len - length temp) c (omega (arith, length-concat)))
        (absorb-Nonempty temp count c n.0)

-- Answers that bring bytes and fill the buffer are taken whole and in order.
pub read_loop-concat :
    (c : List ℕ) (cs : List (List ℕ)) (fuel k len : ℕ) (answers : ℕ → List ℕ) (temp : List ℕ)
    (count : ℕ)
    → ((i : ℕ) → answers (k + i) ≡ get_or (c ∷ cs) i [])
    → All Nonempty (c ∷ cs)
    → length (temp ++ concat (c ∷ cs)) ≡ len
    → length (c ∷ cs) ≤ fuel
    → read_loop fuel answers k len temp count
      ≡ some (record { temp = temp ++ concat (c ∷ cs); count = 0 })
unfolding read_loop
read_loop-concat c cs zero k len answers temp count a n e f = absurd (omega arith)
read_loop-concat c [] (suc fuel) k len answers temp count a n e f =
    rw (round c [] k len answers temp count a n e) (
      ground (
        arith,
        append-nil c,
        length-concat c [] k len answers temp count a n e,
        length-append temp c,
      ))
read_loop-concat c (d ∷ cs) (suc fuel) k len answers temp count a n e f =
    rw (round c (d ∷ cs) k len answers temp count a n e, more)
      (read_loop-concat d cs fuel (k + 1) len answers (temp ++ c) 0
          (λ i. ap answers (omega arith) ∙ a (suc i)) n.1
          (ap length (append_assoc temp c (concat (d ∷ cs))) ∙ e) (omega arith)
        ∙ ap (λ t. some (record { temp = t; count = 0 })) (append_assoc temp c (concat (d ∷ cs))))
  where
    more : (ltb (length (temp ++ c)) len && ltb 0 10) ≡ true
    more = ground (
      arith,
      length-concat c (d ∷ cs) k len answers temp count a n e,
      length-append temp c,
      length-append d (concat cs),
      n,
    )

pub length-le-concat : (cs : List (List ℕ)) → All Nonempty cs → length cs ≤ length (concat cs)
length-le-concat [] n = omega arith
length-le-concat (c ∷ cs) n =
    omega (arith, length-append c (concat cs), length-le-concat cs n.1, n.0)

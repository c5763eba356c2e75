-- ===== src/Protocol/Gmm.antt =====
-- entropy_to_gmm of project-spec/meta-user/recipes-apps/autostart/src/transmission_protocol.c: the
-- coefficients of the entropy model, read nine at a time. A coefficient is the bits of an `int16_t`.
use soc.Common.{
  ℕ, zero, suc, ◌+◌, ◌%◌, ◌<◌, ◌≤◌, ◌≡◌, ◌≢◌, refl, ap, ◌∙◌, sym, Option, none, some, false, ltb,
  true, ==_iff, ◌==◌, if◌then◌else◌, Bool-cases, inl, inr, ltb→lt, arith,
}

-- `gmm_t`
pub record GmmT : Type 0 where
  pub prob1 : ℕ
  pub prob2 : ℕ
  pub prob3 : ℕ
  pub mean1 : ℕ
  pub mean2 : ℕ
  pub mean3 : ℕ
  pub std1 : ℕ
  pub std2 : ℕ
  pub std3 : ℕ

-- The entry made from the nine coefficients from index `i` on.
unfoldable pub gmm_at : (ℕ → ℕ) → ℕ → GmmT
gmm_at entropy i = record {
  mean1 = entropy i;
  mean2 = entropy (i + 1);
  mean3 = entropy (i + 2);
  std1 = entropy (i + 3);
  std2 = entropy (i + 4);
  std3 = entropy (i + 5);
  prob1 = entropy (i + 6);
  prob2 = entropy (i + 7);
  prob3 = entropy (i + 8);
}

-- The loop from `i` on, with the entries as a function of the index. Every access is below `len + 8`
-- in the coefficients and below `len` in the entries. `none` is for too little fuel.
unfoldable pub gmm_loop : ℕ → (ℕ → ℕ) → (ℕ → GmmT) → ℕ → ℕ → Option (ℕ → GmmT)
unfolding gmm_at
gmm_loop zero entropy gmm i len = none
gmm_loop (suc fuel) entropy gmm i len =
    let rest =
      gmm_loop fuel entropy (λ j. if j == i then gmm_at entropy i else gmm j) (i + 9) len in
    if ltb i len then rest else some gmm

unfoldable pub entropy_to_gmm : (ℕ → ℕ) → (ℕ → GmmT) → ℕ → Option (ℕ → GmmT)
unfolding gmm_loop
entropy_to_gmm entropy gmm len = gmm_loop (len + 1) entropy gmm 0 len

unset : (j i : ℕ) → j ≢ i → (a b : GmmT) → (if j == i then a else b) ≡ b
unset j i ne a b = let e : (j == i) ≡ false = ground arith in rw e refl

chosen : (j i : ℕ) → j ≡ i → (a b : GmmT) → (if j == i then a else b) ≡ a
chosen j i eq a b = let e : (j == i) ≡ true = ground arith in rw e refl

next_index : (j i : ℕ) → j % 9 ≡ 0 → i % 9 ≡ 0 → i ≤ j → j ≢ i → i + 9 ≤ j
next_index j i a b le ne = ground arith

-- The loop ends, and changes no entry whose index is not a multiple of nine above the start.
gmm_loop_lem :
    (fuel : ℕ) (entropy : ℕ → ℕ) (gmm : ℕ → GmmT) (i len : ℕ)
    → i % 9 ≡ 0
    → len < fuel + i
    → 0 < fuel
    → (out : ℕ → GmmT) × (gmm_loop fuel entropy gmm i len ≡ some out)
      × ((j : ℕ) → 0 < j % 9 → out j ≡ gmm j)
      × ((j : ℕ) → j < i → out j ≡ gmm j)
      × ((j : ℕ) → j % 9 ≡ 0 → i ≤ j → j < len → out j ≡ gmm_at entropy j)
      × ((j : ℕ) → len ≤ j → out j ≡ gmm j)
unfolding gmm_loop
gmm_loop_lem zero entropy gmm i len m f p = absurd (omega arith)
gmm_loop_lem (suc fuel) entropy gmm i len m f p = elim (Bool-cases (ltb i len)) [
  | inr stop ↦
      (gmm, rw stop refl, λ j h. refl, λ j h. refl, λ j a b c. absurd (ground arith), λ j h. refl)
  | inl more ↦
      let small : i < len = ltb→lt i len more in
      let (out, e, others, before, after, beyond) =
        gmm_loop_lem fuel entropy (λ j. if j == i then gmm_at entropy i else gmm j) (i + 9) len
          (omega arith) (omega arith) (omega arith) in
      (
        out,
        rw more e,
        λ j h. others j h ∙ unset j i (omega arith) (gmm_at entropy i) (gmm j),
        λ j h. before j (omega arith) ∙ unset j i (omega arith) (gmm_at entropy i) (gmm j),
        λ j a b c. elim (Bool-cases (j == i)) [
          | inl same ↦
              let index : j ≡ i = (==_iff j i).0 same in
              before j (omega arith)
              ∙ chosen j i index (gmm_at entropy i) (gmm j)
              ∙ ap (gmm_at entropy) (sym index)
          | inr other ↦ after j a (next_index j i a m b (ground arith)) c
        ],
        λ j h. beyond j h ∙ unset j i (omega arith) (gmm_at entropy i) (gmm j),
      )
]

-- entropy_to_gmm ends. It fills the entries whose index is a multiple of nine below `len`, each from
-- the nine coefficients at its own index, and leaves every other entry, and all memory from `len` on,
-- as it was.
pub entropy_to_gmm_lem :
    (entropy : ℕ → ℕ) (gmm : ℕ → GmmT) (len : ℕ)
    → (out : ℕ → GmmT) × (entropy_to_gmm entropy gmm len ≡ some out)
      × ((j : ℕ) → j % 9 ≡ 0 → j < len → out j ≡ gmm_at entropy j)
      × ((j : ℕ) → 0 < j % 9 → out j ≡ gmm j)
      × ((j : ℕ) → len ≤ j → out j ≡ gmm j)
unfolding entropy_to_gmm
entropy_to_gmm_lem entropy gmm len =
    let (out, e, others, _, filled, beyond) =
      gmm_loop_lem (len + 1) entropy gmm 0 len (omega arith) (omega arith) (omega arith) in
    (out, e, λ j a c. filled j a (omega arith) c, others, beyond)

-- ===== src/Master/Files/Numbers.antt =====
-- The numbers that the master notes for the files that it sends.
use soc.Common.{
  ℕ, ◌+◌, ◌≤◌, ◌<◌, ◌≡◌, ◌≢◌, ◌⊎◌, inl, inr, refl, sym, ap, ◌∙◌, List, [], ◌∷◌, length, get_elem?,
  get_elem?-set_self, get_elem?-set_ne, set, ltb, ltb→lt, Option, some, none, Bool, Bool-cases,
  false, ◌==◌, if◌then◌else◌, arith,
}
use soc.Common.Effects.{
  Call, returns, some_of_returns, exits, faults, ◌>?>◌, Ends, Ends-bind, Ends-then, Ends-if,
  Ends-value, >?>-some,
}
use soc.Protocol.Data.{DataFrame}
use soc.Protocol.Files.{GotFrames, get_data_frames}
use soc.Protocol.Files.Skips.{IsSkipped, get_data_frames-IsSkipped, get_data_frames-n_file}
use soc.Master.Pictures.{send_file}
use soc.Master.Files.{
  FileTransfer, SentFiles, file_request, store_number, dump_file, send_made, send_one, send_files,
}

-- A file either is skipped and leaves the numbers, or its own number is noted.
OneNumber : ℕ → FileTransfer → List ℕ → List ℕ → Type 0
OneNumber k t old new = (IsSkipped t.file × (new ≡ old)) ⊎ ((k < length old) × (new ≡ set old k k))

OneStep : ℕ → FileTransfer → SentFiles → Option SentFiles → Type 0
OneStep k t s none = Unit
OneStep k t s (some s') = OneNumber k t s.n_files s'.n_files

Ends-may :
    {A B : Type 0} (P : Option B → Type 0) (m : Call (Option A)) (f : A → Call (Option B))
    → P none
    → ((a : A) → Ends P (f a))
    → Ends P (m >?> f)
Ends-may P (returns none) f n h = Ends.on_return none n
Ends-may P (returns (some a)) f n h = h a
Ends-may P exits f n h = Ends.on_exit
Ends-may P faults f n h = Ends.on_fault

Ends-both :
    {A : Type 0} {P Q : A → Type 0} (m : Call A) → Ends P m → Ends Q m → Ends (λ a. P a × Q a) m
Ends-both {P = P} {Q = Q} (returns a) p q =
    Ends.on_return a (Ends-value P a p refl, Ends-value Q a q refl)
Ends-both exits p q = Ends.on_exit
Ends-both faults p q = Ends.on_fault

store_number-set :
    (n_files : List ℕ) (k n : ℕ)
    → Ends (λ ns. (k < length n_files) × (ns ≡ set n_files k n)) (store_number n_files k n)
unfolding store_number
store_number-set n_files k n = elim (Bool-cases (ltb k (length n_files))) [
  | inl inside ↦ rw inside (Ends.on_return _ (ltb→lt _ _ inside, refl))
  | inr outside ↦ rw outside Ends.on_fault
]

OneNumber-other :
    (k : ℕ) (t : FileTransfer) (old new : List ℕ) (j : ℕ)
    → OneNumber k t old new
    → k ≢ j
    → get_elem? new j ≡ get_elem? old j
unfolding OneNumber
OneNumber-other k t old new j (inl (skipped, e)) ne = ap (λ l. get_elem? l j) e
OneNumber-other k t old new j (inr (inside, e)) ne =
    ap (λ l. get_elem? l j) e ∙ get_elem?-set_ne old k j k ne

OneNumber-own :
    (k : ℕ) (t : FileTransfer) (old new : List ℕ)
    → OneNumber k t old new
    → (IsSkipped t.file × (get_elem? new k ≡ get_elem? old k)) ⊎ (get_elem? new k ≡ some k)
unfolding OneNumber
OneNumber-own k t old new (inl (skipped, e)) = inl (skipped, ap (λ l. get_elem? l k) e)
OneNumber-own k t old new (inr (inside, e)) =
    inr (ap (λ l. get_elem? l k) e ∙ get_elem?-set_self old k k inside)

module _ (dump : Bool) (out_dir : List ℕ) where
  send_made-OneStep :
      (k : ℕ) (t : FileTransfer) (got : GotFrames) (frames : List DataFrame) (s : SentFiles)
      → got.n_file ≡ k
      → Ends (OneStep k t s) (send_made false dump out_dir k t got frames s)
  unfolding send_made OneStep OneNumber
  send_made-OneStep k t got frames s e =
      Ends-then (store_number s.n_files k got.n_file) _ (store_number-set s.n_files k got.n_file)
        (λ ns stored.
          Ends-bind (if dump then dump_file out_dir k t got.n_frame frames else returns []) _
            (λ dumped.
              Ends-may (OneStep k t s)
                (send_file false t.first t.sending (file_request s.output_frame got) frames
                  s.n_total_frame)
                _ tt
                (λ p. Ends.on_return _ (inr (stored.0, stored.1 ∙ ap (λ n. set s.n_files k n) e)))))

  send_one-OneStep :
      (k : ℕ) (t : FileTransfer) (s : SentFiles)
      → Ends (OneStep k t s) (send_one false dump out_dir k t s)
  unfolding send_one OneStep OneNumber
  send_one-OneStep k t s =
      Ends-then (get_data_frames t.file false t.raw t.memory (record t.before { n_file = k })) _
        (Ends-both _
          (get_data_frames-IsSkipped t.file false t.raw t.memory (record t.before { n_file = k }))
          (get_data_frames-n_file t.file t.raw t.memory (record t.before { n_file = k })))
        (λ got h. elim (Bool-cases (got.result == 1)) [
          | inl one ↦ rw one (Ends.on_return _ (inl (h.0 (ground arith), refl)))
          | inr not_one ↦
              rw not_one (Ends-if (got.result == 3) Ends.on_exit (by_frames got got.frames h.1))
        ])
    where
      by_frames :
          (got : GotFrames) (frames : Option (List DataFrame))
          → got.n_file ≡ k
          → Ends (OneStep k t s) (elim frames [
            | none ↦ faults
            | some made ↦ send_made false dump out_dir k t got made s
          ])
      by_frames got none e = Ends.on_fault
      by_frames got (some made) e = send_made-OneStep k t got made s e

  -- The first of the files, and the loop over the others.
  send_files_step :
      (k : ℕ) (t : FileTransfer) (files : List FileTransfer) (s s' : SentFiles)
      → send_files false dump out_dir k (t ∷ files) s ≡ returns (some s')
      → (s1 : SentFiles) × OneNumber k t s.n_files s1.n_files
        × (send_files false dump out_dir (k + 1) files s1 ≡ returns (some s'))
  unfolding send_files OneNumber OneStep
  send_files_step k t files s s' e =
      let (s1, e1, e2) =
        >?>-some (send_one false dump out_dir k t s)
          (λ s1. send_files false dump out_dir (k + 1) files s1) s' e in
      (s1, Ends-value (OneStep k t s) (some s1) (send_one-OneStep k t s) e1, e2)

  send_files-earlier :
      (k : ℕ) (files : List FileTransfer) (s s' : SentFiles) (j : ℕ)
      → send_files false dump out_dir k files s ≡ returns (some s')
      → j < k
      → get_elem? s'.n_files j ≡ get_elem? s.n_files j
  unfolding send_files
  send_files-earlier k [] s s' j e below =
      ap (λ r. get_elem? (SentFiles.n_files r) j) (sym (some_of_returns s s' e))
  send_files-earlier k (t ∷ files) s s' j e below =
      let (s1, one, e2) = send_files_step k t files s s' e in
      send_files-earlier (k + 1) files s1 s' j e2 (omega arith)
      ∙ OneNumber-other k t s.n_files s1.n_files j one (ground arith)

-- For each file from `k` on: either it is skipped, and its number is what it was before the loop, or its
-- number is its place in the list.
abbrev pub HasNumbers : ℕ → List FileTransfer → List ℕ → List ℕ → Type 0
HasNumbers k [] old new = Unit {0}
HasNumbers k (t ∷ files) old new =
    ((IsSkipped t.file × (get_elem? new k ≡ get_elem? old k)) ⊎ (get_elem? new k ≡ some k))
    × HasNumbers (k + 1) files old new

module _ (dump : Bool) (out_dir : List ℕ) where
  numbers_from :
      (k : ℕ) (files : List FileTransfer) (old : List ℕ) (s s' : SentFiles)
      → send_files false dump out_dir k files s ≡ returns (some s')
      → ((j : ℕ) → k ≤ j → get_elem? s.n_files j ≡ get_elem? old j)
      → HasNumbers k files old s'.n_files
  unfolding send_files
  numbers_from k [] old s s' e same = tt
  numbers_from k (t ∷ files) old s s' e same =
      let (s1, one, e2) = send_files_step dump out_dir k t files s s' e in
      let kept : get_elem? s'.n_files k ≡ get_elem? s1.n_files k =
        send_files-earlier dump out_dir (k + 1) files s1 s' k e2 (omega arith) in
      (
        elim (OneNumber-own k t s.n_files s1.n_files one) [
          | inl (skipped, e3) ↦ inl (skipped, kept ∙ e3 ∙ same k (omega arith))
          | inr e3 ↦ inr (kept ∙ e3)
        ],
        numbers_from (k + 1) files old s1 s' e2 (λ j above.
            OneNumber-other k t s.n_files s1.n_files j one (ground arith) ∙ same j (omega arith)),
      )

  -- Whatever the files, their memory, the slave and the system calls are: if the first loop, not in
  -- binary mode, comes to its end, then for each file either get_data_frames could not open or measure
  -- it, and its entry of `n_files`, which the second loop asks the slave for, is still what malloc left
  -- there, or its entry is its place in the list.
  pub send_files-numbers :
      (files : List FileTransfer) (s s' : SentFiles)
      → send_files false dump out_dir 0 files s ≡ returns (some s')
      → HasNumbers 0 files s.n_files s'.n_files
  send_files-numbers files s s' e = numbers_from 0 files s.n_files s s' e (λ j above. refl)

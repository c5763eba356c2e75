-- ===== src/Protocol/Files/Skips.antt =====
-- Which files get_data_frames says it cannot open.
use soc.Common.{
  ℕ, ◌/◌, ◌%◌, ◌^◌, ◌≡◌, ◌≢◌, ◌⊎◌, refl, ◌∙◌, Bool-cases, ◌==◌, inl, inr, length, List, Option,
  none, some, Bool, true, false, leb, if◌then◌else◌, arith,
}
use soc.Common.Effects.{returns, ◌>>=◌, Ends, Ends-bind, Ends-if, Ends-then}
use soc.Protocol.Data.{DataFrame}
use soc.Protocol.Slices.{frames_needed, from_fd, alloc_data_frames}
use soc.Protocol.Files.{
  PictureFile, GotFrames, tp_flag_1_yuv420, read_dump, dumped_frames, cut_frames, close_file,
  get_data_frames,
}

-- A file that get_data_frames cannot open or measure is skipped.
pub data IsSkipped (file : PictureFile) : Type 0 where
  shut : file.opened ≡ false → IsSkipped file
  unmeasured : file.size ≡ none → IsSkipped file

-- The result of get_data_frames before it closes the file.
NotSkipped : GotFrames → Type 0
NotSkipped got = (got.result ≡ 0) ⊎ (got.result ≡ 3)

dumped_frames-NotSkipped :
    (size : ℕ) (reads : List (Option (List ℕ))) (raw : Option (List ℕ))
    → Ends NotSkipped (dumped_frames size reads raw)
unfolding dumped_frames NotSkipped
dumped_frames-NotSkipped size reads none = Ends.on_exit
dumped_frames-NotSkipped size reads (some raw) =
    Ends-bind (read_dump (size / 534 % 65536) reads 0 raw) _
      (λ memory. Ends-if (leb 12 (length memory)) (Ends.on_return _ (inl refl)) Ends.on_fault)

cut_frames-NotSkipped :
    (size : ℕ) (reads : List (Option (List ℕ))) (memory : Option (List DataFrame)) (n_file : ℕ)
    → Ends NotSkipped (cut_frames size reads memory n_file)
unfolding cut_frames NotSkipped
cut_frames-NotSkipped size reads memory n_file =
    Ends-bind
      (alloc_data_frames memory (frames_needed size % 65536) n_file (from_fd reads) tp_flag_1_yuv420
        (size % 2 ^ 32))
      _
      (λ frames.
        Ends.on_return _
          (elim frames
            as (λ f.
              (◌≡◌ {A = ℕ} (elim f [ none ↦ 3 | some made ↦ 0 ]) 0)
              ⊎ (◌≡◌ {A = ℕ} (elim f [ none ↦ 3 | some made ↦ 0 ]) 3)) [
                | none ↦ inr refl
                | some made ↦ inl refl
              ]))

close_file-result :
    (closed : Bool) (got : GotFrames) → NotSkipped got → (close_file closed got).result ≢ 1
unfolding close_file NotSkipped
close_file-result true got (inl e) = λ one. absurd (ground arith)
close_file-result false got (inl e) = λ one. absurd (ground arith)
close_file-result closed got (inr e) = λ one. absurd (ground arith)

pub get_data_frames-IsSkipped :
    (file : PictureFile) (binary : Bool) (raw : Option (List ℕ)) (memory : Option (List DataFrame))
    (before : GotFrames)
    → Ends (λ got. got.result ≡ 1 → IsSkipped file) (get_data_frames file binary raw memory before)
unfolding get_data_frames
get_data_frames-IsSkipped file binary raw memory before = by_answers file.opened file.size refl refl
  where
    made :
        (size : ℕ) (b : Bool)
        → Ends NotSkipped (
            if b
            then dumped_frames size file.reads raw
            else cut_frames size file.reads memory before.n_file)
    made size true = dumped_frames-NotSkipped size file.reads raw
    made size false = cut_frames-NotSkipped size file.reads memory before.n_file

    closes :
        (size : ℕ) (b : Bool)
        → Ends
            (λ got. got.result ≡ 1 → IsSkipped file)
            ((if b
                then dumped_frames size file.reads raw
                else cut_frames size file.reads memory before.n_file)
              >>= λ got. returns (close_file file.closed got))
    closes size b =
        Ends-then _ _ (made size b)
          (λ got q. Ends.on_return _ (λ one. absurd (close_file-result file.closed got q one)))

    by_answers :
        (opened : Bool) (size : Option ℕ)
        → file.opened ≡ opened
        → file.size ≡ size
        → Ends
            (λ got. got.result ≡ 1 → IsSkipped file)
            (if opened
              then elim size [
                | none ↦ returns (record before { result = 1 })
                | some n ↦
                    (if binary
                      then dumped_frames n file.reads raw
                      else cut_frames n file.reads memory before.n_file)
                    >>= λ got. returns (close_file file.closed got)
              ]
              else returns (record before { result = 1 }))
    by_answers false size e e' = Ends.on_return _ (λ one. IsSkipped.shut e)
    by_answers true none e e' = Ends.on_return _ (λ one. IsSkipped.unmeasured e')
    by_answers true (some n) e e' = closes n binary

pub get_data_frames-n_file :
    (file : PictureFile) (raw : Option (List ℕ)) (memory : Option (List DataFrame))
    (before : GotFrames)
    → Ends (λ got. got.n_file ≡ before.n_file) (get_data_frames file false raw memory before)
unfolding get_data_frames cut_frames close_file
get_data_frames-n_file file raw memory before = by_answers file.opened file.size
  where
    closes : (closed : Bool) (got : GotFrames) → (close_file closed got).n_file ≡ got.n_file
    closes closed got = elim (Bool-cases (got.result == 3)) [
      | inl three ↦ rw three refl
      | inr other ↦ elim (Bool-cases closed) [
        | inl yes_closed ↦ rw (other, yes_closed) refl
        | inr not_closed ↦ rw (other, not_closed) refl
      ]
    ]

    by_answers :
        (opened : Bool) (size : Option ℕ)
        → Ends
            (λ got. got.n_file ≡ before.n_file)
            (if opened
              then elim size [
                | none ↦ returns (record before { result = 1 })
                | some n ↦ cut_frames n file.reads memory before.n_file >>= λ got.
                    returns (close_file file.closed got)
              ]
              else returns (record before { result = 1 }))
    by_answers false size = Ends.on_return _ refl
    by_answers true none = Ends.on_return _ refl
    by_answers true (some n) =
        Ends-then {Q = λ got. got.n_file ≡ before.n_file}
          (cut_frames n file.reads memory before.n_file) _
          (Ends-bind _ _ (λ frames. Ends.on_return _ refl))
          (λ got e. Ends.on_return _ (closes file.closed got ∙ e))

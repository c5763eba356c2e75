-- ===== src/Slave/Options/Release.antt =====
-- How the slave gives its output directory back.
use soc.Common.{
  ℕ, ◌≡◌, refl, ap, ◌∙◌, List, [], ◌∷◌, ◌++◌, length, All, Option, Bool, true, false, ◌||◌, ◌==◌,
  arith,
}
use soc.Common.Effects.{Call, returns, faults, pos}
use soc.Utils.Options.{fixed, Parsed, is_dot, deinit_opt, set_all, IsTaken, parse_loop-taken}
use soc.Slave.Options.{Opt, init_opt, takes, set_option, parse}

sets_dir :
    (strtol : List ℕ → ℕ) (p : Parsed) (opt : Opt)
    → p.c ≡ b'o'
    → (set_option strtol p opt).out_dir ≡ fixed p.optarg
unfolding set_option
sets_dir strtol p opt e = rw e refl

keeps_dir :
    (strtol : List ℕ → ℕ) (p : Parsed) (opt : Opt)
    → takes p.c ≡ true
    → (p.c == b'o') ≡ false
    → (set_option strtol p opt).out_dir ≡ opt.out_dir
unfolding set_option
keeps_dir strtol p opt h e = ground arith

-- The directory of the last `-o`.
set_all-dir :
    (strtol : List ℕ → ℕ) (help : Call (ℕ × List ℕ)) (parsed : List Parsed) (opt : Opt)
    → All (λ p. (takes p.c ≡ true) × ((p.c == b'o') ≡ false)) parsed
    → (set_all takes (set_option strtol) help parsed opt).out_dir ≡ opt.out_dir
set_all-dir strtol help [] opt h = refl
set_all-dir strtol help (p ∷ parsed) opt h =
    set_all-dir strtol help parsed (set_option strtol p opt) h.1
    ∙ keeps_dir strtol p opt h.0.0 h.0.1

set_all-append :
    (strtol : List ℕ → ℕ) (help : Call (ℕ × List ℕ)) (before after : List Parsed) (opt : Opt)
    → set_all takes (set_option strtol) help (before ++ after) opt
      ≡ set_all takes
          (set_option strtol)
          help
          after
          (set_all takes (set_option strtol) help before opt)
set_all-append strtol help [] after opt = refl
set_all-append strtol help (p ∷ before) after opt =
    set_all-append strtol help before after (set_option strtol p opt)

-- A command line of options that the slave takes, with an `-o` and a directory other than `.`, and memory for the list of files:
-- parse succeeds with the files, and deinit_opt frees an argument of the program.
pub parse-deinit_opt :
    (strtol : List ℕ → ℕ) (help : Call (ℕ × List ℕ)) (word : Option (List ℕ))
    (before after : List Parsed) (dir : List ℕ) (named : List (List ℕ)) (memory : Bool)
    → All
        (IsTaken takes (set_option strtol) help)
        (before ++ (record { c = b'o'; optarg = dir } ∷ after))
    → All (λ p. (takes p.c ≡ true) × ((p.c == b'o') ≡ false)) after
    → is_dot dir ≡ false
    → (memory || length named == 0) ≡ true
    → (opt : Opt) × (parse strtol help word
          (before ++ (record { c = b'o'; optarg = dir } ∷ after))
          named
          memory
        ≡ returns (pos 0, opt))
      × (opt.files ≡ named)
      × (deinit_opt opt.out_dir ≡ faults)
unfolding parse deinit_opt
parse-deinit_opt strtol help word before after dir named memory taken last other room =
    let o : Parsed = record { c = b'o'; optarg = dir } in
    let opt : Opt =
      set_all takes (set_option strtol) help (before ++ (o ∷ after)) (init_opt word) in
    let dir_of : opt.out_dir ≡ fixed dir =
      ap (λ x. Opt.out_dir x) (set_all-append strtol help before (o ∷ after) (init_opt word))
      ∙ set_all-dir strtol help after _ last
      ∙ sets_dir strtol o _ refl in
    (
      record opt { files = named },
      rw
          (
            parse_loop-taken takes (set_option strtol) help (before ++ (o ∷ after)) (init_opt word)
                taken,
            room,
          )
          refl,
      refl,
      rw (dir_of, other) refl,
    )

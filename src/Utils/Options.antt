-- ===== src/Utils/Options.antt =====
-- Command lines, as parse and deinit_opt of main.c and of master.c in
-- project-spec/meta-user/recipes-apps/autostart/src handle them. What getopt_long returns, and `optarg`,
-- are a list.
use soc.Common.{
  ℕ, ◌+◌, ◌%◌, List, [], ◌∷◌, All, ◌≡◌, refl, Option, none, some, Bool, true, false, ◌||◌, ◌==◌,
  if◌then◌else◌,
}
use soc.Common.Effects.{Call, returns, faults, ◌>>=◌, ℤ, pos, negsuc}

-- A `char *`: to memory of malloc, or to a literal or an argument of the program.
pub data Text : Type 0 where
  heap : List ℕ → Text
  fixed : List ℕ → Text

abbrev pub text_of : Text → List ℕ
text_of (heap t) = t
text_of (fixed t) = t

pub record Parsed : Type 0 where
  pub c : ℕ
  pub optarg : List ℕ

-- The output directory of init_opt: what wordexp makes of it, if it can.
abbrev pub expanded : Option (List ℕ) → Text
expanded none = fixed (b'.' ∷ [])
expanded (some word) = heap word

-- `level` has three bits.
abbrev pub level_up : ℕ → ℕ
level_up level = (level + 1) % 8

abbrev pub level_down : ℕ → ℕ
level_down level = (level + 7) % 8

-- `strcmp(out_dir, ".") == 0`
abbrev pub is_dot : List ℕ → Bool
is_dot (c ∷ []) = c == b'.'
is_dot [] = false
is_dot (c ∷ d ∷ t) = false

-- free(out_dir)
abbrev pub free : Text → Call (Unit {0})
free (heap t) = returns tt
free (fixed t) = faults

unfoldable pub deinit_opt : Text → Call (Unit {0})
deinit_opt out_dir = if is_dot (text_of out_dir) then returns tt else free out_dir

-- The options that both programs have.
abbrev pub is_common : ℕ → Bool
is_common c =
    c == b'v'
    || c == b'q'
    || c == b'b'
    || c == b'd'
    || c == b't'
    || c == b'T'
    || c == b'S'
    || c == b'o'

-- The loop of parse: `set_option` is what the switch does for an option that it takes, and `help` how
-- print_help ends.
module _ {Opt : Type 0} (takes : ℕ → Bool) (set_option : Parsed → Opt → Opt)
    (help : Call (ℕ × List ℕ)) where
  unfoldable pub parse_loop : List Parsed → Opt → Call (ℤ × Opt)
  parse_loop [] opt = returns (pos 0, opt)
  parse_loop (p ∷ parsed) opt =
      let rest = parse_loop parsed (set_option p opt) in
      if p.c == b'V'
      then returns (pos 2, opt)
      else if p.c == b'h'
      then (help >>= λ printed. returns (pos 1, opt))
      else if takes p.c
      then rest
      else returns (negsuc 0, opt)

  -- The options from the first to the last.
  abbrev pub set_all : List Parsed → Opt → Opt
  set_all [] opt = opt
  set_all (p ∷ parsed) opt = set_all parsed (set_option p opt)

  -- No option ends the loop.
  abbrev pub IsTaken : Parsed → Type 0
  IsTaken p = (takes p.c ≡ true) × ((p.c == b'V') ≡ false) × ((p.c == b'h') ≡ false)

  pub parse_loop-taken :
      (parsed : List Parsed) (opt : Opt)
      → All IsTaken parsed
      → parse_loop parsed opt ≡ returns (pos 0, set_all parsed opt)
  unfolding parse_loop
  parse_loop-taken [] opt h = refl
  parse_loop-taken (p ∷ parsed) opt h =
      rw (h.0.1, h.0.2, h.0.0) (parse_loop-taken parsed (set_option p opt) h.1)

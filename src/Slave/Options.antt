-- ===== src/Slave/Options.antt =====
-- The command line of project-spec/meta-user/recipes-apps/autostart/src/main.c. `strtol` is the C
-- library's: the low 32 bits of its result, which are those of `timeout` and `safe_time`.
pub mod Release
use soc.Common.{
  ℕ, ◌-◌, ◌^◌, ◌%◌, List, [], ◌∷◌, length, Option, Bool, true, false, ◌||◌, ◌==◌, if◌then◌else◌,
}
use soc.Common.Effects.{Call, returns, faults, ◌>>=◌, ℤ}
use soc.Common.Int.{is_zero}
use soc.Utils.Options.{Text, fixed, Parsed, expanded, level_up, level_down, is_common, parse_loop}

pub record Opt : Type 0 where
  pub tty : List ℕ
  pub out_dir : Text
  pub files : List (List ℕ)
  pub weight : List ℕ
  pub quantization_coefficience : List ℕ
  pub dry_run : Bool
  pub binary : Bool
  pub timeout : ℕ
  pub safe_time : ℕ
  pub level : ℕ

-- `word` is what wordexp makes of ~/Downloads.
unfoldable pub init_opt : Option (List ℕ) → Opt
init_opt word = record {
  tty = b'/' ∷ b'd' ∷ b'e' ∷ b'v' ∷ b'/' ∷ b't' ∷ b't' ∷ b'y' ∷ b'P' ∷ b'S' ∷ b'1' ∷ [];
  weight =
      b'/' ∷ b'u' ∷ b's' ∷ b'r' ∷ b'/' ∷ b's' ∷ b'h' ∷ b'a' ∷ b'r' ∷ b'e' ∷ b'/' ∷ b'a' ∷ b'u'
      ∷ b't' ∷ b'o' ∷ b's' ∷ b't' ∷ b'a' ∷ b'r' ∷ b't' ∷ b'/' ∷ b'w' ∷ b'e' ∷ b'i' ∷ b'g' ∷ b'h'
      ∷ b't' ∷ b'.' ∷ b'b' ∷ b'i' ∷ b'n' ∷ [];
  quantization_coefficience =
      b'/' ∷ b'u' ∷ b's' ∷ b'r' ∷ b'/' ∷ b's' ∷ b'h' ∷ b'a' ∷ b'r' ∷ b'e' ∷ b'/' ∷ b'a' ∷ b'u'
      ∷ b't' ∷ b'o' ∷ b's' ∷ b't' ∷ b'a' ∷ b'r' ∷ b't' ∷ b'/' ∷ b'q' ∷ b'u' ∷ b'a' ∷ b'n' ∷ b't'
      ∷ b'i' ∷ b'f' ∷ b'y' ∷ b'.' ∷ b'b' ∷ b'i' ∷ b'n' ∷ [];
  dry_run = false;
  out_dir = expanded word;
  files = [];
  binary = false;
  timeout = 2 ^ 32 - 1;
  safe_time = 3;
  level = 5;
}

abbrev pub takes : ℕ → Bool
takes c = is_common c || c == b'w' || c == b'c'

-- The switch, for an option that it takes.
unfoldable pub set_option : (List ℕ → ℕ) → Parsed → Opt → Opt
set_option strtol p opt =
    if p.c == b'v'
    then record opt { level = level_up opt.level }
    else if p.c == b'q'
    then record opt { level = level_down opt.level }
    else if p.c == b'b'
    then record opt { binary = true }
    else if p.c == b'd'
    then record opt { dry_run = true }
    else if p.c == b't'
    then record opt { tty = p.optarg }
    else if p.c == b'T'
    then record opt { timeout = strtol p.optarg % 2 ^ 32 }
    else if p.c == b'S'
    then record opt { safe_time = strtol p.optarg % 2 ^ 32 }
    else if p.c == b'w'
    then record opt { weight = p.optarg }
    else if p.c == b'c'
    then record opt { quantization_coefficience = p.optarg }
    else record opt { out_dir = fixed p.optarg }

-- `named` are the arguments that are no options; malloc finds memory for their list or not.
unfoldable pub parse :
    (List ℕ → ℕ)
    → Call (ℕ × List ℕ)
    → Option (List ℕ)
    → List Parsed
    → List (List ℕ)
    → Bool
    → Call (ℤ × Opt)
parse strtol help word parsed named memory =
    parse_loop takes (set_option strtol) help parsed (init_opt word) >>= λ r.
    if is_zero r.0
    then (if memory || length named == 0
        then returns (r.0, record r.1 { files = named })
        else faults)
    else returns r

-- ===== src/Utils.antt =====
-- project-spec/meta-user/recipes-apps/autostart/src/utils.c: the help text, directories and dumps of
-- memory. A string is the list of its bytes without the 0 at its end.
pub mod Options
mod Tests
use soc.Common.{
  ℕ, suc, ◌+◌, ◌-◌, ◌≤◌, ◌<◌, ◌≡◌, refl, List, [], ◌∷◌, ◌++◌, length, append-nil, ap, map, Bool,
  Bool-cases, inl, inr, true, false, ◌&&◌, ltb, leb, lt→leb, ◌==◌, if◌then◌else◌, arith,
}
use soc.Common.Effects.{Call, returns, exits, faults, ◌>>=◌, ℤ, pos, negsuc}

-- `struct option`; the entry whose name is NULL is the end of the list.
pub record LongOption : Type 0 where
  pub name : List ℕ
  pub has_arg : ℕ
  pub val : ℕ

-- sprintf to memory of `size` bytes.
abbrev pub sprintf : ℕ → List ℕ → Call (List ℕ)
sprintf size text = if leb (length text + 1) size then returns text else faults

-- toupper in the C locale
abbrev pub toupper : ℕ → ℕ
toupper c = if leb b'a' c && leb c b'z' then c - 32 else c

-- `(--%s|-%c)` or `--%s`
abbrev pub name_text : LongOption → List ℕ
name_text o =
    if ltb o.val 128
    then b'(' ∷ b'-' ∷ b'-' ∷ o.name ++ (b'|' ∷ b'-' ∷ o.val ∷ b')' ∷ [])
    else b'-' ∷ b'-' ∷ o.name

-- ` %s`, `( %s)` or nothing
abbrev pub value_text : ℕ → List ℕ → List ℕ
value_text has_arg meta =
    if has_arg == 1
    then b' ' ∷ meta
    else if has_arg == 2
    then b'(' ∷ b' ' ∷ meta ++ (b')' ∷ [])
    else []

-- The text of an option, after its three pieces of memory are there.
unfoldable pub option_text : LongOption → Call (List ℕ)
option_text o = do
  name ← sprintf (length o.name + 4) (name_text o)
  meta ← sprintf (length o.name) o.name
  value ← sprintf (length o.name + 3) (value_text o.has_arg (map toupper meta))
  returns (b' ' ∷ b'[' ∷ name ++ value ++ (b']' ∷ []))

-- The loop: the result, and what is printed. `memory` says for each option whether malloc finds its
-- three pieces.
unfoldable pub print_options : List LongOption → List Bool → Call (ℕ × List ℕ)
print_options [] memory = returns (0, [])
print_options (o ∷ options) [] = returns (1, [])
print_options (o ∷ options) (false ∷ memory) = returns (1, [])
print_options (o ∷ options) (true ∷ memory) = do
  text ← option_text o
  rest ← print_options options memory
  returns (rest.0, text ++ rest.1)

-- `base` is what basename makes of the program's path.
unfoldable pub print_help : List LongOption → List ℕ → List Bool → Call (ℕ × List ℕ)
print_help longopts base memory = do
  rest ← print_options longopts memory
  returns (rest.0, base ++ rest.1)

-- mkdir_p: whether stat finds the directory, and what mkdir returns.
unfoldable pub mkdir_p : Bool → ℤ → ℤ
mkdir_p found made = if found then pos 0 else made

-- What the system calls of dump_mem answer.
pub record DumpAnswers : Type 0 where
  pub found : Bool
  pub made : ℤ
  pub opened : Bool
  pub written : ℤ
  pub closed : Bool

abbrev is_error : ℤ → Bool
is_error (negsuc n) = n == 0
is_error (pos n) = false

unfoldable pub dump_mem : DumpAnswers → ℤ
unfolding mkdir_p
dump_mem a =
    if is_error (mkdir_p a.found a.made)
    then negsuc 1
    else if a.opened
    then (if a.closed then a.written else negsuc 3)
    else negsuc 2

sprintf_overflow : (size : ℕ) (text : List ℕ) → size ≤ length text → sprintf size text ≡ faults
sprintf_overflow size text h =
    let long : leb (length text + 1) size ≡ false = lt→leb _ _ (omega arith) in rw long refl

-- The memory for the upper-case name has no room for the 0 at the end.
meta_overflow :
    (o : LongOption) (name : List ℕ)
    → (sprintf (length o.name) o.name >>= λ meta.
        sprintf (length o.name + 3) (value_text o.has_arg (map toupper meta)) >>= λ value.
        returns (b' ' ∷ b'[' ∷ name ++ value ++ (b']' ∷ [])))
      ≡ faults
meta_overflow o name = rw (sprintf_overflow (length o.name) o.name (omega arith)) refl

after_sprintf :
    {B : Type 0} (size : ℕ) (text : List ℕ) (f : List ℕ → Call B)
    → ((name : List ℕ) → f name ≡ faults)
    → (sprintf size text >>= f) ≡ faults
after_sprintf size text f h = elim (Bool-cases (leb (length text + 1) size)) [
  | inl fits ↦ rw fits (h text)
  | inr long ↦ rw long refl
]

option_text_overflow : (o : LongOption) → option_text o ≡ faults
unfolding option_text
option_text_overflow o =
    after_sprintf (length o.name + 4) (name_text o)
      (λ name. sprintf (length o.name) o.name >>= λ meta.
        sprintf (length o.name + 3) (value_text o.has_arg (map toupper meta)) >>= λ value.
        returns (b' ' ∷ b'[' ∷ name ++ value ++ (b']' ∷ [])))
      (meta_overflow o)

-- print_help of a table with an option: if malloc finds the memory for the first option, more is
-- written to it than it holds, whatever the option is; if not, print_help fails after the name of
-- the program.
pub print_help_overflow :
    (o : LongOption) (longopts : List LongOption) (base : List ℕ) (found : Bool)
    (memory : List Bool)
    → print_help (o ∷ longopts) base (found ∷ memory)
      ≡ (if found then faults else returns (1, base))
unfolding print_help print_options
print_help_overflow o longopts base true memory = rw (option_text_overflow o) refl
print_help_overflow o longopts base false memory = ap (λ text. returns (1, text)) (append-nil base)

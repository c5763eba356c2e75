-- ===== src/Utils/Tests.antt =====
-- The theorem about the help text, applied to the first option of the slave.
use soc.Common.{◌≡◌, [], ◌∷◌, true}
use soc.Common.Effects.{faults}
use soc.Utils.{LongOption, print_help, print_help_overflow}

-- `--help`, or `-h`
abbrev help : LongOption
help = record { name = b'h' ∷ b'e' ∷ b'l' ∷ b'p' ∷ []; has_arg = 0; val = b'h' }

help_overflows : print_help (help ∷ []) (b's' ∷ []) (true ∷ []) ≡ faults
help_overflows = print_help_overflow help [] (b's' ∷ []) true []

-- ===== src/Driver/Interrupts.antt =====
-- The interrupt handler of project-spec/meta-user/recipes-modules/axi-tangxi/axitangxi_dev.c, and the
-- completions that the waits of axi_tangxi.c put into the global `axitangxi_irq_data`.
use soc.Common.{ℕ, List, [], ◌∷◌, Bool, true, false, not, ◌||◌, ◌&&◌, ◌==◌, if◌then◌else◌}
use soc.Common.Effects.{Call, returns, exits, faults, ◌>>=◌}

-- `axitangxi_irq_data.comp`: NULL, the completion of a wait that is on, and whether it is done, or the
-- completion of a wait that is over, which stood on the stack of its function.
pub data Comp : Type 0 where
  unset : Comp
  waiting : Bool → Comp
  dangling : Comp

-- complete(axitangxi_irq_data.comp)
unfoldable pub complete : Comp → Call Comp
complete unset = faults
complete (waiting signalled) = returns (waiting true)
complete dangling = faults

-- The cases of the switch that complete something.
abbrev pub is_done : ℕ → Bool
is_done irq = irq == 257 || irq == 259 || irq == 263

-- The handler on the number of the interrupt; clean_irq, which resets a register, is left out.
unfoldable pub irq_handler : ℕ → Comp → Call Comp
unfolding complete
irq_handler irq comp = if is_done irq then complete comp else returns comp

-- What changes the completion: a wait begins (init_completion), an interrupt comes, or the function
-- that waited returns, after the completion or a timeout.
pub data Event : Type 0 where
  init_completion : Event
  interrupt : ℕ → Event
  wait_over : Event

unfoldable pub leave : Comp → Comp
leave unset = unset
leave (waiting signalled) = dangling
leave dangling = dangling

unfoldable pub step : Event → Comp → Call Comp
unfolding irq_handler leave
step init_completion comp = returns (waiting false)
step (interrupt irq) comp = irq_handler irq comp
step wait_over comp = returns (leave comp)

unfoldable pub run : List Event → Comp → Call Comp
unfolding step
run [] comp = returns comp
run (event ∷ events) comp = step event comp >>= λ comp'. run events comp'

-- S2MM_PS_DONE, S2MM_PL_DONE and NETWORK_ACC_DONE, the interrupts that end a wait.
abbrev pub ends_wait : ℕ → Bool
ends_wait irq = irq == 257 || irq == 259 || irq == 263

-- Whether every interrupt that ends a wait comes while a wait is on.
pub in_wait : Bool → List Event → Bool
in_wait on [] = true
in_wait on (init_completion ∷ events) = in_wait true events
in_wait on (interrupt irq ∷ events) = (not (ends_wait irq) || on) && in_wait on events
in_wait on (wait_over ∷ events) = in_wait false events

pub is_on : Comp → Bool
is_on unset = false
is_on (waiting signalled) = true
is_on dangling = false

abbrev pub is_fault : Call Comp → Bool
is_fault (returns comp) = false
is_fault exits = false
is_fault faults = true

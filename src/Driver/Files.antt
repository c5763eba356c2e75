-- ===== src/Driver/Files.antt =====
-- The open files of the device: axitangxi_open and axitangxi_release of
-- project-spec/meta-user/recipes-modules/axi-tangxi/axitangxi_dev.c, and the calls that use the device
-- structure in between. Every open file points to the one structure that axitangxi_probe allocated.
use soc.Common.{◌≡◌, refl, List, [], ◌∷◌, Bool, true, false, not, ◌&&◌, if◌then◌else◌}
use soc.Common.Effects.{Call, returns, exits, faults, ◌>>=◌}

-- What happens to the device: a transfer is an ioctl that translates an address, `request` any other
-- ioctl, `mapped` an mmap of an open file and `unmapped` the end of a mapping, which both read and
-- change its list.
pub data FileEvent : Type 0 where
  opened : FileEvent
  transfer : FileEvent
  request : FileEvent
  mapped : FileEvent
  unmapped : FileEvent
  released : FileEvent
  removed : FileEvent

-- kfree of a structure that is there or not.
unfoldable pub kfree : Bool → Call Bool
kfree allocated = if allocated then returns false else faults

-- Whether the device structure is still allocated after the event. axitangxi_open copies the pointer
-- and looks at nothing, and the requests that move no data use only the registers; axitangxi_release frees the structure; axitangxi_remove uses and frees it.
unfoldable pub file_step : FileEvent → Bool → Call Bool
unfolding kfree
file_step opened allocated = returns allocated
file_step request allocated = returns allocated
file_step transfer allocated = if allocated then returns true else faults
file_step mapped allocated = if allocated then returns true else faults
file_step unmapped allocated = if allocated then returns true else faults
file_step released allocated = kfree allocated
file_step removed allocated = if allocated then kfree allocated else faults

unfoldable pub file_run : List FileEvent → Bool → Call Bool
unfolding file_step
file_run [] allocated = returns allocated
file_run (event ∷ events) allocated = file_step event allocated >>= λ left. file_run events left

abbrev pub is_fault : Call Bool → Bool
is_fault (returns b) = false
is_fault exits = false
is_fault faults = true

-- What does not use the structure.
abbrev pub is_apart : FileEvent → Bool
is_apart opened = true
is_apart request = true
is_apart _ = false

abbrev pub ends_device : FileEvent → Bool
ends_device released = true
ends_device removed = true
ends_device _ = false

-- Nothing that uses the structure.
pub only_apart : List FileEvent → Bool
only_apart [] = true
only_apart (event ∷ events) = is_apart event && only_apart events

-- Up to the first close or removal anything, and after it nothing that uses the structure.
pub closes_last : List FileEvent → Bool
closes_last [] = true
closes_last (event ∷ events) =
    let rest = closes_last events in if ends_device event then only_apart events else rest

run_freed : (events : List FileEvent) → is_fault (file_run events false) ≡ not (only_apart events)
unfolding file_run only_apart
run_freed [] = refl
run_freed (opened ∷ events) = run_freed events
run_freed (request ∷ events) = run_freed events
run_freed (transfer ∷ events) = refl
run_freed (mapped ∷ events) = refl
run_freed (unmapped ∷ events) = refl
run_freed (released ∷ events) = refl
run_freed (removed ∷ events) = refl

-- From a probe on, in any order of events, the driver uses or frees memory that it has freed exactly
-- if anything but an open or a request that moves no data comes after the first close of a file, or
-- after the removal.
is_fault-file_run :
    (events : List FileEvent) → is_fault (file_run events true) ≡ not (closes_last events)
unfolding file_run closes_last
is_fault-file_run [] = refl
is_fault-file_run (opened ∷ events) = is_fault-file_run events
is_fault-file_run (request ∷ events) = is_fault-file_run events
is_fault-file_run (transfer ∷ events) = is_fault-file_run events
is_fault-file_run (mapped ∷ events) = is_fault-file_run events
is_fault-file_run (unmapped ∷ events) = is_fault-file_run events
is_fault-file_run (released ∷ events) = run_freed events
is_fault-file_run (removed ∷ events) = run_freed events

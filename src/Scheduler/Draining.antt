-- ===== src/Scheduler/Draining.antt =====
-- internal/scheduler/scheduler.go: the drain slots, one for each worker queue, and the goroutines
-- of `drainDeviceQueues` that hold them. Each method runs under `drainMu`.
pub mod Exclusion
mod Tests
use mass.Prelude.{
  ℕ, ◌≡◌, Bool, true, false, List, [], ◌∷◌, Option, none, some, Bytes, bytes_eq, if◌then◌else◌,
}
use mass.Prelude.Map.{Map, lookup, insert, erase}

abbrev pub Slots : Type 0
Slots = Map Bool

mark_slot : Bytes → Option Bool → Slots → Bool × Slots
mark_slot name none m = (true, insert name false m)
mark_slot name (some _) m = (false, insert name true m)

unfoldable pub try_mark_draining : Bytes → Slots → Bool × Slots
unfolding mark_slot
try_mark_draining name m = mark_slot name (lookup name m) m

abbrev pub is_wanted : Option Bool → Bool
is_wanted none = false
is_wanted (some wanted) = wanted

unfoldable pub finish_draining : Bytes → Slots → Bool × Slots
finish_draining name m = (is_wanted (lookup name m), erase name m)

unfoldable pub is_draining : Bytes → Slots → Bool
is_draining name m = elim (lookup name m) [ none ↦ false | some _ ↦ true ]

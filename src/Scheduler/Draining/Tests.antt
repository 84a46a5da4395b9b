-- ===== src/Scheduler/Draining/Tests.antt =====
-- Runs of the drain slots of internal/scheduler/scheduler.go.
use mass.Prelude.{◌≡◌, refl, [], Bytes, bytes_eq, codes, if◌then◌else◌, arith}
use mass.Prelude.Map.{lookup, insert, erase}
use mass.Scheduler.Draining.{try_mark_draining, finish_draining, is_draining}
use mass.Scheduler.Draining.Exclusion.{
  Drains, no_drains, claimed, ended, passes, ends, here, next, one_drainer,
}

abbrev name : Bytes
name = codes "worker|a"

abbrev busy : Drains
busy = claimed (bytes_eq name name) (try_mark_draining name []) no_drains

abbrev skipped_once : Drains
skipped_once = claimed (bytes_eq name name) (try_mark_draining name busy.slots) busy

abbrev over : Drains
over = ended (bytes_eq name name) (finish_draining name skipped_once.slots) skipped_once

-- A pass that finds the queue busy makes the drainer ask for another.
kicks : over ≡ record { slots = []; drainers = 0; skipped = 0; kicked = 1; owed = 1 }
unfolding try_mark_draining finish_draining lookup insert erase bytes_eq claimed ended
kicks = refl

one_drainer_example :
    (over.drainers ≡ (if is_draining name over.slots then 1 else 0)) × (over.kicked ≡ over.owed)
unfolding try_mark_draining lookup insert bytes_eq claimed
one_drainer_example =
    one_drainer name
      (next (next (next here (passes name)) (passes name)) (ends name (λ _. omega arith)))

-- ===== src/Scheduler/QueueName.antt =====
-- internal/scheduler/scheduler.go: the name of a worker's queue, and the worker it names.
use mass.Prelude.{
  ◌↔◌, ◌≡◌, refl, sym, ap, ◌∙◌, Bool, true, false, [], ◌∷◌, ◌++◌, Bytes, bytes_eq, bytes_eq_iff,
  codes, take, drop, take-append-drop, if◌then◌else◌, Bool-cases, inl, inr,
}
use mass.Queue.Envelope.{is_empty}

-- "worker|"
abbrev pub queue_prefix : Bytes
queue_prefix = codes "worker|"

unfoldable pub worker_queue_name : Bytes → Bytes
worker_queue_name worker_id = queue_prefix ++ worker_id

non_empty : Bytes → Bytes × Bool
non_empty [] = ([], false)
non_empty (c ∷ cs) = (c ∷ cs, true)

unfoldable pub parse_worker_queue_name : Bytes → Bytes × Bool
unfolding non_empty
parse_worker_queue_name name =
    if bytes_eq (take 7 name) queue_prefix then non_empty (drop 7 name) else ([], false)

non_empty_lem : (cs w : Bytes) → non_empty cs ≡ (w, true) → (cs ≡ w) × (is_empty w ≡ false)
unfolding non_empty
non_empty_lem [] w h = cc h
non_empty_lem (c ∷ cs) w h =
    let e : c ∷ cs ≡ w = ap (λ (p : Bytes × Bool). p.0) h in (e, rw (← e) refl)

named_back : (w : Bytes) → is_empty w ≡ false → non_empty w ≡ (w, true)
unfolding non_empty
named_back [] h = cc h
named_back (c ∷ cs) h = refl

-- A name parses to a worker exactly when it is that worker's queue name and the worker has an ID.
pub parse_worker_queue_name_lem :
    (name w : Bytes)
    → (parse_worker_queue_name name ≡ (w, true))
      ↔ ((name ≡ worker_queue_name w) × (is_empty w ≡ false))
unfolding parse_worker_queue_name worker_queue_name bytes_eq
parse_worker_queue_name_lem name w = (
  λ h. elim (Bool-cases (bytes_eq (take 7 name) queue_prefix)) [
    | inl same ↦
        let (tail, full) =
          non_empty_lem (drop 7 name) w (rw (same, parse_worker_queue_name) at h) in
        (
          sym (take-append-drop 7 name)
              ∙ cc ((bytes_eq_iff (take 7 name) queue_prefix).0 same, tail),
          full,
        )
    | inr other ↦ absurd (cc (rw (other, parse_worker_queue_name) at h))
  ],
  λ h. rw (h.0) (named_back w h.1),
)

-- ===== src/Scheduler/Dispatch/Phases.antt =====
-- The phase of a request, which is what is left of its result when the texts and times are forgotten,
-- and what the steps of a pass in internal/scheduler/scheduler.go do to it.
use mass.Prelude.{
  ◌≡◌, refl, sym, ap, subst, ◌∙◌, Bool, true, Option, none, some, Bytes, bytes_eq, bytes_eq_iff,
  Bool-cases, inl, inr,
}
use mass.Prelude.Map.{lookup, lookup-insert}
use mass.Queue.Results.{
  ResultStatus, pending, processing, done, error, ResultRow, ResultTable, Store, update, update_row,
  fail, mark_processing, is_pending,
}
use mass.Queue.Results.Lifecycle.{after, exec-cases}
use mass.Scheduler.Dispatch.Steps.{Step, Steps, keeps, fails, begins, here, next}

pub data Phase : Type 0 where
  absent waiting running over : Phase

abbrev pub phase_of_status : ResultStatus → Phase
phase_of_status pending = waiting
phase_of_status processing = running
phase_of_status done = over
phase_of_status error = over

abbrev pub phase_of : Option ResultRow → Phase
phase_of none = absent
phase_of (some r) = phase_of_status r.status

-- What may become of a request: it starts once, and it ends once.
pub data Advances : Phase → Phase → Type 0 where
  stays : {q : Phase} → Advances q q
  starts : Advances waiting running
  is_refused : Advances waiting over
  ends : Advances running over

pub Advances-twice : {a b c : Phase} → Advances a b → Advances b c → Advances a c
Advances-twice stays n = n
Advances-twice starts stays = starts
Advances-twice starts ends = is_refused
Advances-twice is_refused stays = is_refused
Advances-twice ends stays = ends

row-Advances :
    (id : Bytes) (test : ResultRow → Bool) (change : ResultRow → ResultRow) (t : ResultTable)
    (j : Bytes)
    → ((r : ResultRow) → test r ≡ true → Advances (phase_of (some r)) (phase_of (some (change r))))
    → (o : Option ResultRow) → lookup id t ≡ o
    → Advances (phase_of (lookup j t)) (phase_of (lookup j (update_row id test change o t)))
unfolding update_row
row-Advances id test change t j h none e = stays
row-Advances id test change t j h (some r) e = elim (Bool-cases (test r)) [
  | inl hit ↦
      rw (hit, update_row)
        (rw (lookup-insert id j (change r) t) (elim (Bool-cases (bytes_eq id j)) [
          | inl same ↦
              rw same (rw (ap (λ k. lookup k t) (sym ((bytes_eq_iff id j).0 same)) ∙ e) (h r hit))
          | inr other ↦ rw other stays
        ]))
  | inr miss ↦ rw (miss, update_row) stays
]

-- An update of a row, if the database runs it.
update-Advances :
    (id : Bytes) (test : ResultRow → Bool) (change : ResultRow → ResultRow) (s : Store) (j : Bytes)
    → ((r : ResultRow) → test r ≡ true → Advances (phase_of (some r)) (phase_of (some (change r))))
    → Advances
        (phase_of (lookup j s.results))
        (phase_of (lookup j (after (update id test change s)).results))
unfolding update
update-Advances id test change s j h =
    exec-cases
      (λ o. Advances (phase_of (lookup j s.results)) (phase_of (lookup j (after o).results))) _ s
      (λ db _. row-Advances id test change s.results j h (lookup id s.results) refl) (λ db _. stays)

to_over : (status : ResultStatus) → Advances (phase_of_status status) over
to_over pending = is_refused
to_over processing = ends
to_over done = stays
to_over error = stays

to_running :
    (status : ResultStatus) → is_pending status ≡ true → Advances (phase_of_status status) running
to_running pending h = starts
to_running processing h = stays
to_running done h = cc
to_running error h = cc

Step-Advances :
    (s u : Store) (j : Bytes)
    → Step s u
    → Advances (phase_of (lookup j s.results)) (phase_of (lookup j u.results))
unfolding fail mark_processing
Step-Advances s _ j (keeps u same) =
    subst (λ t. Advances (phase_of (lookup j s.results)) (phase_of (lookup j t))) (sym same) stays
Step-Advances s _ j (fails id text now) =
    update-Advances id (λ _. true) _ s j (λ r _. to_over r.status)
Step-Advances s _ j (begins id) =
    update-Advances id (λ r. is_pending r.status) _ s j (λ r h. to_running r.status h)

pub Steps-Advances :
    (s u : Store) (j : Bytes)
    → Steps s u
    → Advances (phase_of (lookup j s.results)) (phase_of (lookup j u.results))
Steps-Advances s _ j here = stays
Steps-Advances s _ j (next {u} {v} before step) =
    Advances-twice (Steps-Advances s u j before) (Step-Advances u v j step)

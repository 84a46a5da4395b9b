-- ===== src/Queue/Results/Lifecycle.antt =====
-- The state machine of one row of `queue_results`, as internal/queue/results.go drives it.
use mass.Prelude.{
  All, ◌≡◌, refl, sym, ap, ◌∙◌, subst, Bool, true, false, not, List, [], ◌∷◌, Option, none, some,
  Bytes, bytes_eq, bytes_eq_iff, Bool-cases, inl, inr, arith,
}
use mass.Prelude.Map.{lookup, IsMap, lookup-insert, lookup-keep, keep-IsMap, insert-IsMap, filtered}
use mass.Queue.Database.{Db}
use mass.Queue.Database.Rules.{statement-cases}
use mass.Queue.Results.{
  ResultStatus, pending, processing, done, error, Stamp, ResultRow, ResultTable, Store, Outcome,
  did, failed, crashed, lift, lifted, exec, update, update_row, insert_new, create, mark_processing,
  mark_pending, complete, fail, get, cleanup, is_pending, is_processing, is_terminal, is_stale,
  completed_before,
}

abbrev pub after {ℓ} : {A : Type ℓ} → Outcome A → Store
after (did a s) = s
after (failed s) = s
after (crashed s) = s

-- A statement either runs, or changes nothing; the queues keep their rows.
pub exec-cases {ℓ} :
    {A : Type ℓ} (P : Outcome A → Type 0) (f : ResultTable → A × ResultTable) (s : Store)
    → ((db : Db)
        → db.rows ≡ s.db.rows
        → P (did (f s.results).0 (record { db = db; results = (f s.results).1 })))
    → ((db : Db) → db.rows ≡ s.db.rows → P (failed (record { db = db; results = s.results })))
    → P (exec f s)
unfolding exec lift lifted
exec-cases P f s runs refused =
    statement-cases {A = Unit {0}}
      (λ r. P (elim (lifted s.results r) [
        | did _ u ↦ did (f u.results).0 (record u { results = (f u.results).1 })
        | failed u ↦ failed u
        | crashed u ↦ crashed u
      ]))
      (λ t. (tt, t)) s.db (λ faults. runs _ refl) (λ faults. refused _ refl)

-- What one call may do to one row. A row that has ended never goes back, and only such a row, with
-- a completion before the cutoff, is pruned.
pub data Moves (is_new : Bool) : Option ResultRow → Option ResultRow → Type 0 where
  stays : (o : Option ResultRow) → Moves is_new o o
  creates :
      (now : Stamp)
      → is_new ≡ true
      → Moves is_new none (
          some (record {
            status = pending;
            body = [];
            err_text = none;
            created_at = now;
            completed_at = none;
          }))
  starts :
      (r : ResultRow)
      → r.status ≡ pending
      → Moves is_new (some r) (some (record r { status = processing }))
  reverts :
      (r : ResultRow)
      → r.status ≡ processing
      → Moves is_new (some r) (some (record r { status = pending }))
  completes :
      (r : ResultRow) (body : Bytes) (now : Stamp)
      → Moves is_new
          (some r)
          (some (record r { status = done; body = body; completed_at = some now }))
  fails :
      (r : ResultRow) (msg : Bytes) (now : Stamp)
      → Moves is_new
          (some r)
          (some (record r { status = error; err_text = some msg; completed_at = some now }))
  prunes :
      (r : ResultRow) (cutoff : Stamp)
      → is_terminal r.status ≡ true
      → completed_before cutoff r.completed_at ≡ true
      → Moves is_new (some r) none

pub update_row-Moves :
    {c : Bool} (id : Bytes) (test : ResultRow → Bool) (change : ResultRow → ResultRow)
    (t : ResultTable) (j : Bytes)
    → ((r : ResultRow) → test r ≡ true → Moves c (some r) (some (change r)))
    → (o : Option ResultRow) → lookup id t ≡ o
    → Moves c (lookup j t) (lookup j (update_row id test change o t))
unfolding update_row
update_row-Moves id test change t j moves none e = stays _
update_row-Moves id test change t j moves (some r) e = elim (Bool-cases (test r)) [
  | inl h ↦
      rw (h, update_row)
        (rw (lookup-insert id j (change r) t) (elim (Bool-cases (bytes_eq id j)) [
          | inl same ↦
              rw same (rw (ap (λ k. lookup k t) (sym ((bytes_eq_iff id j).0 same)) ∙ e) (moves r h))
          | inr other ↦ rw other (stays _)
        ]))
  | inr h ↦ rw (h, update_row) (stays _)
]

update-Moves :
    {c : Bool} (id : Bytes) (test : ResultRow → Bool) (change : ResultRow → ResultRow) (s : Store)
    (j : Bytes)
    → ((r : ResultRow) → test r ≡ true → Moves c (some r) (some (change r)))
    → Moves c (lookup j s.results) (lookup j (after (update id test change s)).results)
unfolding update
update-Moves {c} id test change s j moves =
    exec-cases (λ o. Moves c (lookup j s.results) (lookup j (after o).results)) _ s
      (λ db _. update_row-Moves id test change s.results j moves (lookup id s.results) refl)
      (λ db _. stays _)

update_row-IsMap :
    (id : Bytes) (test : ResultRow → Bool) (change : ResultRow → ResultRow) (t : ResultTable)
    (o : Option ResultRow)
    → IsMap t
    → IsMap (update_row id test change o t)
unfolding update_row
update_row-IsMap id test change t none d = d
update_row-IsMap id test change t (some r) d = ground (arith, insert-IsMap id (change r) t d)

update-IsMap :
    (id : Bytes) (test : ResultRow → Bool) (change : ResultRow → ResultRow) (s : Store)
    → IsMap s.results
    → IsMap (after (update id test change s)).results
unfolding update
update-IsMap id test change s d =
    exec-cases (λ o. IsMap (after o).results) _ s
      (λ db _. update_row-IsMap id test change s.results (lookup id s.results) d) (λ db _. d)

-- An update of one row, where the change is a move.
update_is_move :
    {c : Bool} (id : Bytes) (test : ResultRow → Bool) (change : ResultRow → ResultRow) (s : Store)
    (j : Bytes)
    → ((r : ResultRow) → test r ≡ true → Moves c (some r) (some (change r)))
    → IsMap s.results
    → Moves c (lookup j s.results) (lookup j (after (update id test change s)).results)
      × IsMap (after (update id test change s)).results
update_is_move id test change s j moves d =
    (update-Moves id test change s j moves, update-IsMap id test change s d)

insert_new-Moves :
    {c : Bool} (id : Bytes) (now : Stamp) (row : ResultRow) (s : Store) (j : Bytes)
    (o : Option ResultRow)
    → (bytes_eq id j ≡ true → Moves c none (some row))
    → lookup id s.results ≡ o
    → Moves c (lookup j s.results) (lookup j (after (insert_new id row o s)).results)
unfolding insert_new
insert_new-Moves {c} id now row s j (some r) new e = stays _
insert_new-Moves {c} id now row s j none new e =
    exec-cases (λ o. Moves c (lookup j s.results) (lookup j (after o).results)) _ s
      (λ db _. rw (lookup-insert id j row s.results) (elim (Bool-cases (bytes_eq id j)) [
        | inl same ↦
            rw same
              (rw (ap (λ k. lookup k s.results) (sym ((bytes_eq_iff id j).0 same)) ∙ e) (new same))
        | inr other ↦ rw other (stays _)
      ]))
      (λ db _. stays _)

insert_new-IsMap :
    (id : Bytes) (row : ResultRow) (s : Store) (o : Option ResultRow)
    → IsMap s.results
    → IsMap (after (insert_new id row o s)).results
unfolding insert_new
insert_new-IsMap id row s (some r) d = d
insert_new-IsMap id row s none d =
    exec-cases (λ o. IsMap (after o).results) _ s (λ db _. insert-IsMap id row s.results d)
      (λ db _. d)

-- The calls of a `ResultStore`, each with the time at which it is made.
pub data Call : Type 0 where
  call_create : Bytes → Stamp → Call
  call_processing call_pending call_get : Bytes → Call
  call_complete call_fail : Bytes → Bytes → Stamp → Call
  call_cleanup : Stamp → Call

unfoldable pub perform : Call → Store → Store
perform (call_create id now) s = after (create id now s)
perform (call_processing id) s = after (mark_processing id s)
perform (call_pending id) s = after (mark_pending id s)
perform (call_get id) s = after (get id s)
perform (call_complete id body now) s = after (complete id body now s)
perform (call_fail id msg now) s = after (fail id msg now s)
perform (call_cleanup cutoff) s = after (cleanup cutoff s)

abbrev pub is_create_of : Bytes → Call → Bool
is_create_of j (call_create id now) = bytes_eq id j
is_create_of j _ = false

filtered-Moves :
    {c : Bool} (cutoff : Stamp) (o : Option ResultRow)
    → Moves c o (filtered (λ r. not (is_stale cutoff r)) o)
filtered-Moves cutoff none = stays none
filtered-Moves cutoff (some r) = elim (Bool-cases (is_stale cutoff r)) [
  | inl h ↦ rw h (prunes r cutoff (ground (arith, h)) (ground (arith, h)))
  | inr h ↦ rw h (stays (some r))
]

from_pending : (status : ResultStatus) → is_pending status ≡ true → status ≡ pending
from_pending pending h = refl
from_pending processing h = cc
from_pending done h = cc
from_pending error h = cc

from_processing : (status : ResultStatus) → is_processing status ≡ true → status ≡ processing
from_processing pending h = cc
from_processing processing h = refl
from_processing done h = cc
from_processing error h = cc

-- Whatever a call of the result store does, statements that fail included, it does to each row one
-- of the moves of the life cycle, or nothing, and no id gets a second row.
pub perform-Moves :
    (call : Call) (s : Store) (j : Bytes)
    → IsMap s.results
    → Moves (is_create_of j call) (lookup j s.results) (lookup j (perform call s).results)
      × IsMap (perform call s).results
unfolding perform create mark_processing mark_pending get complete fail cleanup
perform-Moves (call_create id now) s j d = (
  insert_new-Moves id now _ s j (lookup id s.results) (λ h. creates now h) refl,
  insert_new-IsMap id _ s (lookup id s.results) d,
)
perform-Moves (call_processing id) s j d =
    update_is_move id (λ r. is_pending r.status) (λ r. record r { status = processing }) s j
      (λ r h. starts r (from_pending r.status h)) d
perform-Moves (call_pending id) s j d =
    update_is_move id (λ r. is_processing r.status) (λ r. record r { status = pending }) s j
      (λ r h. reverts r (from_processing r.status h)) d
perform-Moves (call_get id) s j d =
    exec-cases
      (λ o. Moves false (lookup j s.results) (lookup j (after o).results) × IsMap (after o).results)
      (λ t. (lookup id t, t)) s (λ db _. (stays _, d)) (λ db _. (stays _, d))
perform-Moves (call_complete id body now) s j d =
    update_is_move id (λ _. true)
      (λ r. record r { status = done; body = body; completed_at = some now }) s j
      (λ r _. completes r body now) d
perform-Moves (call_fail id msg now) s j d =
    update_is_move id (λ _. true)
      (λ r. record r { status = error; err_text = some msg; completed_at = some now }) s j
      (λ r _. fails r msg now) d
perform-Moves (call_cleanup cutoff) s j d =
    exec-cases
      (λ o. Moves false (lookup j s.results) (lookup j (after o).results) × IsMap (after o).results)
      _ s
      (λ db _. (
        rw (lookup-keep (λ r. not (is_stale cutoff r)) j s.results d)
            (filtered-Moves cutoff (lookup j s.results)),
        keep-IsMap (λ r. not (is_stale cutoff r)) s.results d,
      ))
      (λ db _. (stays _, d))

unfoldable pub perform_all : List Call → Store → Store
unfolding perform
perform_all [] s = s
perform_all (call ∷ calls) s = perform_all calls (perform call s)

-- A request that has its result, or had one that was pruned.
pub data IsOver : Option ResultRow → Type 0 where
  ended : (r : ResultRow) → is_terminal r.status ≡ true → IsOver (some r)
  pruned : IsOver none

IsOver-Moves : {o o' : Option ResultRow} → Moves false o o' → IsOver o → IsOver o'
IsOver-Moves (stays o) h = h
IsOver-Moves (creates now e) h = absurd (cc e)
IsOver-Moves (starts r e) (ended _ t) = absurd (cc (ap is_terminal e, t))
IsOver-Moves (reverts r e) (ended _ t) = absurd (cc (ap is_terminal e, t))
IsOver-Moves (completes r body now) h = ended _ refl
IsOver-Moves (fails r msg now) h = ended _ refl
IsOver-Moves (prunes r cutoff t c) h = pruned

-- Once a request has its result, no sequence of calls that does not create it anew brings it back
-- to pending or processing: it keeps a result, until that is pruned.
pub perform_all-IsOver :
    (calls : List Call) (s : Store) (j : Bytes)
    → IsMap s.results
    → All (λ call. is_create_of j call ≡ false) calls
    → IsOver (lookup j s.results)
    → IsOver (lookup j (perform_all calls s).results)
unfolding perform_all
perform_all-IsOver [] s j d others over = over
perform_all-IsOver (call ∷ calls) s j d others over =
    let (moves, d') = perform-Moves call s j d in
    perform_all-IsOver calls (perform call s) j d' others.1 (
      IsOver-Moves
        (subst (λ c. Moves c (lookup j s.results) (lookup j (perform call s).results)) others.0
          moves)
        over)

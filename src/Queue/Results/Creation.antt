-- ===== src/Queue/Results/Creation.antt =====
-- `Create` of internal/queue/results.go: a new result, or nothing.
use mass.Prelude.{◌≡◌, refl, [], Option, none, some, Bytes}
use mass.Prelude.Map.{lookup, insert}
use mass.Queue.Results.{
  Stamp, ResultRow, pending, Store, Outcome, did, failed, crashed, create, insert_new,
}
use mass.Queue.Results.Lifecycle.{exec-cases}

abbrev pub new_result : Stamp → ResultRow
new_result now = record {
  status = pending;
  body = [];
  err_text = none;
  created_at = now;
  completed_at = none;
}

-- A new result, or nothing.
abbrev pub Creates : Bytes → Stamp → Store → Outcome (Unit {0}) → Type 0
Creates id now s (did _ u) =
    (lookup id s.results ≡ none)
    × (u.results ≡ insert id (new_result now) s.results)
    × (u.db.rows ≡ s.db.rows)
Creates id now s (failed u) = (u.results ≡ s.results) × (u.db.rows ≡ s.db.rows)
Creates id now s (crashed u) = (u.results ≡ s.results) × (u.db.rows ≡ s.db.rows)

insert_new-Creates :
    (id : Bytes) (now : Stamp) (o : Option ResultRow) (s : Store)
    → lookup id s.results ≡ o
    → Creates id now s (insert_new id (new_result now) o s)
unfolding insert_new
insert_new-Creates id now (some r) s e = (refl, refl)
insert_new-Creates id now none s e =
    exec-cases (Creates id now s) _ s (λ db same. (e, refl, same)) (λ db same. (refl, same))

pub create-Creates : (id : Bytes) (now : Stamp) (s : Store) → Creates id now s (create id now s)
unfolding create
create-Creates id now s = insert_new-Creates id now (lookup id s.results) s refl

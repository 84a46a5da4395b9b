-- ===== src/Queue/Tests.antt =====
-- Runs of internal/queue on small inputs.
use mass.Prelude.{
  List, ◌&&◌, keep, ◌≡◌, refl, true, false, [], ◌∷◌, map, none, some, Bytes, bytes_eq, codes, arith,
  leb, if◌then◌else◌,
}
use mass.Prelude.Map.{lookup, insert, erase}
use mass.Queue.Database.{Db, ok, err, statement, in_tx}
use mass.Queue.Database.Rules.{Atomic}
use mass.Queue.Envelope.{Envelope, marshal, marshal_load_artifacts, unmarshal_envelope}
use mass.Queue.Envelope.RoundTrip.{FitsWire, unmarshal-marshal}
use mass.Queue.Model.{model_goqite, model_proto, encode_files}
use mass.Queue.Ops.{
  lease_by_id, defer, release_lease, move_to, lease_and_submit, delete_and_release_lease,
  release_lease_and_delete, peek, reset_to,
}
use mass.Queue.Ops.Handover.{Submitted, Views, handed, lease_and_submit-Atomic, handover-Atomic}
use mass.Queue.Ops.Leases.{Delivered, lease_by_id-Atomic, defer_until, release_then_lease}
use mass.Queue.Ops.Moves.{Moved, move_to-Atomic}
use mass.Queue.Ops.Once.{Call, call_submit, call_defer, call_lease, run_calls, delivered_once}
use mass.Queue.Ops.Views.{Best, peek-Best}
use mass.Queue.Table.{Row, Table, to_message, update_by_id, delete_by_id, order_by_priority}
use mass.Queue.Table.Statements.{Same}

abbrev global : Bytes
global = codes "global"

abbrev worker : Bytes
worker = codes "worker|a"

abbrev job : Envelope model_proto
job = record {
  priority = 1;
  attempts = 0;
  cost = 4607182418800017408;
  queued_seconds = 0;
  runtime_name = codes "llama-cpp";
  model_id = codes "m";
  source = codes "direct";
  request_id = codes "r1";
  global_msg_id = [];
  files = 3 ∷ [];
  load_hints = [];
  payload = codes "{}";
  headroom_pct = 90;
}

abbrev row : Row
row = record {
  queue = global;
  body = codes "x";
  priority = 1;
  created = 5;
  timeout = 5;
  received = 0;
}

abbrev urgent : Row
urgent = record {
  queue = global;
  body = codes "y";
  priority = 3;
  created = 9;
  timeout = 9;
  received = 0;
}

abbrev stale : Row
stale = record {
  queue = global;
  body = codes "z";
  priority = 1;
  created = 2;
  timeout = 8;
  received = 1;
}

abbrev rows : Table
rows = (codes "1", row) ∷ (codes "2", urgent) ∷ (codes "3", stale) ∷ []

abbrev db : Db
db = record { rows = rows; notified = false; faults = [] }

-- `Peek` puts the urgent row first, and hides nothing that is visible.
peeked :
    peek global 2 10 db
    ≡ ok (to_message (codes "2", urgent) ∷ to_message (codes "3", stale) ∷ []) db
unfolding peek statement order_by_priority bytes_eq
peeked = refl

job-FitsWire : FitsWire model_proto job
unfolding marshal_load_artifacts encode_files
job-FitsWire = record {
  names_fit = record {
    runtime_name_le = omega arith;
    model_id_le = omega arith;
    source_le = omega arith;
    request_id_le = omega arith;
    global_msg_id_le = omega arith;
    files_encode = refl;
  };
  priority_lt = omega arith;
  cost_lt = omega arith;
  queued_seconds_lt = omega arith;
  headroom_pct_lt = omega arith;
  load_blob_lt = omega (arith);
}

abbrev leased : Db
leased = record db { rows = insert (codes "1") (record row { timeout = 40; received = 1 }) rows }

lease_runs : lease_by_id global (codes "1") 30 10 db ≡ ok (some (codes "x")) leased
unfolding lease_by_id in_tx statement update_by_id lookup insert bytes_eq
lease_runs = refl

move_fails :
    move_to model_goqite global worker
      (codes "1")
      1
      10
      (record db { faults = false ∷ false ∷ true ∷ [] })
    ≡ err db
unfolding move_to in_tx statement delete_by_id lookup erase bytes_eq
move_fails = refl

lease_by_id-Atomic_example :
    Atomic
      (Delivered global (codes "1") 30 10 db.rows)
      db.rows
      (lease_by_id global (codes "1") 30 10 db)
lease_by_id-Atomic_example = lease_by_id-Atomic global (codes "1") 30 10 db

-- The lease runs out at 40; then a row comes, and the first is asked for again.
abbrev later_calls : List (Call model_proto)
later_calls =
    call_submit global job 50
    ∷ call_defer global (codes "2") 20 60
    ∷ call_lease global (codes "1") 30 80
    ∷ []

delivered_once_example :
    Atomic
      (λ o t. (o ≡ none) × Same t (run_calls model_goqite model_proto later_calls leased).rows)
      (run_calls model_goqite model_proto later_calls leased).rows
      (lease_by_id global (codes "1") 30 90 (run_calls model_goqite model_proto later_calls leased))
unfolding bytes_eq
delivered_once_example =
    delivered_once model_goqite model_proto global (codes "1") (codes "x") 30 10 db leased
      lease_runs later_calls (refl, (refl, (refl, tt))) global 30 90

defer_until_example :
    (db' db'' : Db) × (defer global (codes "1") 50 10 db ≡ ok (some (codes "x")) db')
    × (lookup (codes "1") db'.rows ≡ some (reset_to 60 row))
    × (lease_by_id global (codes "1") 30 60 db'
        ≡ ok (if leb 60 60 then some (codes "x") else none) db'')
defer_until_example =
    defer_until global (codes "1") 50 30 10 60 db row refl (unfold lookup bytes_eq in refl) refl

release_then_lease_example :
    (db' db'' : Db) × (release_lease global (codes "3") 2000 db ≡ ok tt db')
    × (db'.notified ≡ true)
    × (lease_by_id global (codes "3") 30 1000 db' ≡ ok (some (codes "z")) db'')
release_then_lease_example =
    release_then_lease global (codes "3") 30 2000 1000 db stale refl
      (unfold lookup bytes_eq in refl) refl (omega arith)

move_to-Atomic_example :
    Atomic
      (Moved global worker (codes "1") 1 10 db.rows)
      db.rows
      (move_to model_goqite global worker (codes "1") 1 10 db)
move_to-Atomic_example = move_to-Atomic model_goqite global worker (codes "1") 1 10 db

lease_and_submit-Atomic_example :
    Atomic
      (Submitted model_goqite model_proto global (codes "1") 30 worker job 10 db.rows)
      db.rows
      (lease_and_submit model_goqite model_proto global (codes "1") 30 worker job 10 db)
lease_and_submit-Atomic_example =
    lease_and_submit-Atomic model_goqite model_proto global (codes "1") 30 worker job 10 db

handover-Atomic_example :
    Atomic
      (λ _. Views (handed model_goqite worker (codes "2") global (codes "3") 2000) db.rows)
      db.rows
      (delete_and_release_lease model_goqite worker (codes "2") global (codes "3") 2000 db)
    × Atomic
        (λ _. Views (handed model_goqite worker (codes "2") global (codes "3") 2000) db.rows)
        db.rows
        (release_lease_and_delete model_goqite worker (codes "2") global (codes "3") 2000 db)
handover-Atomic_example = handover-Atomic model_goqite worker (codes "2") global (codes "3") 2000 db

peek-Best_example :
    Atomic
      (λ messages u.
        (chosen : Table) × (messages ≡ map to_message chosen)
        × Best 2
            (keep
              (λ (e : Bytes × Row). bytes_eq (e.1).queue global && leb (e.1).timeout 10)
              db.rows)
            chosen
        × (u ≡ db.rows))
      db.rows
      (peek global 2 10 db)
peek-Best_example = peek-Best global 2 10 db

unmarshal-marshal_example :
    (bytes : Bytes) × (marshal model_proto job ≡ some bytes)
    × (unmarshal_envelope model_proto bytes ≡ some job)
unmarshal-marshal_example = unmarshal-marshal model_proto job job-FitsWire

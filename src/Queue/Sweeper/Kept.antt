-- ===== src/Queue/Sweeper/Kept.antt =====
-- internal/queue/sweeper.go, `ReapAbandoned`: what the whole sweep leaves of the results.
use mass.Prelude.{ℕ, ◌+◌, true, List, [], ◌∷◌, Option, none, some, Bytes}
use mass.Queue.Database.{Result, ok, err, panicked, Goqite}
use mass.Queue.Envelope.{Proto}
use mass.Queue.Ops.{list_abandoned}
use mass.Queue.Results.{Stamp, ResultTable, Store, Outcome, did, failed, crashed, lift, lifted}
use mass.Queue.Results.Lifecycle.{after}
use mass.Queue.Sweeper.{names_of, reap_one, reap_each, reap_queue, reap_queues, reap_abandoned}
use mass.Queue.Sweeper.Reaped.{Keeps, Reaped, reap_one-Reaped}
use mass.Queue.Table.{Message}

Keeps-trans : (t u v : ResultTable) → Keeps t u → Keeps u v → Keeps t v
Keeps-trans t u v a b j r found over = b j r (a j r found over) over

-- A case of the outcome of one step, and what runs after it.
then_on {ℓ κ} :
    {A : Type ℓ} {B : Type κ}
    → (A → Store → Outcome B)
    → (Store → Outcome B)
    → Outcome A
    → Outcome B
then_on k fallback (did a s) = k a s
then_on k fallback (failed s) = fallback s
then_on k fallback (crashed s) = crashed s

Keeps-then_on {ℓ κ} :
    {A : Type ℓ} {B : Type κ} (t : ResultTable) (k : A → Store → Outcome B)
    (fallback : Store → Outcome B) (o : Outcome A)
    → Keeps t (after o).results
    → ((a : A) (s : Store) → Keeps s.results (after (k a s)).results)
    → ((s : Store) → Keeps s.results (after (fallback s)).results)
    → Keeps t (after (then_on k fallback o)).results
unfolding then_on
Keeps-then_on t k fallback (did a s) h one two = Keeps-trans _ _ _ h (one a s)
Keeps-then_on t k fallback (failed s) h one two = Keeps-trans _ _ _ h (two s)
Keeps-then_on t k fallback (crashed s) h one two = h

Reaped-Keeps :
    (queue : Bytes) (anchor_queue : Option Bytes) (id request_id anchor_id : Bytes) (s : Store)
    (o : Outcome (Unit {0}))
    → Reaped queue anchor_queue id request_id anchor_id s o
    → Keeps s.results (after o).results
Reaped-Keeps queue anchor_queue id request_id anchor_id s (did _ s') h = h.0
Reaped-Keeps queue anchor_queue id request_id anchor_id s (failed s') h = h.0
Reaped-Keeps queue anchor_queue id request_id anchor_id s (crashed s') h = h.0

lifted-Keeps {ℓ} :
    {A : Type ℓ} (t : ResultTable) (r : Result A) → Keeps t (after (lifted t r)).results
unfolding lifted
lifted-Keeps t (ok a db) j r found over = found
lifted-Keeps t (err db) j r found over = found
lifted-Keeps t (panicked db) j r found over = found

module _ (g : Goqite) (p : Proto) where
  reap_each-Keeps :
      (queue : Bytes) (anchor_queue : Option Bytes) (clock : Message → Stamp) (msgs : List Message)
      (reaped : ℕ) (s : Store)
      → Keeps s.results (after (reap_each g p queue anchor_queue clock msgs reaped s)).results
  unfolding reap_each then_on
  reap_each-Keeps queue anchor_queue clock [] reaped s = λ j r found over. found
  reap_each-Keeps queue anchor_queue clock (msg ∷ msgs) reaped s =
      Keeps-then_on s.results (λ _. reap_each g p queue anchor_queue clock msgs (reaped + 1))
        (reap_each g p queue anchor_queue clock msgs reaped)
        (reap_one g p queue anchor_queue (clock msg) msg s)
        (Reaped-Keeps queue anchor_queue msg.id (names_of p msg).0 (names_of p msg).1 s _
          (reap_one-Reaped g p queue anchor_queue (clock msg) msg s))
        (λ _. reap_each-Keeps queue anchor_queue clock msgs (reaped + 1))
        (reap_each-Keeps queue anchor_queue clock msgs reaped)

  reap_queue-Keeps :
      (queue : Bytes) (anchor_queue : Option Bytes) (now : ℕ) (clock : Message → Stamp) (s : Store)
      → Keeps s.results (after (reap_queue g p queue anchor_queue now clock s)).results
  unfolding reap_queue then_on lift
  reap_queue-Keeps queue anchor_queue now clock s =
      Keeps-then_on s.results
        (λ (abandoned : List Message). reap_each g p queue anchor_queue clock abandoned 0) failed
        (lift (list_abandoned queue now) s) (lifted-Keeps s.results (list_abandoned queue now s.db))
        (λ abandoned. reap_each-Keeps queue anchor_queue clock abandoned 0)
        (λ u j r found over. found)

  reap_queues-Keeps :
      (global : Bytes) (now : Bytes → ℕ) (clock : Message → Stamp) (queues : List Bytes) (total : ℕ)
      (s : Store)
      → Keeps s.results (after (reap_queues g p global now clock queues total s)).results
  unfolding reap_queues then_on
  reap_queues-Keeps global now clock [] total s = λ j r found over. found
  reap_queues-Keeps global now clock (queue ∷ queues) total s =
      Keeps-then_on s.results (λ n. reap_queues g p global now clock queues (total + n))
        (did (total, true)) (reap_queue g p queue (some global) (now queue) clock s)
        (reap_queue-Keeps queue (some global) (now queue) clock s)
        (λ n. reap_queues-Keeps global now clock queues (total + n)) (λ u j r found over. found)

  -- The startup sweep overwrites no result that has ended, whichever messages and queues it comes
  -- to, and whatever fails on the way.
  pub reap_abandoned-Keeps :
      (global : Bytes) (queues : List Bytes) (now : Bytes → ℕ) (clock : Message → Stamp) (s : Store)
      → Keeps s.results (after (reap_abandoned g p global queues now clock s)).results
  unfolding reap_abandoned then_on
  reap_abandoned-Keeps global queues now clock s =
      Keeps-then_on s.results (λ n. reap_queues g p global now clock queues n) (did (0, true))
        (reap_queue g p global none (now global) clock s)
        (reap_queue-Keeps global none (now global) clock s)
        (reap_queues-Keeps global now clock queues) (λ u j r found over. found)

-- ===== src/Queue/Sweeper.antt =====
-- internal/queue/sweeper.go: the startup sweep over messages that a crashed process left behind.
pub mod Kept
pub mod Reaped
mod Tests
use mass.Prelude.{
  ℕ, ◌+◌, Bool, true, false, ◌&&◌, ◌||◌, not, List, [], ◌∷◌, Option, none, some, Bytes, codes,
  if◌then◌else◌,
}
use mass.Queue.Database.{Goqite}
use mass.Queue.Envelope.{Proto, Envelope, is_empty, unmarshal_envelope}
use mass.Queue.Ops.{list_abandoned, delete, delete_both}
use mass.Queue.Results.{
  ResultRow, Stamp, S, did, failed, crashed, ◌>>=◌, ◌>>◌, return, lift, get, fail, is_terminal,
}
use mass.Queue.Table.{Message}

-- "task abandoned: delivered %d of %d times, no result reported", with `MaxReceive` twice.
unfoldable pub abandoned_message : Bytes
abandoned_message = codes "task abandoned: delivered 1 of 1 times, no result reported"

abbrev pub has_ended : Option ResultRow → Bool
has_ended none = false
has_ended (some r) = is_terminal r.status

-- The request and the anchor that a message names.
pub names_in : (p : Proto) → Message → Option (Envelope p) → Bytes × Bytes
names_in p msg none = (msg.id, [])
names_in p msg (some env) =
    (if is_empty env.request_id then msg.id else env.request_id, env.global_msg_id)

unfoldable pub names_of : (p : Proto) → Message → Bytes × Bytes
unfolding names_in
names_of p msg = names_in p msg (unmarshal_envelope p msg.body)

-- `Fail` runs an `Exec`, which never answers with `sql.ErrNoRows`: its every error ends the call.
unfoldable pub record_failure : Bytes → Stamp → Option ResultRow → S (Unit {0})
record_failure request_id now existing =
    if has_ended existing then return tt else fail request_id abandoned_message now

module _ (g : Goqite) (p : Proto) where
  -- `none` is the nil anchor queue.
  unfoldable pub delete_message : Bytes → Option Bytes → Bytes → Bytes → S (Unit {0})
  delete_message queue none id anchor_id = lift (delete g queue id)
  delete_message queue (some anchor_queue) id anchor_id =
      if is_empty anchor_id
      then lift (delete g queue id)
      else lift (delete_both g queue id anchor_queue anchor_id)

  unfoldable pub reap_one : Bytes → Option Bytes → Stamp → Message → S (Unit {0})
  unfolding delete_message record_failure names_of
  reap_one queue anchor_queue now msg = do
    let (request_id, anchor_id) = names_of p msg
    existing ← get request_id
    record_failure request_id now existing
    delete_message queue anchor_queue msg.id anchor_id

  -- The loop of `reapQueue`. `clock` is the time at which it comes to a message.
  unfoldable pub reap_each : Bytes → Option Bytes → (Message → Stamp) → List Message → ℕ → S ℕ
  unfolding reap_one
  reap_each queue anchor_queue clock [] reaped s = did reaped s
  reap_each queue anchor_queue clock (msg ∷ msgs) reaped s =
      elim (reap_one queue anchor_queue (clock msg) msg s) [
        | did _ s' ↦ reap_each queue anchor_queue clock msgs (reaped + 1) s'
        | failed s' ↦ reap_each queue anchor_queue clock msgs reaped s'
        | crashed s' ↦ crashed s'
      ]

  unfoldable pub reap_queue : Bytes → Option Bytes → ℕ → (Message → Stamp) → S ℕ
  unfolding reap_each
  reap_queue queue anchor_queue now clock = do
    abandoned ← lift (list_abandoned queue now)
    reap_each queue anchor_queue clock abandoned 0

  -- The loop of `ReapAbandoned` over the worker queues: the total, and whether an error ended it.
  unfoldable pub reap_queues :
      Bytes → (Bytes → ℕ) → (Message → Stamp) → List Bytes → ℕ → S (ℕ × Bool)
  unfolding reap_queue
  reap_queues global now clock [] total s = did (total, false) s
  reap_queues global now clock (queue ∷ queues) total s =
      elim (reap_queue queue (some global) (now queue) clock s) [
        | did n s' ↦ reap_queues global now clock queues (total + n) s'
        | failed s' ↦ did (total, true) s'
        | crashed s' ↦ crashed s'
      ]

  unfoldable pub reap_abandoned :
      Bytes → List Bytes → (Bytes → ℕ) → (Message → Stamp) → S (ℕ × Bool)
  unfolding reap_queue reap_queues
  reap_abandoned global queues now clock s = elim (reap_queue global none (now global) clock s) [
    | did n s' ↦ reap_queues global now clock queues n s'
    | failed s' ↦ did (0, true) s'
    | crashed s' ↦ crashed s'
  ]

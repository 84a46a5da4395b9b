-- ===== src/Scheduler/Cancels/ByRequest.antt =====
-- `CancelByRequestID` of internal/scheduler/queue_view.go: whatever stage a job is in, its cancel
-- reaches it.
use mass.Prelude.{
  All, ◌≡◌, refl, sym, ap, subst, ◌∙◌, inl, inr, true, List, [], ◌∷◌, Option, none, some, Bytes,
  Bool-cases, arith,
}
use mathlib.Core.List.{Memᴰ}
use mathlib.Core.List.Memᴰ.{head, tail}
use mass.Prelude.Map.{IsMap, lookup}
use mass.Queue.Database.{Goqite}
use mass.Queue.Envelope.{Proto, unmarshal_envelope}
use mass.Queue.Ops.{peek}
use mass.Queue.Ops.Shown.{IsShown, visible-IsShown}
use mass.Queue.Results.{Outcome, did, failed, crashed, lift}
use mass.Queue.Table.{Message, Table}
use mass.Scheduler.Cancels.{
  Reply, not_inflight, View, Console, find_request, names_request, cancel_in, scanned,
  cancel_on_workers, on_global, cancel_by_request_id,
}
use mass.Scheduler.Cancels.Answers.{Answers, IsScanned, row-Answers, cancel_dispatched-Answers}
use mass.Scheduler.Cancels.Effects.{
  Untouched, Read, visible_in, peek-Read, Untouched-then, cancel_in-RowReply,
}
use mass.Scheduler.Inflight.{Float64}

-- The message that a loop by request finds.
find_request_lem :
    (p : Proto) (P : Message → Type 0) (r : Bytes) (msgs : List Message) (id : Bytes)
    → All P msgs
    → find_request p r msgs ≡ some id
    → (m : Message) × P m × (m.id ≡ id) × (names_request p r (unmarshal_envelope p m.body) ≡ true)
unfolding find_request
find_request_lem p P r [] id all found = absurd (cc found)
find_request_lem p P r (x ∷ msgs) id (h, all) found =
    elim (Bool-cases (names_request p r (unmarshal_envelope p x.body))) [
      | inl named ↦
          let here : some x.id ≡ some id = rw named at found in (x, h, ground (arith, here), named)
      | inr other ↦ find_request_lem p P r msgs id all (rw other at found)
    ]

module _ (g : Goqite) (p : Proto) (fl : Float64) (c : Console fl) where
  -- No row of the queues that a scan sees carries the request.
  abbrev pub NoneWaits : Bytes → List Bytes → Table → Type 0
  NoneWaits r queues t =
      All (λ queue. find_request p r (visible_in queue (Console.limit c) (Console.now c) t) ≡ none)
        queues

  abbrev pub Reaches : Bytes → List Bytes → View fl → Reply × View fl → Type 0
  Reaches r queues v reply =
      Answers g p fl c r v reply × (reply.0 ≡ not_inflight → NoneWaits r queues v.store.db.rows)

  scanned_read :
      (r queue : Bytes) (anchors : Option Bytes) (queues : List Bytes) (msgs : List Message)
      (found : Option Bytes) (next : View fl → Reply × View fl) (v w : View fl)
      → IsScanned g p fl c queue anchors
      → IsMap v.store.db.rows
      → find_request p r msgs ≡ found
      → msgs ≡ visible_in queue (Console.limit c) (Console.now c) v.store.db.rows
      → Untouched fl v w
      → Reaches r queues v (next w)
      → Reaches r
          (queue ∷ queues)
          v
          (elim found [ none ↦ next w | some id ↦ cancel_in g p fl c queue anchors id w ])
  scanned_read r queue anchors queues msgs none next v w scans keyed e shown h (answers, waits) =
      (answers, λ gone. (ap (find_request p r) (sym shown) ∙ e, waits gone))
  scanned_read r queue anchors queues msgs (some id) next v w scans keyed e shown h rest =
      let reply = cancel_in g p fl c queue anchors id w in
      let (m, (row, there, body, _), same, named) =
        find_request_lem p (IsShown queue (Console.now c) v.store.db.rows) r msgs id
          (subst (All (IsShown queue (Console.now c) v.store.db.rows)) (sym shown)
            (visible-IsShown queue (Console.limit c) (Console.now c) v.store.db.rows keyed))
          e in
      let (answers, never) =
        row-Answers g p fl c r queue anchors id v reply.1 reply.0 scans
          (
            row,
            subst (λ k. lookup k v.store.db.rows ≡ some row) same there,
            subst (λ b. names_request p r (unmarshal_envelope p b) ≡ true) body named,
          )
          (cancel_in-RowReply g p fl c queue anchors id v w h keyed) in
      (answers, λ x. absurd (never x))

  scanned-Reaches :
      (r queue : Bytes) (anchors : Option Bytes) (queues : List Bytes) (o : Outcome (List Message))
      (next : View fl → Reply × View fl) (v w : View fl)
      → IsScanned g p fl c queue anchors
      → IsMap v.store.db.rows
      → Untouched fl v w
      → Read (visible_in queue (Console.limit c) (Console.now c) w.store.db.rows) w.store o
      → ((u : View fl) → Untouched fl v u → Reaches r queues v (next u))
      → Reaches r (queue ∷ queues) v (scanned g p fl c r queue anchors o next w)
  unfolding scanned
  scanned-Reaches r queue anchors queues (did msgs s) next v w scans keyed h (all, (rows, results))
        rest =
      let after_read =
        Untouched-then fl v w (record w { store = s }) h (rows, results, refl, refl) in
      scanned_read r queue anchors queues msgs (find_request p r msgs) next v
        (record w { store = s }) scans keyed refl
        (all ∙ ap (visible_in queue (Console.limit c) (Console.now c)) h.0) after_read
        (rest (record w { store = s }) after_read)
  scanned-Reaches r queue anchors queues (failed s) next v w scans keyed h (rows, results) rest = (
    Untouched-then fl v w (record w { store = s }) h (rows, results, refl, refl),
    λ e. absurd (cc e),
  )
  scanned-Reaches r queue anchors queues (crashed s) next v w scans keyed h (rows, results) rest = (
    Untouched-then fl v w (record w { store = s }) h (rows, results, refl, refl),
    λ e. absurd (cc e),
  )

  on_workers-Reaches :
      (r : Bytes) (queues : List Bytes) (v w : View fl)
      → ((q : Bytes) → Memᴰ q queues → Memᴰ q (Console.workers c))
      → IsMap v.store.db.rows
      → Untouched fl v w
      → Reaches r queues v (cancel_on_workers g p fl c r queues w)
  unfolding cancel_on_workers
  on_workers-Reaches r [] v w known keyed h = (cancel_dispatched-Answers g p fl c r v w h, λ e. tt)
  on_workers-Reaches r (queue ∷ queues) v w known keyed h =
      scanned-Reaches r queue (Console.global c) queues
        (lift (peek queue (Console.limit c) (Console.now c)) w.store)
        (λ u. cancel_on_workers g p fl c r queues u) v w (inr (known queue (head refl), refl)) keyed
        h (peek-Read queue (Console.limit c) (Console.now c) w.store)
        (λ u same. on_workers-Reaches r queues v u (λ q m. known q (tail m)) keyed same)

  abbrev pub all_queues : Option Bytes → List Bytes
  all_queues none = Console.workers c
  all_queues (some global) = global ∷ Console.workers c

  on_global-Reaches :
      (r : Bytes) (o : Option Bytes) (v : View fl)
      → Console.global c ≡ o
      → IsMap v.store.db.rows
      → Reaches r (all_queues o) v (on_global g p fl c r o v)
  unfolding on_global
  on_global-Reaches r none v here keyed =
      on_workers-Reaches r (Console.workers c) v v (λ q m. m) keyed (refl, refl, refl, refl)
  on_global-Reaches r (some global) v here keyed =
      scanned-Reaches r global none (Console.workers c)
        (lift (peek global (Console.limit c) (Console.now c)) v.store)
        (λ u. cancel_on_workers g p fl c r (Console.workers c) u) v v (inl (here, refl)) keyed
        (refl, refl, refl, refl) (peek-Read global (Console.limit c) (Console.now c) v.store)
        (λ u same. on_workers-Reaches r (Console.workers c) v u (λ q m. m) keyed same)

  -- A cancel by request ID that reports success has reached the job: a visible row that carries the
  -- request is gone, from the global queue alone, from a worker's queue with the anchor that it names
  -- in the global queue (if that is there); or the dispatch that is placing the job will see
  -- the cancel; or the record of the running job is marked. One that reports the job not in flight
  -- has touched nothing, and then the job was neither being placed nor running, and no queue showed a
  -- row of the request. Where the worker cannot be told, the mark stands all the same; on any other
  -- error nothing is touched.
  pub cancel_by_request_id-Reaches :
      (r : Bytes) (v : View fl)
      → IsMap v.store.db.rows
      → Reaches r (all_queues (Console.global c)) v (cancel_by_request_id g p fl c r v)
  unfolding cancel_by_request_id
  cancel_by_request_id-Reaches r v keyed = on_global-Reaches r (Console.global c) v refl keyed

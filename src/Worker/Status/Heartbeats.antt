-- ===== src/Worker/Status/Heartbeats.antt =====
-- What successive heartbeats leave of the idle time of a model, in `ApplyHeartbeat` of
-- internal/worker/stream_worker.go.
use mass.Prelude.{
  All, ◌≡◌, refl, Bool, true, false, ◌⊎◌, inl, inr, List, [], ◌∷◌, Option, none, some, Bytes,
  bytes_eq, bytes_eq_iff, Bool-cases, ℕ, if◌then◌else◌,
}
use mass.Prelude.Map.{Map, lookup, insert, lookup-insert}
use mass.Prelude.Words.{is_positive}
use mass.Worker.Status.{
  LoadedModelStatus, LoadedReport, WorkerHeartbeat, StreamWorker, index, index_from, merge_loaded,
  refreshed, known_source, known_stamp, idle_stamp, apply_heartbeat,
}

abbrev pub has_report : Bytes → List LoadedReport → Bool
has_report m [] = false
has_report m (r ∷ rs) = if bytes_eq r.model_id m then true else has_report m rs

-- The heartbeat reports the model, and only as idle.
abbrev pub ReportsIdle : Bytes → WorkerHeartbeat → Type 0
ReportsIdle m hb =
    (has_report m hb.loaded_models ≡ true)
    × All (λ (r : LoadedReport). bytes_eq r.model_id m ≡ true → is_positive r.active ≡ false)
        hb.loaded_models

-- The model is known, from that source, and idle since then.
abbrev pub IsIdleSince : Bytes → ℕ → Option LoadedModelStatus → Type 0
IsIdleSince source since none = ⊥
IsIdleSince source since (some lm) = (lm.source ≡ source) × (lm.idle_since ≡ some since)

refreshed-IsIdleSince :
    (source : Bytes) (since now : ℕ) (o : Option LoadedModelStatus) (r : LoadedReport)
    → IsIdleSince source since o
    → is_positive r.active ≡ false
    → IsIdleSince source since (some (refreshed now o r))
unfolding refreshed known_source idle_stamp known_stamp
refreshed-IsIdleSince source since now none r h idle = absurd h
refreshed-IsIdleSince source since now (some old) r (from, stamp) idle =
    (from, rw (idle, stamp) refl)

index_from-IsIdleSince :
    (m source : Bytes) (since now : ℕ) (prev acc : Map LoadedModelStatus) (rs : List LoadedReport)
    → IsIdleSince source since (lookup m prev)
    → All (λ (r : LoadedReport). bytes_eq r.model_id m ≡ true → is_positive r.active ≡ false) rs
    → (IsIdleSince source since (lookup m acc) ⊎ (has_report m rs ≡ true))
    → IsIdleSince source since (lookup m (index_from acc (merge_loaded now prev rs)))
unfolding index_from merge_loaded
index_from-IsIdleSince m source since now prev acc [] h idle (inl kept) = kept
index_from-IsIdleSince m source since now prev acc [] h idle (inr none_left) = absurd (cc none_left)
index_from-IsIdleSince m source since now prev acc (r ∷ rs) h (idle, others) found =
    let head = refreshed now (lookup r.model_id prev) r in
    index_from-IsIdleSince m source since now prev (insert r.model_id head acc) rs h others
      (elim (Bool-cases (bytes_eq r.model_id m)) [
        | inl same ↦ inl (
            rw (lookup-insert r.model_id m head acc, same)
              (rw ((bytes_eq_iff r.model_id m).0 same)
                (refreshed-IsIdleSince source since now (lookup m prev) r h (idle same))))
        | inr other ↦ rw (lookup-insert r.model_id m head acc, other) (rw other at found)
      ])

apply_heartbeat-IsIdleSince :
    (m source : Bytes) (since now : ℕ) (hb : WorkerHeartbeat) (w : StreamWorker)
    → ReportsIdle m hb
    → IsIdleSince source since (lookup m (index w.loaded))
    → IsIdleSince source since (lookup m (index (apply_heartbeat now hb w).1.loaded))
unfolding apply_heartbeat index
apply_heartbeat-IsIdleSince m source since now hb w (found, idle) h =
    index_from-IsIdleSince m source since now (index w.loaded) [] hb.loaded_models h idle
      (inr found)

unfoldable pub apply_heartbeats : List (ℕ × WorkerHeartbeat) → StreamWorker → StreamWorker
apply_heartbeats [] w = w
apply_heartbeats ((now, hb) ∷ hbs) w = apply_heartbeats hbs (apply_heartbeat now hb w).1

-- As long as a worker goes on reporting a model, and reports it idle each time, the model counts as
-- idle since the heartbeat that first found it so, and keeps its source: the time after which it
-- is evicted for being idle is never pushed back.
pub IsIdleSince-stays :
    (m source : Bytes) (since : ℕ) (hbs : List (ℕ × WorkerHeartbeat)) (w : StreamWorker)
    → IsIdleSince source since (lookup m (index w.loaded))
    → All (λ (e : ℕ × WorkerHeartbeat). ReportsIdle m e.1) hbs
    → IsIdleSince source since (lookup m (index (apply_heartbeats hbs w).loaded))
unfolding apply_heartbeats
IsIdleSince-stays m source since [] w h all = h
IsIdleSince-stays m source since ((now, hb) ∷ hbs) w h (reported, others) =
    IsIdleSince-stays m source since hbs (apply_heartbeat now hb w).1
      (apply_heartbeat-IsIdleSince m source since now hb w reported h) others

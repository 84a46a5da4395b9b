-- ===== src/Scheduler/Scoring/Members.antt =====
-- `WorkersForRuntime` of internal/scheduler/scheduler.go: whom it lists.
use mass.Prelude.{◌≡◌, refl, sym, ap, ◌∙◌, Bool, true, false, List, [], ◌∷◌, Bytes, if◌then◌else◌}
use mathlib.Core.List.{Memᴰ}
use mathlib.Core.List.Memᴰ.{head, tail}
use mass.Queue.Envelope.{Proto}
use mass.Scheduler.Devices.{string_lt}
use mass.Scheduler.Inflight.{Float64}
use mass.Scheduler.Scoring.{Arith, Fleet, sort_worker_in, sort_workers, serves, serving}
use mass.Worker.Status.{StreamWorker}

-- Where `sort_worker_in` may put a worker, and whom it keeps.
sifted :
    (b : Bool) (w u v : StreamWorker) (vs sorted : List StreamWorker)
    → (Memᴰ v sorted → Memᴰ v (w ∷ vs))
    → Memᴰ v (if b then u ∷ sorted else w ∷ u ∷ vs)
    → Memᴰ v (w ∷ u ∷ vs)
sifted false w u v vs sorted deeper m = m
sifted true w u v vs sorted deeper (head e) = tail (head e)
sifted true w u v vs sorted deeper (tail m) = swapped (deeper m)
  where
    swapped : Memᴰ v (w ∷ vs) → Memᴰ v (w ∷ u ∷ vs)
    swapped (head e) = head e
    swapped (tail n) = tail (tail n)

sort_worker_in-lists :
    (w : StreamWorker) (vs : List StreamWorker) (v : StreamWorker)
    → Memᴰ v (sort_worker_in w vs)
    → Memᴰ v (w ∷ vs)
unfolding sort_worker_in
sort_worker_in-lists w [] v m = m
sort_worker_in-lists w (u ∷ vs) v m =
    sifted (string_lt u.id w.id) w u v vs (sort_worker_in w vs) (sort_worker_in-lists w vs v) m

sifted_too :
    (b : Bool) (w u v : StreamWorker) (vs sorted : List StreamWorker)
    → (Memᴰ v (w ∷ vs) → Memᴰ v sorted)
    → Memᴰ v (w ∷ u ∷ vs)
    → Memᴰ v (if b then u ∷ sorted else w ∷ u ∷ vs)
sifted_too false w u v vs sorted deeper m = m
sifted_too true w u v vs sorted deeper (head e) = tail (deeper (head e))
sifted_too true w u v vs sorted deeper (tail (head e)) = head e
sifted_too true w u v vs sorted deeper (tail (tail m)) = tail (deeper (tail m))

sort_worker_in-keeps :
    (w : StreamWorker) (vs : List StreamWorker) (v : StreamWorker)
    → Memᴰ v (w ∷ vs)
    → Memᴰ v (sort_worker_in w vs)
unfolding sort_worker_in
sort_worker_in-keeps w [] v m = m
sort_worker_in-keeps w (u ∷ vs) v m =
    sifted_too (string_lt u.id w.id) w u v vs (sort_worker_in w vs) (sort_worker_in-keeps w vs v) m

under {ℓ} :
    {A : Type ℓ} {v w : A} {xs ys : List A}
    → (Memᴰ v xs → Memᴰ v ys)
    → Memᴰ v (w ∷ xs)
    → Memᴰ v (w ∷ ys)
under f (head e) = head e
under f (tail m) = tail (f m)

pub sort_workers-lists :
    (ws : List StreamWorker) (v : StreamWorker) → Memᴰ v (sort_workers ws) → Memᴰ v ws
unfolding sort_workers
sort_workers-lists [] v m = m
sort_workers-lists (w ∷ ws) v m =
    under (sort_workers-lists ws v) (sort_worker_in-lists w (sort_workers ws) v m)

pub sort_workers-keeps :
    (ws : List StreamWorker) (v : StreamWorker) → Memᴰ v ws → Memᴰ v (sort_workers ws)
unfolding sort_workers
sort_workers-keeps [] v m = m
sort_workers-keeps (w ∷ ws) v m =
    sort_worker_in-keeps w (sort_workers ws) v (under (sort_workers-keeps ws v) m)

-- A list's members that pass a test.
chosen {ℓ} :
    {A : Type ℓ} (test : A → Bool) (w v : A) (rest ws : List A) (b : Bool)
    → test w ≡ b
    → (Memᴰ v rest → Memᴰ v ws × (test v ≡ true))
    → Memᴰ v (if b then w ∷ rest else rest)
    → Memᴰ v (w ∷ ws) × (test v ≡ true)
chosen test w v rest ws false e deeper m = (tail (deeper m).0, (deeper m).1)
chosen test w v rest ws true e deeper (head same) = (head same, ap test same ∙ e)
chosen test w v rest ws true e deeper (tail m) = (tail (deeper m).0, (deeper m).1)

chosen_too {ℓ} :
    {A : Type ℓ} (test : A → Bool) (w v : A) (rest ws : List A) (b : Bool)
    → test w ≡ b
    → test v ≡ true
    → (Memᴰ v ws → Memᴰ v rest)
    → Memᴰ v (w ∷ ws)
    → Memᴰ v (if b then w ∷ rest else rest)
chosen_too test w v rest ws true e does deeper m = under deeper m
chosen_too test w v rest ws false e does deeper (head same) =
    absurd (cc (sym does ∙ ap test same ∙ e))
chosen_too test w v rest ws false e does deeper (tail m) = deeper m

module _ (fl : Float64) (p : Proto) (a : Arith fl) (fleet : Fleet fl p) where
  pub serving-lists :
      (name : Bytes) (ws : List StreamWorker) (v : StreamWorker)
      → Memᴰ v (serving fl p a fleet name ws)
      → Memᴰ v ws × (serves fl p a fleet name v ≡ true)
  unfolding serving
  serving-lists name [] v m = elim m [ ]
  serving-lists name (w ∷ ws) v m =
      chosen (serves fl p a fleet name) w v (serving fl p a fleet name ws) ws
        (serves fl p a fleet name w) refl (serving-lists name ws v) m

  pub serving-keeps :
      (name : Bytes) (ws : List StreamWorker) (v : StreamWorker)
      → serves fl p a fleet name v ≡ true
      → Memᴰ v ws
      → Memᴰ v (serving fl p a fleet name ws)
  unfolding serving
  serving-keeps name [] v does m = elim m [ ]
  serving-keeps name (w ∷ ws) v does m =
      chosen_too (serves fl p a fleet name) w v (serving fl p a fleet name ws) ws
        (serves fl p a fleet name w) refl does (serving-keeps name ws v does) m

-- ===== src/Scheduler/Scoring/Best.antt =====
-- `pickWorkerQueue` of internal/scheduler/scheduler.go against what it promises: the best of the
-- workers that may take the job.
use mass.Prelude.{
  ◌≡◌, refl, sym, ap, subst, ◌∙◌, Bool, true, false, ◌⊎◌, inl, inr, List, [], ◌∷◌, Option, none,
  some, if◌then◌else◌,
}
use mathlib.Core.List.{Memᴰ}
use mathlib.Core.List.Memᴰ.{head, tail}
use mass.Prelude.Map.{Map}
use mass.Queue.Envelope.{Proto, Envelope}
use mass.Scheduler.Devices.{ModelBenchmarkRow}
use mass.Scheduler.Dispatch.{TailState}
use mass.Scheduler.Inflight.{Float64, Ledger}
use mass.Scheduler.Scoring.{
  Arith, Fleet, Cand, Target, workers_for_runtime, candidates_of, score_of, better, pick_from,
  pick_worker_queue,
}
use mass.Scheduler.Scoring.Candidates.{MayTake, offer, cand_at, listed-MayTake, MayTake-listed}
use mass.Worker.Status.{StreamWorker}

module _ (fl : Float64) (p : Proto) (a : Arith fl) (fleet : Fleet fl p) where
  -- The rest of the list against the best so far.
  abbrev Least :
      Envelope p → Ledger fl → Map (TailState fl) → Target fl → List (Cand fl) → Target fl → Type 0
  Least env l tails best cs t =
      ((t ≡ best)
        ⊎ ((c : Cand fl) × Memᴰ c cs
            × (t ≡ score_of fl p a fleet env l tails c)
            × (Arith.lt_f a t.score best.score ≡ true)))
      × ((c : Cand fl)
          → Memᴰ c cs
          → Arith.lt_f a (score_of fl p a fleet env l tails c).score t.score ≡ false)

  not_true : (b : Bool) → (b ≡ true → ⊥) → b ≡ false
  not_true true h = absurd (h refl)
  not_true false h = refl

  -- What is not below the best so far is not below what comes out.
  stays_above :
      (s best t : Target fl)
      → Arith.lt_f a s.score best.score ≡ false
      → (t ≡ best) ⊎ (Arith.lt_f a t.score best.score ≡ true)
      → Arith.lt_f a s.score t.score ≡ false
  stays_above s best t above (inl e) =
      ap (λ (u : Target fl). Arith.lt_f a s.score u.score) e ∙ above
  stays_above s best t above (inr below) =
      not_true _ (λ h. cc (above, Arith.lt_trans a s.score t.score best.score h below))

  -- Nothing, or less than the bound.
  weaker :
      (t best : Target fl) (cs : List (Cand fl)) (env : Envelope p) (l : Ledger fl)
      (tails : Map (TailState fl))
      → Least env l tails best cs t
      → (t ≡ best) ⊎ (Arith.lt_f a t.score best.score ≡ true)
  weaker t best cs env l tails (inl e, h) = inl e
  weaker t best cs env l tails (inr (c, m, e, below), h) = inr below

  one_more_below :
      (env : Envelope p) (l : Ledger fl) (tails : Map (TailState fl)) (t : Target fl) (c : Cand fl)
      (cs : List (Cand fl))
      → Arith.lt_f a (score_of fl p a fleet env l tails c).score t.score ≡ false
      → ((d : Cand fl)
          → Memᴰ d cs
          → Arith.lt_f a (score_of fl p a fleet env l tails d).score t.score ≡ false)
      → (d : Cand fl) → Memᴰ d (c ∷ cs)
      → Arith.lt_f a (score_of fl p a fleet env l tails d).score t.score ≡ false
  one_more_below env l tails t c cs first others d (head e) =
      ap (λ x. Arith.lt_f a (score_of fl p a fleet env l tails x).score t.score) e ∙ first
  one_more_below env l tails t c cs first others d (tail m) = others d m

  takes_over :
      (env : Envelope p) (l : Ledger fl) (tails : Map (TailState fl)) (best t : Target fl)
      (c : Cand fl) (cs : List (Cand fl))
      → Arith.lt_f a (score_of fl p a fleet env l tails c).score best.score ≡ true
      → Least env l tails (score_of fl p a fleet env l tails c) cs t
      → Least env l tails best (c ∷ cs) t
  takes_over env l tails best t c cs below (inl e, others) = (
    inr (c, head refl, e, ap (λ (u : Target fl). Arith.lt_f a u.score best.score) e ∙ below),
    one_more_below env l tails t c cs
        (ap (λ (u : Target fl). Arith.lt_f a (score_of fl p a fleet env l tails c).score u.score) e
          ∙ Arith.lt_irrefl a (score_of fl p a fleet env l tails c).score)
        others,
  )
  takes_over env l tails best t c cs below (inr (d, m, e, less), others) =
      let s = score_of fl p a fleet env l tails c in
      (
        inr (d, tail m, e, Arith.lt_trans a t.score s.score best.score less below),
        one_more_below env l tails t c cs (stays_above s s t (Arith.lt_irrefl a s.score) (inr less))
            others,
      )

  passed_over :
      (env : Envelope p) (l : Ledger fl) (tails : Map (TailState fl)) (best t : Target fl)
      (c : Cand fl) (cs : List (Cand fl))
      → Arith.lt_f a (score_of fl p a fleet env l tails c).score best.score ≡ false
      → Least env l tails best cs t
      → Least env l tails best (c ∷ cs) t
  passed_over env l tails best t c cs above (from, others) = (
    elim from [ inl e ↦ inl e | inr found ↦ inr (found.0, tail found.1, found.2, found.3) ],
    one_more_below env l tails t c cs
        (stays_above (score_of fl p a fleet env l tails c) best t above
          (weaker t best cs env l tails (from, others)))
        others,
  )

  abbrev Picks :
      Envelope p
      → Ledger fl
      → Map (TailState fl)
      → Target fl
      → List (Cand fl)
      → Option (Target fl)
      → Type 0
  Picks env l tails best cs o = (t : Target fl) × (o ≡ some t) × Least env l tails best cs t

  pick_from-Least :
      (env : Envelope p) (l : Ledger fl) (tails : Map (TailState fl)) (best : Target fl)
      (cs : List (Cand fl))
      → Picks env l tails best cs (pick_from fl p a fleet env l tails (some best) cs)
  unfolding pick_from better
  pick_from-Least env l tails best [] = (best, refl, (inl refl, λ c m. elim m [ ]))
  pick_from-Least env l tails best (c ∷ cs) =
      next (Arith.lt_f a (score_of fl p a fleet env l tails c).score best.score) refl
        (pick_from-Least env l tails (score_of fl p a fleet env l tails c) cs)
        (pick_from-Least env l tails best cs)
    where
      s : Target fl
      s = score_of fl p a fleet env l tails c

      next :
          (b : Bool)
          → Arith.lt_f a s.score best.score ≡ b
          → Picks env l tails s cs (pick_from fl p a fleet env l tails (some s) cs)
          → Picks env l tails best cs (pick_from fl p a fleet env l tails (some best) cs)
          → Picks env l tails best
              (c ∷ cs)
              (pick_from fl p a fleet env l tails (some (if b then s else best)) cs)
      next true below (t, e, h) other = (t, e, takes_over env l tails best t c cs below h)
      next false above other (t, e, h) = (t, e, passed_over env l tails best t c cs above h)

  -- No worker may take the job; or the target is the offer of one that may, and no other offer scores
  -- less.
  abbrev pub IsBest : Envelope p → Ledger fl → Map (TailState fl) → Option (Target fl) → Type 0
  IsBest env l tails none =
      (w : StreamWorker) (row : ModelBenchmarkRow fl) → MayTake fl p a fleet env l w row → ⊥
  IsBest env l tails (some t) =
      (w : StreamWorker) × (row : ModelBenchmarkRow fl) × MayTake fl p a fleet env l w row
      × (t ≡ offer fl p a fleet env l tails w row)
      × ((v : StreamWorker) (r : ModelBenchmarkRow fl)
          → MayTake fl p a fleet env l v r
          → Arith.lt_f a (offer fl p a fleet env l tails v r).score t.score ≡ false)

  listed : Envelope p → Ledger fl → List (Cand fl)
  listed env l =
      candidates_of fl p a fleet env l (workers_for_runtime fl p a fleet env.runtime_name)

  from_listed-IsBest :
      (env : Envelope p) (l : Ledger fl) (tails : Map (TailState fl)) (t : Target fl) (c : Cand fl)
      → Memᴰ c (listed env l)
      → t ≡ score_of fl p a fleet env l tails c
      → ((d : Cand fl)
          → Memᴰ d (listed env l)
          → Arith.lt_f a (score_of fl p a fleet env l tails d).score t.score ≡ false)
      → IsBest env l tails (some t)
  unfolding listed
  from_listed-IsBest env l tails t c m e below =
      let (w, row, may, same) = listed-MayTake fl p a fleet env l c m in
      (
        w,
        row,
        may,
        e ∙ ap (score_of fl p a fleet env l tails) same,
        λ v r may. below (cand_at fl p a fleet v r) (MayTake-listed fl p a fleet env l v r may),
      )

  found_in :
      (env : Envelope p) (l : Ledger fl) (tails : Map (TailState fl)) (t : Target fl) (c : Cand fl)
      (cs : List (Cand fl))
      → Least env l tails (score_of fl p a fleet env l tails c) cs t
      → (d : Cand fl) × Memᴰ d (c ∷ cs) × (t ≡ score_of fl p a fleet env l tails d)
  found_in env l tails t c cs (inl e, others) = (c, head refl, e)
  found_in env l tails t c cs (inr (d, m, e, less), others) = (d, tail m, e)

  chosen-IsBest :
      (env : Envelope p) (l : Ledger fl) (tails : Map (TailState fl)) (cs : List (Cand fl))
      → cs ≡ listed env l
      → IsBest env l tails (pick_from fl p a fleet env l tails none cs)
  unfolding listed pick_from better
  chosen-IsBest env l tails [] e = λ w row may.
      elim (subst (Memᴰ (cand_at fl p a fleet w row)) (sym e)
        (MayTake-listed fl p a fleet env l w row may)) [ ]
  chosen-IsBest env l tails (c ∷ cs) e =
      let first = score_of fl p a fleet env l tails c in
      let (t, is, least) = pick_from-Least env l tails first cs in
      let (d, there, same) = found_in env l tails t c cs least in
      subst (IsBest env l tails) (sym is) (
        from_listed-IsBest env l tails t d (subst (Memᴰ d) e there) same (λ u m.
          one_more_below env l tails t c cs
            (stays_above first first t (Arith.lt_irrefl a first.score)
              (weaker t first cs env l tails least))
            least.1 u (subst (Memᴰ u) (sym e) m)))

  -- The queue that a job is placed on is the offer of a worker that is online and enabled for the
  -- job's runtime, has its model measured, can reach its files, has the memory and has a queue, and no
  -- other such worker's offer has a lower score; there is no choice only if there is no such worker.
  pub pick_worker_queue-IsBest :
      (env : Envelope p) (l : Ledger fl) (tails : Map (TailState fl))
      → IsBest env l tails (pick_worker_queue fl p a fleet env l tails)
  unfolding pick_worker_queue listed
  pick_worker_queue-IsBest env l tails = chosen-IsBest env l tails (listed env l) refl

-- ===== src/Scheduler/Draining/Exclusion.antt =====
-- The drain slots of internal/scheduler/scheduler.go: one drainer at a time, and no pass forgotten.
use mass.Prelude.{
  ℕ, ◌+◌, ◌-◌, ◌<◌, ltb, ◌≡◌, refl, ap, Bool, true, false, [], Option, none, some, Bytes, bytes_eq,
  bytes_eq_iff, if◌then◌else◌, Bool-cases, inl, inr, arith,
}
use mass.Prelude.Map.{lookup, erase, lookup-insert, lookup-erase}
use mass.Scheduler.Draining.{
  Slots, mark_slot, try_mark_draining, is_wanted, finish_draining, is_draining,
}

-- One queue beside all others. `drainers` counts the goroutines that drain it, and `skipped` the
-- passes that found it busy since its drainer began; of the drainers that have ended, `kicked` asked
-- for a follow-up pass, and `owed` had a pass skipped while they ran.
pub record Drains : Type 0 where
  pub slots : Slots
  pub drainers : ℕ
  pub skipped : ℕ
  pub kicked : ℕ
  pub owed : ℕ

abbrev pub no_drains : Drains
no_drains = record { slots = []; drainers = 0; skipped = 0; kicked = 0; owed = 0 }

abbrev add_if : Bool → ℕ → ℕ
add_if true n = n + 1
add_if false n = n

-- A pass of `drainDeviceQueues` that comes to queue `name`, seen from queue `q`.
unfoldable pub claimed : Bool → Bool × Slots → Drains → Drains
claimed is_q (true, slots) s = record s { slots = slots; drainers = add_if is_q s.drainers }
claimed is_q (false, slots) s = record s { slots = slots; skipped = add_if is_q s.skipped }

-- The deferred call of a drainer.
unfoldable pub ended : Bool → Bool × Slots → Drains → Drains
ended true (rerun, slots) s = record s {
  slots = slots;
  drainers = s.drainers - 1;
  skipped = 0;
  kicked = add_if rerun s.kicked;
  owed = add_if (ltb 0 s.skipped) s.owed;
}
ended false (rerun, slots) s = record s { slots = slots }

pub data Step (q : Bytes) (s : Drains) : Drains → Type 0 where
  passes : (name : Bytes) → Step q s (claimed (bytes_eq name q) (try_mark_draining name s.slots) s)
  ends :
      (name : Bytes)
      → (bytes_eq name q ≡ true → 0 < s.drainers)
      → Step q s (ended (bytes_eq name q) (finish_draining name s.slots) s)

pub data Reach (q : Bytes) (s : Drains) : Drains → Type 0 where
  here : Reach q s s
  next : {t u : Drains} → Reach q s t → Step q t u → Reach q s u

-- The slot of a queue against its drainers and the passes skipped.
abbrev Agrees : Option Bool → ℕ → ℕ → Type 0
Agrees none drainers skipped = (drainers ≡ 0) × (skipped ≡ 0)
Agrees (some false) drainers skipped = (drainers ≡ 1) × (skipped ≡ 0)
Agrees (some true) drainers skipped = (drainers ≡ 1) × (0 < skipped)

abbrev Inv : Bytes → Drains → Type 0
Inv q s = Agrees (lookup q s.slots) s.drainers s.skipped × (s.kicked ≡ s.owed)

-- The same, of a slot that is changed for queue `name` only.
claim-Agrees :
    (same : Bool) (o mine : Option Bool) (drainers skipped : ℕ)
    → (same ≡ true → o ≡ mine)
    → Agrees mine drainers skipped
    → (o ≡ none → Agrees (if same then some false else mine) (add_if same drainers) skipped)
      × ((b : Bool)
          → o ≡ some b
          → Agrees (if same then some true else mine) drainers (add_if same skipped))
claim-Agrees false o mine drainers skipped e a = (λ _. a, λ b _. a)
claim-Agrees true o none drainers skipped e a =
    (λ h. ground (arith, a), λ b h. absurd (cc (h, e refl)))
claim-Agrees true o (some false) drainers skipped e a =
    (λ h. absurd (cc (h, e refl)), λ b h. (a.0, omega arith))
claim-Agrees true o (some true) drainers skipped e a =
    (λ h. absurd (cc (h, e refl)), λ b h. (a.0, omega arith))

same_slot : (q name : Bytes) (m : Slots) → bytes_eq name q ≡ true → lookup name m ≡ lookup q m
same_slot q name m h = ap (λ k. lookup k m) ((bytes_eq_iff name q).0 h)

mark-Inv :
    (q name : Bytes) (s : Drains) (o : Option Bool)
    → lookup name s.slots ≡ o
    → Inv q s
    → Inv q (claimed (bytes_eq name q) (mark_slot name o s.slots) s)
unfolding mark_slot claimed
mark-Inv q name s none e i =
    let both =
      claim-Agrees (bytes_eq name q) (lookup name s.slots) (lookup q s.slots) s.drainers s.skipped
        (same_slot q name s.slots) i.0 in
    (rw (lookup-insert name q false s.slots) (both.0 e), i.1)
mark-Inv q name s (some b) e i =
    let both =
      claim-Agrees (bytes_eq name q) (lookup name s.slots) (lookup q s.slots) s.drainers s.skipped
        (same_slot q name s.slots) i.0 in
    (rw (lookup-insert name q true s.slots) (both.1 b e), i.1)

end-Inv :
    (q : Bytes) (s : Drains) (o : Option Bool) (after : Slots)
    → 0 < s.drainers
    → Agrees o s.drainers s.skipped
    → s.kicked ≡ s.owed
    → lookup q after ≡ none
    → Inv q (ended true (is_wanted o, after) s)
unfolding ended
end-Inv q s none after busy a k gone = absurd (omega arith)
end-Inv q s (some false) after busy a k gone = (rw gone (omega arith, refl), rw (a.1) k)
end-Inv q s (some true) after busy a k gone = (rw gone (omega arith, refl), ground arith)

finish-Inv :
    (q name : Bytes) (s : Drains)
    → (bytes_eq name q ≡ true → 0 < s.drainers)
    → Inv q s
    → Inv q (ended (bytes_eq name q) (finish_draining name s.slots) s)
unfolding finish_draining ended lookup
finish-Inv q name s busy i = elim (Bool-cases (bytes_eq name q)) [
  | inl h ↦
      rw (h, same_slot q name s.slots h)
        (end-Inv q s (lookup q s.slots) (erase name s.slots) (busy h) i.0 i.1
          (rw (lookup-erase name q s.slots) (rw h refl)))
  | inr h ↦ rw (h, ended) (rw (lookup-erase name q s.slots) (rw h i.0), i.1)
]

Step-Inv : (q : Bytes) (s t : Drains) → Step q s t → Inv q s → Inv q t
unfolding try_mark_draining
Step-Inv q s _ (passes name) i = mark-Inv q name s (lookup name s.slots) refl i
Step-Inv q s _ (ends name busy) i = finish-Inv q name s busy i

Reach-Inv : (q : Bytes) {s : Drains} → Reach q no_drains s → Inv q s
unfolding lookup
Reach-Inv q here = ((refl, refl), refl)
Reach-Inv q (next {t = t} {u = u} run step) = Step-Inv q t u step (Reach-Inv q run)

agrees_lem :
    (o : Option Bool) (drainers skipped : ℕ)
    → Agrees o drainers skipped
    → drainers ≡ (elim o [ none ↦ 0 | some _ ↦ 1 ])
agrees_lem none drainers skipped a = a.0
agrees_lem (some false) drainers skipped a = a.0
agrees_lem (some true) drainers skipped a = a.0

-- Whatever passes and drainers interleave, a queue has at most one drainer at any time, and
-- `isDraining` tells whether it has one. As many drainers asked for a follow-up pass as ended with a
-- pass skipped while they ran.
pub one_drainer :
    (q : Bytes) {s : Drains}
    → Reach q no_drains s
    → (s.drainers ≡ (if is_draining q s.slots then 1 else 0)) × (s.kicked ≡ s.owed)
unfolding is_draining
one_drainer q {s} run =
    let i = Reach-Inv q run in
    (ground (arith, agrees_lem (lookup q s.slots) s.drainers s.skipped i.0), i.1)

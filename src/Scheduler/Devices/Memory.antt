-- ===== src/Scheduler/Devices/Memory.antt =====
-- The memory that a load takes, in internal/scheduler/scheduler.go.
use mass.Prelude.{
  ℕ, ◌+◌, ◌-◌, ◌*◌, ◌/◌, ◌%◌, ◌≤◌, ◌<◌, min, ◌≡◌, true, Option, none, some, Bool-cases, inl, inr,
  arith,
}
use mass.Prelude.Words.{two_63, two_64, sub_64, is_positive}
use mass.Scheduler.Devices.{
  ModelBenchmarkRow, latency_slots, effective_headroom_pct, memory_slots, planned_pool_size,
  projected_load_bytes, mul_64, quot_64,
}
use mass.Scheduler.Inflight.{Float64}
use native.Mathlib.Nat.{le-div_iff_mul-le, mul-le-mul_left, mul-le-mul_right}

div-mul-le : (y k : ℕ) → 0 < k → (y / k) * k ≤ y
div-mul-le y k h = (le-div_iff_mul-le {k = k} {x = y / k} {y = y} h).0 (omega arith)

-- The percentage is one.
effective_headroom_pct-IsPercentage :
    (worker_pct override : ℕ)
    → (1 ≤ effective_headroom_pct worker_pct override)
      × (effective_headroom_pct worker_pct override ≤ 100)
unfolding effective_headroom_pct
effective_headroom_pct-IsPercentage worker_pct override = ground arith

latency_slots-bounds :
    (rounds : Option ℕ) (cap : ℕ)
    → 1 ≤ cap
    → (1 ≤ latency_slots rounds cap) × (latency_slots rounds cap ≤ cap)
unfolding latency_slots
latency_slots-bounds none cap h = ground arith
latency_slots-bounds (some rounds) cap h = ground arith

-- Arithmetic that does not wrap around.
sub_64_lem : (a b : ℕ) → b ≤ a → a < two_64 → sub_64 a b ≡ a - b
sub_64_lem a b h small = omega arith

quot_64-le : (x d : ℕ) → x ≤ d * 100 → d * 100 < two_63 → quot_64 (x % two_64) 100 ≤ d
quot_64-le x d h small = ground arith

-- The watermark leaves no more than what is free.
headroom-le :
    (free base pct : ℕ)
    → pct ≤ 100
    → base ≤ free
    → free * 100 < two_63
    → quot_64 (mul_64 (sub_64 free base) pct) 100 ≤ free - base
headroom-le free base pct small fits wide =
    let scaled : (free - base) * pct ≤ (free - base) * 100 =
      mul-le-mul_left {m = pct} {n = 100} (free - base) small in
    rw (sub_64_lem free base fits (omega arith))
      (quot_64-le ((free - base) * pct) (free - base) scaled (omega arith))

-- The slots behind the first fit into the headroom.
extra_slots-fit :
    (slots headroom per_slot : ℕ)
    → 0 < per_slot
    → (min slots (1 + headroom / per_slot) - 1) * per_slot ≤ headroom
extra_slots-fit slots headroom per_slot h =
    let fewer : min slots (1 + headroom / per_slot) - 1 ≤ headroom / per_slot = omega arith in
    let all = div-mul-le headroom per_slot h in
    let fit =
      mul-le-mul_right {m = min slots (1 + headroom / per_slot) - 1} {n = headroom / per_slot}
        per_slot fewer in
    omega (arith, all, fit)

memory_slots-bounds :
    (slots headroom per_slot base : ℕ)
    → 1 ≤ slots
    → (1 ≤ memory_slots slots headroom per_slot base)
      × (memory_slots slots headroom per_slot base ≤ slots)
unfolding memory_slots
memory_slots-bounds slots headroom per_slot base h = ground arith

memory_slots-fit :
    (slots headroom per_slot base : ℕ)
    → is_positive per_slot ≡ true
    → is_positive base ≡ true
    → (memory_slots slots headroom per_slot base - 1) * per_slot ≤ headroom
unfolding memory_slots
memory_slots-fit slots headroom per_slot base p b =
    rw (p, b)
      (elim (Bool-cases (is_positive headroom)) [
        | inl room ↦ rw room (extra_slots-fit slots headroom per_slot (ground (arith, p)))
        | inr tight ↦ rw tight (omega arith)
      ])

module _ (fl : Float64) where
  -- A pool is planned with a slot or more, and with no more than the cap.
  pub planned_pool_size-bounds :
      (free pct : ℕ) (rounds : Option ℕ) (cap : ℕ) (row : ModelBenchmarkRow fl)
      → 1 ≤ cap
      → (1 ≤ planned_pool_size fl free pct rounds cap row)
        × (planned_pool_size fl free pct rounds cap row ≤ cap)
  unfolding planned_pool_size
  planned_pool_size-bounds free pct rounds cap row h =
      let (any, few) = latency_slots-bounds rounds cap h in
      let headroom = quot_64 (mul_64 (sub_64 free row.base_bytes) pct) 100 in
      let (one, less) =
        memory_slots-bounds (latency_slots rounds cap) headroom row.per_slot_bytes row.base_bytes
          any in
      (one, omega (arith, less, few))

  projected_lem :
      (free pool : ℕ) (row : ModelBenchmarkRow fl)
      → 1 ≤ pool
      → pool < two_64
      → row.base_bytes ≤ free
      → (pool - 1) * row.per_slot_bytes ≤ free - row.base_bytes
      → free < two_63
      → projected_load_bytes fl pool row ≤ free
  unfolding projected_load_bytes
  projected_lem free pool row one small base extra wide =
      rw (sub_64_lem pool 1 one small) (ground (arith, extra))

  -- A pool that is planned for a model whose base fits into what is free is projected to fit into it
  -- as a whole, whatever the benchmark measured, and whatever watermark is set, as long as the cap is
  -- one or more and neither the cap nor a hundred times the free bytes leaves the int64.
  pub planned_load-fits :
      (free worker_pct override cap : ℕ) (rounds : Option ℕ) (row : ModelBenchmarkRow fl)
      → 1 ≤ cap
      → cap < two_63
      → row.base_bytes ≤ free
      → free * 100 < two_63
      → projected_load_bytes fl
          (planned_pool_size fl free (effective_headroom_pct worker_pct override) rounds cap row)
          row
        ≤ free
  unfolding projected_load_bytes planned_pool_size
  planned_load-fits free worker_pct override cap rounds row one small base wide =
      elim (Bool-cases (is_positive row.base_bytes)) [
        | inr none_measured ↦ rw none_measured (omega arith)
        | inl measured ↦ elim (Bool-cases (is_positive row.per_slot_bytes)) [
          | inr flat ↦ rw (measured, flat) base
          | inl sloped ↦
              let pct = effective_headroom_pct worker_pct override in
              let headroom = quot_64 (mul_64 (sub_64 free row.base_bytes) pct) 100 in
              let slots = latency_slots rounds cap in
              let bounds = planned_pool_size-bounds free pct rounds cap row one in
              let fit =
                memory_slots-fit slots headroom row.per_slot_bytes row.base_bytes sloped measured in
              let less =
                headroom-le free row.base_bytes pct
                  (effective_headroom_pct-IsPercentage worker_pct override).1 base wide in
              projected_lem free (planned_pool_size fl free pct rounds cap row) row bounds.0
                (omega (arith, bounds.1)) base (omega (arith, fit, less)) (omega arith)
        ]
      ]

-- ===== src/Store/New.antt =====
-- `store_new`: the tiers that it makes, on a device with any amount of memory.
use axis_cam_metrics.Base.{
  ℕ, ◌+◌, ◌≤◌, ◌<◌, ◌≡◌, refl, arith, length-replicate, replicate, Bool, true, false, max, ◌^◌, ◌/◌,
}
use axis_cam_metrics.Base.Int.{pos}
use axis_cam_metrics.Floats.{Floats}
use axis_cam_metrics.Metrics.{MetricRegistry, count as registry_count}
use native.Mathlib.Nat.{div-le_self}
use axis_cam_metrics.Store.{
  Store, new_tier, budget_of, fit_capacity, wanted_bytes, medium_interval, coarse_interval,
  store_new, fine_min, medium_min, coarse_min, medium_capacity, coarse_capacity, fine_capacity,
}
use axis_cam_metrics.Store.Inv.{IsTier}
use axis_cam_metrics.Store.Push.{IsStore}

module _ (F : Floats) where
  open F use {Float, Double, of_nat, mul, div, le, truncate, narrow}

  -- What a platform with the doubles of IEEE 754 does, whichever way it rounds: the whole numbers below
  -- 2 ^ 64 keep their order as doubles, and a quotient or a product that is within whole bounds, where
  -- those below 2 ^ 32 are doubles themselves, stays within them.
  pub record Rounds : Type 0 where
    pub of_nat_le : (a b : ℕ) → a ≤ b → b < 2 ^ 64 → le (of_nat a) (of_nat b) ≡ true
    pub div_unit :
        (x : Double) (n : ℕ)
        → 0 < n
        → n < 2 ^ 64
        → le (of_nat 0) x ≡ true
        → le x (of_nat n) ≡ true
        → (le (of_nat 0) (div x (of_nat n)) ≡ true) × (le (div x (of_nat n)) (of_nat 1) ≡ true)
    pub mul_unit :
        (n : ℕ) (q : Double)
        → n < 2 ^ 32
        → le (of_nat 0) q ≡ true
        → le q (of_nat 1) ≡ true
        → (le (of_nat 0) (mul (of_nat n) q) ≡ true) × (le (mul (of_nat n) q) (of_nat n) ≡ true)
    pub truncate_le :
        (x : Double) (n : ℕ)
        → n < 2 ^ 32
        → le (of_nat 0) x ≡ true
        → le x (of_nat n) ≡ true
        → truncate x ≤ n

  -- A capacity times the share of the budget in what is wanted, rounded at each step and down at the
  -- end, is not more than the capacity.
  scaled_le :
      (rounds : Rounds) (capacity budget wanted : ℕ)
      → capacity < 2 ^ 32
      → budget < wanted
      → wanted < 2 ^ 64
      → truncate (mul (of_nat capacity) (div (of_nat budget) (of_nat wanted))) ≤ capacity
  scaled_le rounds capacity budget wanted small less fits =
      let from_zero = rounds.of_nat_le 0 budget (omega arith) (omega arith) in
      let to_wanted = rounds.of_nat_le budget wanted (omega arith) fits in
      let (low, high) =
        rounds.div_unit (of_nat budget) wanted (omega arith) fits from_zero to_wanted in
      let (least, most) = rounds.mul_unit capacity _ small low high in
      rounds.truncate_le _ capacity small least most

  new_tier-IsTier :
      (n interval capacity : ℕ) (means : Bool)
      → 0 < capacity
      → capacity ≤ 2 ^ 31
      → IsTier F (new_tier F n interval capacity means)
  unfolding new_tier
  new_tier-IsTier n interval capacity means some_room small = record {
    some_room = some_room;
    small = small;
    head_in = some_room;
    count_in = omega arith;
    times = length-replicate capacity (pos 0);
    all_rows = length-replicate capacity (replicate n (narrow (of_nat 0)));
  }

  -- The capacities lie between each tier's least and its full size.
  pub record Sized (s : Store F) : Type 0 where
    pub fine_size : (fine_min ≤ s.fine.capacity) × (s.fine.capacity ≤ fine_capacity)
    pub medium_size : (medium_min ≤ s.medium.capacity) × (s.medium.capacity ≤ medium_capacity)
    pub coarse_size : (coarse_min ≤ s.coarse.capacity) × (s.coarse.capacity ≤ coarse_capacity)

  abbrev Between : ℕ → ℕ → ℕ → Type 0
  Between a x b = (a ≤ x) × (x ≤ b)

  module _ (rounds : Rounds) (fraction : Double) (memory wanted : ℕ) (fits : wanted < 2 ^ 64) where
    fit_bounds :
        (least capacity : ℕ)
        → least ≤ capacity
        → capacity < 2 ^ 32
        → Between least (fit_capacity F fraction memory wanted least capacity) capacity
    unfolding fit_capacity
    fit_bounds least capacity h small =
        let scaled : budget_of F fraction memory < wanted
            → truncate
                (mul (of_nat capacity) (div (of_nat (budget_of F fraction memory)) (of_nat wanted)))
              ≤ capacity =
          λ less. scaled_le rounds capacity (budget_of F fraction memory) wanted small less fits in
        ground (arith, scaled)

    fine_bounds :
        (interval : ℕ)
        → Between fine_min
            (fit_capacity F fraction memory wanted fine_min
              (max fine_min (fine_capacity / interval)))
            fine_capacity
    fine_bounds interval = omega (
      arith,
      div-le_self fine_capacity interval,
      fit_bounds fine_min (max fine_min (fine_capacity / interval)) (omega arith) (omega arith),
    )

  -- Where doubles round as those of IEEE 754 do, on any amount of memory and at any interval, the tiers of a new store are between their least and
  -- their full sizes, sound and empty, and no sample is there yet.
  pub store_new-IsStore :
      (fraction : Double) (memory : ℕ) (registry : MetricRegistry) (base_interval_s : ℕ)
      → Rounds
      → let s = store_new F fraction memory registry base_interval_s in
        Sized s
        × IsStore F s
        × (s.fine.count + s.medium.count + s.coarse.count ≡ 0)
        × (s.has_latest ≡ false)
  unfolding store_new
  store_new-IsStore fraction memory registry base_interval_s rounds = (
    record { fine_size = f; medium_size = m; coarse_size = c },
    record {
      fine_ok =
          new_tier-IsTier n (max 1 base_interval_s) _ false (omega (arith, f)) (omega (arith, f));
      medium_ok = new_tier-IsTier n medium_interval _ true (omega (arith, m)) (omega (arith, m));
      coarse_ok = new_tier-IsTier n coarse_interval _ true (omega (arith, c)) (omega (arith, c));
    },
    refl,
    refl,
  )
    where
      n : ℕ
      n = registry_count registry

      wanted : ℕ
      wanted = wanted_bytes F fraction n (max fine_min (fine_capacity / max 1 base_interval_s))

      fits : wanted < 2 ^ 64
      fits = omega arith

      f :
          Between fine_min
            (fit_capacity F fraction memory wanted fine_min
              (max fine_min (fine_capacity / max 1 base_interval_s)))
            fine_capacity
      f = fine_bounds rounds fraction memory wanted fits (max 1 base_interval_s)

      m :
          Between medium_min
            (fit_capacity F fraction memory wanted medium_min medium_capacity)
            medium_capacity
      m =
          fit_bounds rounds fraction memory wanted fits medium_min medium_capacity (omega arith)
            (omega arith)

      c :
          Between coarse_min
            (fit_capacity F fraction memory wanted coarse_min coarse_capacity)
            coarse_capacity
      c =
          fit_bounds rounds fraction memory wanted fits coarse_min coarse_capacity (omega arith)
            (omega arith)

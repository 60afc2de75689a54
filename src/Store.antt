-- ===== src/Store.antt =====
-- The history store of app/store.c: three ring buffers, the two coarse ones fed with bucket means.
-- A row of a tier's array is the list of its `n_metrics` floats. The buffer `scratch` is a local
-- value here. Every operation holds the store's lock from start to end, so each is one step; the
-- callbacks that `store_push` makes after it has let the lock go are returned, in their order.
pub mod Inv
pub mod Push
pub mod Series
pub mod Bucket
pub mod Means
pub mod New
use axis_cam_metrics.Base.{
  ℕ, zero, suc, ◌+◌, ◌-◌, ◌*◌, ◌/◌, ◌%◌, ◌^◌, List, [], ◌∷◌, ◌++◌, ◌&&◌, Option, none, some, Bool,
  true, false, length, replicate, set, take, get_or, ltb, leb, ◌==◌, if◌then◌else◌, max,
}
use axis_cam_metrics.Base.Int.{ℤ, pos, ◌-ℤ◌, leb_ℤ, ltb_ℤ, is_zero_ℤ}
use axis_cam_metrics.Base.Words.{u32, sub32, u64}
use axis_cam_metrics.Floats.{Floats}
use axis_cam_metrics.Metrics.{MetricRegistry, count as registry_count}

-- `TIER_INTERVAL`, `TIER_CAPACITY` and `TIER_MIN_CAPACITY`, at the indices 0, 1 and 2.
abbrev pub fine_capacity : ℕ
fine_capacity = 1800

abbrev pub medium_interval : ℕ
medium_interval = 15

abbrev pub medium_capacity : ℕ
medium_capacity = 2880

abbrev pub coarse_interval : ℕ
coarse_interval = 300

abbrev pub coarse_capacity : ℕ
coarse_capacity = 8640

abbrev pub fine_min : ℕ
fine_min = 300

abbrev pub medium_min : ℕ
medium_min = 720

abbrev pub coarse_min : ℕ
coarse_min = 576

module _ (F : Floats) where
  open F use {Float, Double, nan, is_nan, widen, of_nat, narrow, add, mul, div, truncate}

  -- `StoreTier`; `callback` holds the user data of the callback, if one is set.
  pub record StoreTier : Type 0 where
    pub interval_s : ℕ
    pub capacity : ℕ
    pub count : ℕ
    pub head : ℕ
    pub timestamps : List ℤ
    pub rows : List (List Float)
    pub acc : List Double
    pub acc_n : List ℕ
    pub acc_start : ℤ
    pub callback : Option ℕ

  -- `Store`, with the array `tiers` as three fields.
  pub record Store : Type 0 where
    pub registry : MetricRegistry
    pub n_metrics : ℕ
    pub fine : StoreTier
    pub medium : StoreTier
    pub coarse : StoreTier
    pub latest : List Float
    pub latest_ts : ℤ
    pub has_latest : Bool

  -- One call of a tier's callback: its user data, the row and the time.
  pub record Notice : Type 0 where
    pub user_data : ℕ
    pub values : List Float
    pub timestamp : ℤ

  -- `tiers[i]`; `none` is `tier_index >= STORE_TIERS`.
  abbrev pub tier_at : Store → ℕ → Option StoreTier
  tier_at s zero = some s.fine
  tier_at s (suc zero) = some s.medium
  tier_at s (suc (suc zero)) = some s.coarse
  tier_at s (suc (suc (suc i))) = none

  abbrev pub set_tier : Store → ℕ → StoreTier → Store
  set_tier s zero t = record s { fine = t }
  set_tier s (suc zero) t = record s { medium = t }
  set_tier s (suc (suc zero)) t = record s { coarse = t }
  set_tier s (suc (suc (suc i))) t = s

  unfoldable pub tier_append : ℕ → StoreTier → List Float → ℤ → StoreTier
  tier_append n t values timestamp = record t {
    timestamps = set t.timestamps t.head timestamp;
    rows = set t.rows t.head (take n values);
    head = u32 (t.head + 1) % t.capacity;
    count = if ltb t.count t.capacity then u32 (t.count + 1) else t.count;
  }

  -- The loop that adds a sample to the bucket, on the sums and on the counts.
  unfoldable pub acc_add : List Double → List Float → List Double
  acc_add [] vs = []
  acc_add (a ∷ as') [] = a ∷ as'
  acc_add (a ∷ as') (v ∷ vs) = (if is_nan v then a else add a (widen v)) ∷ acc_add as' vs

  unfoldable pub acc_n_add : List ℕ → List Float → List ℕ
  acc_n_add [] vs = []
  acc_n_add (n ∷ ns) [] = n ∷ ns
  acc_n_add (n ∷ ns) (v ∷ vs) = (if is_nan v then n else u32 (n + 1)) ∷ acc_n_add ns vs

  -- The loop that fills `scratch`.
  unfoldable pub mean_row : List Double → List ℕ → List Float
  mean_row [] ns = []
  mean_row (a ∷ as') [] = []
  mean_row (a ∷ as') (n ∷ ns) =
      (if n == 0 then nan else narrow (div a (of_nat n))) ∷ mean_row as' ns

  unfoldable pub bucket_add : StoreTier → List Float → ℤ → StoreTier
  unfolding acc_add acc_n_add
  bucket_add t values timestamp = record t {
    acc_start = if is_zero_ℤ t.acc_start then timestamp else t.acc_start;
    acc = acc_add t.acc values;
    acc_n = acc_n_add t.acc_n values;
  }

  unfoldable pub bucket_due : StoreTier → ℤ → Bool
  unfolding ◌-ℤ◌
  bucket_due t timestamp = leb_ℤ (pos t.interval_s) (timestamp -ℤ t.acc_start)

  unfoldable pub bucket_close : ℕ → StoreTier → ℤ → StoreTier
  unfolding tier_append mean_row
  bucket_close n t timestamp = record (tier_append n t (mean_row t.acc t.acc_n) timestamp) {
    acc = replicate n (of_nat 0);
    acc_n = replicate n 0;
    acc_start = timestamp;
  }

  abbrev pub notice : StoreTier → List Float → ℤ → List Notice
  notice t values timestamp = elim t.callback [
    | none ↦ []
    | some u ↦ record { user_data = u; values = values; timestamp = timestamp } ∷ []
  ]

  -- The body of the loop of `store_push` over the tiers 1 and 2.
  unfoldable pub coarse_push : ℕ → StoreTier → List Float → ℤ → StoreTier × List Notice
  unfolding bucket_add bucket_due bucket_close
  coarse_push n t values timestamp =
      let t' = bucket_add t values timestamp in
      if bucket_due t' timestamp
      then (bucket_close n t' timestamp, notice t' (take n (mean_row t'.acc t'.acc_n)) timestamp)
      else (t', [])

  unfoldable pub store_push : Store → List Float → ℤ → Store × List Notice
  unfolding tier_append coarse_push
  store_push s values timestamp =
      let (medium', medium_calls) = coarse_push s.n_metrics s.medium values timestamp in
      let (coarse', coarse_calls) = coarse_push s.n_metrics s.coarse values timestamp in
      (
        record s {
          latest = take s.n_metrics values;
          latest_ts = timestamp;
          has_latest = true;
          fine = tier_append s.n_metrics s.fine values timestamp;
          medium = medium';
          coarse = coarse';
        },
        notice s.fine (take s.n_metrics values) timestamp ++ (medium_calls ++ coarse_calls),
      )

  unfoldable pub store_set_tier_callback : Store → ℕ → Option ℕ → Store
  store_set_tier_callback s i callback = elim (tier_at s i) [
    | none ↦ s
    | some t ↦ set_tier s i (record t { callback = callback })
  ]

  unfoldable pub store_latest : Store → Option (List Float × ℤ)
  store_latest s = if s.has_latest then some (take s.n_metrics s.latest, s.latest_ts) else none

  unfoldable pub store_restore : Store → ℕ → List Float → ℤ → Store
  unfolding tier_append
  store_restore s i values timestamp = elim (tier_at s i) [
    | none ↦ s
    | some t ↦ set_tier s i (tier_append s.n_metrics t values timestamp)
  ]

  unfoldable pub store_tier_count : Store → ℕ → ℕ
  store_tier_count s i = elim (tier_at s i) [ none ↦ 0 | some t ↦ t.count ]

  -- The slot of the entry `index`, counted from the oldest.
  abbrev pub slot_of : StoreTier → ℕ → ℕ
  slot_of t index =
      u32 (sub32 (u32 (t.head + t.capacity)) t.count % t.capacity + index) % t.capacity

  abbrev pub row_at : StoreTier → ℕ → List Float
  row_at t slot = get_or t.rows slot []

  abbrev pub timestamp_at : StoreTier → ℕ → ℤ
  timestamp_at t slot = get_or t.timestamps slot (pos 0)

  unfoldable pub store_tier_sample : Store → ℕ → ℕ → Option (List Float × ℤ)
  store_tier_sample s i index = elim (tier_at s i) [
    | none ↦ none
    | some t ↦
        if ltb index t.count
        then some (take s.n_metrics (row_at t (slot_of t index)), timestamp_at t (slot_of t index))
        else none
  ]

  unfoldable pub store_tier_for_window : Store → ℕ → ℕ
  store_tier_for_window s window_s =
      if leb (window_s / s.fine.interval_s) 2000
      then 0
      else if leb (window_s / s.medium.interval_s) 2000
      then 1
      else 2

  unfoldable pub store_tier_span_s : Store → ℕ → ℕ
  store_tier_span_s s i = elim (tier_at s i) [ none ↦ 0 | some t ↦ u32 (t.interval_s * t.capacity) ]

  -- The loop of `store_series`, with the rounds that are left, the round and the number written.
  unfoldable pub series_from : StoreTier → ℕ → ℤ → ℕ → ℕ → ℕ → ℕ → List (ℤ × Float)
  series_from t metric since max_points zero i written = []
  series_from t metric since max_points (suc k) i written =
      let slot = slot_of t i in
      let skip = series_from t metric since max_points k (i + 1) written in
      let keep =
        (timestamp_at t slot, get_or (row_at t slot) metric nan)
        ∷ series_from t metric since max_points k (i + 1) (written + 1) in
      if ltb written max_points
      then (if ltb_ℤ (timestamp_at t slot) since then skip else keep)
      else []

  unfoldable pub store_series : Store → ℕ → ℕ → ℤ → ℕ → List (ℤ × Float)
  unfolding series_from
  store_series s i metric since max_points = elim (tier_at s i) [
    | none ↦ []
    | some t ↦
        if ltb metric s.n_metrics then series_from t metric since max_points t.count 0 0 else []
  ]

  -- One sample in bytes, and a tier.
  abbrev pub sample_bytes : ℕ → ℕ
  sample_bytes n = u64 (n * 4 + 8)

  unfoldable pub tier_bytes : StoreTier → ℕ → ℕ
  tier_bytes t n = u64 (t.capacity * sample_bytes n)

  unfoldable pub store_bytes : Store → ℕ
  unfolding tier_bytes
  store_bytes s = u64 (
      tier_bytes s.fine s.n_metrics
      + tier_bytes s.medium s.n_metrics
      + tier_bytes s.coarse s.n_metrics)

  unfoldable pub new_tier : ℕ → ℕ → ℕ → Bool → StoreTier
  new_tier n interval capacity means = record {
    interval_s = interval;
    capacity = capacity;
    count = 0;
    head = 0;
    timestamps = replicate capacity (pos 0);
    rows = replicate capacity (replicate n (narrow (of_nat 0)));
    acc = if means then replicate n (of_nat 0) else [];
    acc_n = if means then replicate n 0 else [];
    acc_start = pos 0;
    callback = none;
  }

  -- The share of memory that the history may take; `fraction` is the
  -- constant 0.015.
  module _ (fraction : Double) where
    unfoldable pub budget_of : ℕ → ℕ
    budget_of memory = truncate (mul (of_nat memory) fraction)

    -- A capacity as the block under `if (memory > 0)` leaves it, scaled where `wanted` bytes are more
    -- than the budget.
    unfoldable pub fit_capacity : ℕ → ℕ → ℕ → ℕ → ℕ
    unfolding budget_of
    fit_capacity memory wanted least capacity =
        let scaled =
          max least
            (truncate (mul (of_nat capacity) (div (of_nat (budget_of memory)) (of_nat wanted)))) in
        if ltb 0 memory && ltb (budget_of memory) wanted then scaled else capacity

    abbrev pub wanted_bytes : ℕ → ℕ → ℕ
    wanted_bytes n capacity = u64 (
        capacity * sample_bytes n
        + medium_capacity * sample_bytes n
        + coarse_capacity * sample_bytes n)

    -- `memory` is what `total_memory_bytes` reads, 0 where it reads nothing.
    unfoldable pub store_new : ℕ → MetricRegistry → ℕ → Store
    unfolding fit_capacity new_tier
    store_new memory registry base_interval_s =
        let n = registry_count registry in
        let interval = max 1 base_interval_s in
        let capacity = max fine_min (fine_capacity / interval) in
        let fit = fit_capacity memory (wanted_bytes n capacity) in
        record {
          registry = registry;
          n_metrics = n;
          fine = new_tier n interval (fit fine_min capacity) false;
          medium = new_tier n medium_interval (fit medium_min medium_capacity) true;
          coarse = new_tier n coarse_interval (fit coarse_min coarse_capacity) true;
          latest = replicate n (narrow (of_nat 0));
          latest_ts = pos 0;
          has_latest = false;
        }

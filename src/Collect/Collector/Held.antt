-- ===== src/Collect/Collector/Held.antt =====
-- The readings of the slow sources between two rounds of them.
use axis_cam_metrics.Base.{
  ℕ, zero, suc, ◌+◌, ◌<◌, ◌≤◌, ◌≡◌, refl, sym, ap, ◌∙◌, List, [], ◌∷◌, Bool, true, false, arith,
  All, get_or, tabulate, leb, if_ind,
}
use axis_cam_metrics.Floats.{Floats}
use axis_cam_metrics.Metrics.{count}
use axis_cam_metrics.Collect.Device.{Device, Scanning}
use axis_cam_metrics.Collect.Collector.{
  Collector, slow_interval_us, hold, sample_fast, sample_slow, refresh, sample_now,
  collector_sample,
}

get_or-tabulate {ℓ} :
    {A : Type ℓ} (n : ℕ) (f : ℕ → A) (i : ℕ) (d : A) → i < n → get_or (tabulate n f) i d ≡ f i
get_or-tabulate zero f i d h = absurd (omega arith)
get_or-tabulate (suc n) f zero d h = refl
get_or-tabulate (suc n) f (suc i) d h = get_or-tabulate n (λ k. f (suc k)) i d (omega arith)

module _ (F : Floats) (scanning : Scanning F) where
  open F use {Float, Double}

  -- The samples that a run of ticks takes, in their order.
  abbrev pub samples : List Device → Collector F → List (List Float)
  samples [] c = []
  samples (d ∷ ds) c =
      (collector_sample F scanning d c).1 ∷ samples ds (collector_sample F scanning d c).0

  -- What no round changes.
  abbrev Same : Collector F → Collector F → Type 0
  Same c c' = (c'.is_slow ≡ c.is_slow) × (c'.registry ≡ c.registry)

  refresh-Same : (d : Device) (c : Collector F) → Same c (refresh F scanning d c)
  unfolding refresh sample_slow
  refresh-Same d c =
      if_ind (Same c) (leb c.slow_deadline d.now) {x = sample_slow F scanning d c} {y = c}
        (λ _. (refl, refl)) (λ _. (refl, refl))

  refresh_early :
      (d : Device) (c : Collector F) → d.now < c.slow_deadline → refresh F scanning d c ≡ c
  unfolding refresh
  refresh_early d c h =
      let early : leb c.slow_deadline d.now ≡ false = ground arith in rw early refl

  refresh_due :
      (d : Device) (c : Collector F)
      → leb c.slow_deadline d.now ≡ true
      → (refresh F scanning d c).slow_deadline ≡ d.now + slow_interval_us
  unfolding refresh sample_slow
  refresh_due d c h = rw (refresh, h) refl

  -- The collector before the round of the slow sources.
  abbrev fast : Device → Collector F → Collector F
  fast d c = (sample_now F scanning d c).0

  fast-Same :
      (d : Device) (c : Collector F)
      → Same c (fast d c)
        × ((fast d c).slow_cache ≡ c.slow_cache)
        × ((fast d c).slow_deadline ≡ c.slow_deadline)
  unfolding sample_now sample_fast
  fast-Same d c = ((refl, refl), refl, refl)

  collector_sample-Same :
      (d : Device) (c : Collector F) → Same c (collector_sample F scanning d c).0
  unfolding collector_sample
  collector_sample-Same d c =
      let (slow, registry) = refresh-Same d (fast d c) in
      let ((slow', registry'), _, _) = fast-Same d c in (slow ∙ slow', registry ∙ registry')

  hold-get_or :
      (n : ℕ) (marks : List Bool) (cache values : List Float) (i : ℕ)
      → i < n
      → get_or marks i false ≡ true
      → get_or (hold F n marks cache values) i F.nan ≡ get_or cache i F.nan
  unfolding hold
  hold-get_or n marks cache values i b slow = get_or-tabulate n _ i F.nan b ∙ rw slow refl

  -- A slow metric of a sample is what the cache then holds.
  get_or-collector_sample :
      (d : Device) (c : Collector F) (i : ℕ)
      → i < count c.registry
      → get_or c.is_slow i false ≡ true
      → get_or (collector_sample F scanning d c).1 i F.nan
        ≡ get_or (collector_sample F scanning d c).0.slow_cache i F.nan
  unfolding collector_sample
  get_or-collector_sample d c i b slow =
      hold-get_or (count c.registry) (refresh F scanning d (fast d c)).is_slow
        (refresh F scanning d (fast d c)).slow_cache (sample_now F scanning d c).1 i b
        (rw ((collector_sample-Same d c).0) slow)

  -- A sample before the deadline leaves the cache and the deadline as they are.
  kept :
      (d : Device) (c : Collector F)
      → d.now < c.slow_deadline
      → ((collector_sample F scanning d c).0.slow_cache ≡ c.slow_cache)
        × ((collector_sample F scanning d c).0.slow_deadline ≡ c.slow_deadline)
  unfolding collector_sample
  kept d c h =
      let (_, cache, deadline) = fast-Same d c in
      let early = refresh_early d (fast d c) (rw deadline h) in
      (ap (λ k. k.slow_cache) early ∙ cache, ap (λ k. k.slow_deadline) early ∙ deadline)

  early-samples :
      (ds : List Device) (c : Collector F) (i : ℕ) (x : Float)
      → i < count c.registry
      → get_or c.is_slow i false ≡ true
      → All (λ d. d.now < c.slow_deadline) ds
      → get_or c.slow_cache i F.nan ≡ x
      → All (λ v. get_or v i F.nan ≡ x) (samples ds c)
  early-samples [] c i x b slow h e = tt
  early-samples (d ∷ ds) c i x b slow (h, hs) e =
      let c' = (collector_sample F scanning d c).0 in
      let (slow', registry') = collector_sample-Same d c in
      let (cache', deadline') = kept d c h in
      let held = ap (λ l. get_or l i F.nan) cache' ∙ e in
      (
        get_or-collector_sample d c i b slow ∙ held,
        early-samples ds c' i x (rw registry' b) (rw slow' slow) (rw deadline' hs) held,
      )

  -- Once a sample has read the slow sources, every later sample within 30 seconds has the readings of
  -- that one for each slow metric of the registry, whatever the device then says.
  pub samples-held :
      (d : Device) (ds : List Device) (c : Collector F) (i : ℕ)
      → i < count c.registry
      → get_or c.is_slow i false ≡ true
      → c.slow_deadline ≤ d.now
      → All (λ e. e.now < d.now + slow_interval_us) ds
      → let (c', values) = collector_sample F scanning d c in
        All (λ v. get_or v i F.nan ≡ get_or values i F.nan) (samples ds c')
  unfolding collector_sample
  samples-held d ds c i b slow due later =
      let c' = (collector_sample F scanning d c).0 in
      let (slow', registry') = collector_sample-Same d c in
      let (_, _, deadline) = fast-Same d c in
      let passed : leb (fast d c).slow_deadline d.now ≡ true = rw deadline (ground arith) in
      early-samples ds c' i _ (rw registry' b) (rw slow' slow)
        (rw (refresh_due d (fast d c) passed) later) (sym (get_or-collector_sample d c i b slow))

-- ===== src/Store/Means.antt =====
-- The coarse tiers refine the account of the buckets: sample by sample, a tier appends the row of
-- means of each bucket that is closed.
use axis_cam_metrics.Base.{
  ℕ, zero, suc, ◌+◌, ◌^◌, ◌≤◌, ◌<◌, ◌≡◌, refl, sym, ap, ◌∙◌, inl, inr, List, [], ◌∷◌, ◌++◌, arith,
  length, length-append, take, get_or, replicate, tabulate, tabulate-eq, length-tabulate, take_all,
  if◌then◌else◌, not, true, false, Bool-cases, ◌==◌, map, append-nil, append_assoc, All, length-map,
}
use axis_cam_metrics.Base.Int.{ℤ}
use axis_cam_metrics.Base.Words.{u32}
use axis_cam_metrics.Floats.{Floats}
use axis_cam_metrics.Ring.{keep, keep-keep, keep_all}
use axis_cam_metrics.Store.{StoreTier, mean_row, bucket_add, bucket_due, bucket_close, coarse_push}
use axis_cam_metrics.Store.Inv.{IsTier, tier_contents}
use axis_cam_metrics.Store.Push.{append_keep, contents_fit, bucket_add-IsTier, bucket_close-IsTier}
use axis_cam_metrics.Store.Bucket.{
  Row, readings, sum_onto, mean, means, bucket_rows, coarse_push_all, Holds, acc_add-tabulate,
  acc_n_add-tabulate, mean_row-tabulate, sum_onto-append, readings-append, length-filter-le,
}

replicate-tabulate {ℓ} : {A : Type ℓ} (n : ℕ) (a : A) → replicate n a ≡ tabulate n (λ _. a)
replicate-tabulate zero a = refl
replicate-tabulate (suc n) a = ap (λ l. a ∷ l) (replicate-tabulate n a)

module _ (F : Floats) where
  open F use {Float, Double, nan, is_nan, widen, of_nat, narrow, add, div}

  length-readings : (m : ℕ) (rows : List (Row F)) → length (readings F m rows) ≤ length rows
  length-readings m rows = omega (
    arith,
    length-filter-le F (λ (v : Float). not (is_nan v)) (map (λ (r : Row F). get_or r m nan) rows),
    length-map (λ (r : Row F). get_or r m nan) rows,
  )

  -- A sample is added to the bucket.
  bucket_add-Holds :
      (n : ℕ) (t : StoreTier F) (bucket : List (Row F)) (row : Row F) (time : ℤ)
      → length row ≡ n
      → length bucket + 1 < 2 ^ 32
      → Holds F n t bucket
      → Holds F n (bucket_add F t row time) (bucket ++ (row ∷ []))
  unfolding bucket_add
  bucket_add-Holds n t bucket row time w small h = record {
    sums = rw h.sums (acc_add-tabulate F n _ row w ∙ tabulate-eq n _ _ (λ m l. one_sum m));
    counts = rw h.counts (acc_n_add-tabulate F n _ row w ∙ tabulate-eq n _ _ (λ m l. one_count m));
  }
    where
      one_sum :
          (m : ℕ)
          → (if is_nan (get_or row m nan)
              then sum_onto F (of_nat 0) (readings F m bucket)
              else add (sum_onto F (of_nat 0) (readings F m bucket)) (widen (get_or row m nan)))
            ≡ sum_onto F (of_nat 0) (readings F m (bucket ++ (row ∷ [])))
      one_sum m =
          rw (readings-append F m bucket row) (elim (Bool-cases (is_nan (get_or row m nan))) [
            | inl e ↦ rw e refl
            | inr e ↦
                rw e (sym (sum_onto-append F (of_nat 0) (readings F m bucket) (get_or row m nan)))
          ])

      one_count :
          (m : ℕ)
          → (if is_nan (get_or row m nan)
              then length (readings F m bucket)
              else u32 (length (readings F m bucket) + 1))
            ≡ length (readings F m (bucket ++ (row ∷ [])))
      one_count m =
          rw (readings-append F m bucket row) (elim (Bool-cases (is_nan (get_or row m nan))) [
            | inl e ↦ rw e refl
            | inr e ↦ rw e (
                omega (
                  arith,
                  length-readings m bucket,
                  length-append (readings F m bucket) (get_or row m nan ∷ []),
                ))
          ])

  mean_of_counts :
      (vs : List Float)
      → (if length vs == 0
          then nan
          else narrow (div (sum_onto F (of_nat 0) vs) (of_nat (length vs))))
        ≡ mean F vs
  mean_of_counts [] = refl
  mean_of_counts (v ∷ vs) = ground arith

  mean_row-means :
      (n : ℕ) (t : StoreTier F) (bucket : List (Row F))
      → Holds F n t bucket
      → mean_row F t.acc t.acc_n ≡ means F n bucket
  mean_row-means n t bucket h =
      rw (h.sums, h.counts)
        (mean_row-tabulate F n _ _
          ∙ tabulate-eq n _ _ (λ m l. mean_of_counts (readings F m bucket)))

  -- A closed bucket is followed by an empty one.
  bucket_close-Holds : (n : ℕ) (t : StoreTier F) (time : ℤ) → Holds F n (bucket_close F n t time) []
  unfolding bucket_close
  bucket_close-Holds n t time = record {
    sums = replicate-tabulate n (of_nat 0);
    counts = replicate-tabulate n 0;
  }

  contents-bucket_close :
      (n : ℕ) (t : StoreTier F) (bucket : List (Row F)) (time : ℤ)
      → IsTier F t
      → Holds F n t bucket
      → tier_contents F n (bucket_close F n t time)
        ≡ keep t.capacity (tier_contents F n t ++ ((means F n bucket, time) ∷ []))
  unfolding bucket_close
  contents-bucket_close n t bucket time v h =
      append_keep F n t (mean_row F t.acc t.acc_n) time v
      ∙ ap (λ (r : Row F). keep t.capacity (tier_contents F n t ++ ((r, time) ∷ [])))
          (ap (take n) (mean_row-means n t bucket h)
            ∙ take_all n (means F n bucket)
                (rw (length-tabulate n (λ m. mean F (readings F m bucket))) (omega arith)))

  -- One sample, by whether it closes the bucket.
  module _ (n : ℕ) (t : StoreTier F) (bucket : List (Row F)) (row : Row F) (time : ℤ)
      (samples : List (Row F × ℤ)) where
    abbrev added : StoreTier F
    added = bucket_add F t row time

    rows_closed :
        bucket_due F added time ≡ true
        → bucket_rows F n t.interval_s t.acc_start bucket ((row, time) ∷ samples)
          ≡ (means F n (bucket ++ (row ∷ [])), time) ∷ bucket_rows F n t.interval_s time [] samples
    unfolding bucket_rows bucket_due bucket_add
    rows_closed e = rw e refl

    rows_open :
        bucket_due F added time ≡ false
        → bucket_rows F n t.interval_s t.acc_start bucket ((row, time) ∷ samples)
          ≡ bucket_rows F n t.interval_s added.acc_start (bucket ++ (row ∷ [])) samples
    unfolding bucket_rows bucket_due bucket_add
    rows_open e = rw e refl

    push_closed :
        bucket_due F added time ≡ true
        → coarse_push_all F n t ((row, time) ∷ samples)
          ≡ coarse_push_all F n (bucket_close F n added time) samples
    unfolding coarse_push_all coarse_push
    push_closed e = rw e refl

    push_open :
        bucket_due F added time ≡ false
        → coarse_push_all F n t ((row, time) ∷ samples) ≡ coarse_push_all F n added samples
    unfolding coarse_push_all coarse_push
    push_open e = rw e refl

    added_same :
        (tier_contents F n added ≡ tier_contents F n t)
        × (added.capacity ≡ t.capacity)
        × (added.interval_s ≡ t.interval_s)
    unfolding bucket_add
    added_same = (refl, refl, refl)

    closed_same :
        ((bucket_close F n added time).capacity ≡ t.capacity)
        × ((bucket_close F n added time).interval_s ≡ t.interval_s)
        × ((bucket_close F n added time).acc_start ≡ time)
    unfolding bucket_add bucket_close
    closed_same = (refl, refl, refl)

  -- A coarse tier appends exactly the rows of means of the buckets that its samples close, each at the
  -- time of the closing sample, and keeps the newest `capacity` of its rows; the samples have a
  -- reading for each metric, and a bucket fewer than 2 ^ 32 of them.
  pub coarse_push_all-contents :
      (n : ℕ) (samples : List (Row F × ℤ)) (t : StoreTier F) (bucket : List (Row F))
      → IsTier F t
      → Holds F n t bucket
      → All (λ (x : Row F × ℤ). length x.0 ≡ n) samples
      → length bucket + length samples < 2 ^ 32
      → tier_contents F n (coarse_push_all F n t samples)
        ≡ keep t.capacity
            (tier_contents F n t ++ bucket_rows F n t.interval_s t.acc_start bucket samples)
  unfolding coarse_push_all bucket_rows bucket_close bucket_add
  coarse_push_all-contents n [] t bucket v h w small =
      sym (rw append-nil (keep_all t.capacity (tier_contents F n t) (contents_fit F n v)))
  coarse_push_all-contents n ((row, time) ∷ samples) t bucket v h w small =
      let t1 = bucket_add F t row time in
      let v1 = bucket_add-IsTier F t row time v in
      let h1 = bucket_add-Holds n t bucket row time w.0 (omega arith) h in
      let same = added_same n t bucket row time samples in
      elim (Bool-cases (bucket_due F t1 time)) [
        | inl e ↦
            let after = closed_same n t bucket row time samples in
            let ih =
              coarse_push_all-contents n samples (bucket_close F n t1 time) []
                (bucket_close-IsTier F n t1 time v1) (bucket_close-Holds n t1 time) w.1
                (omega arith) in
            rw
              (push_closed n t bucket row time samples e, rows_closed n t bucket row time samples e)
              (ih
                ∙ rw
                    (
                      after.0,
                      after.1,
                      after.2,
                      contents-bucket_close n t1 (bucket ++ (row ∷ [])) time v1 h1,
                      same.0,
                      same.1,
                    )
                    (keep-keep t.capacity
                        (tier_contents F n t ++ ((means F n (bucket ++ (row ∷ [])), time) ∷ [])) _
                      ∙ ap (keep t.capacity) (append_assoc (tier_contents F n t) _ _)))
        | inr e ↦
            let ih =
              coarse_push_all-contents n samples t1 (bucket ++ (row ∷ [])) v1 h1 w.1
                (omega (arith, length-append bucket (row ∷ []))) in
            rw (push_open n t bucket row time samples e, rows_open n t bucket row time samples e)
              (ih ∙ rw (same.0, same.1, same.2) refl)
      ]

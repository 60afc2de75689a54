-- ===== src/Store/Series.antt =====
-- `store_series`: which points a query returns, and `store_tier_for_window`: from which tier.
use axis_cam_metrics.Base.{
  ℕ, zero, suc, ◌+◌, ◌-◌, ◌/◌, ◌≤◌, ◌<◌, ◌≡◌, refl, sym, ap, ap₂, ◌∙◌, ◌⊎◌, inl, inr, List, [], ◌∷◌,
  some, arith, take, map, get_or, filter, tabulate, tabulate-eq, ltb, not, true, Bool-cases, lt→ltb,
  ltb→lt, ltb→le,
}
use axis_cam_metrics.Base.Int.{ℤ, ltb_ℤ}
use axis_cam_metrics.Floats.{Floats}
use native.Mathlib.Nat.{add-zero, zero-add, sub-zero}
use axis_cam_metrics.Store.{
  StoreTier, Store, tier_at, slot_of, row_at, timestamp_at, series_from, store_series,
  store_tier_for_window,
}
use axis_cam_metrics.Store.Inv.{IsTier, Entry, entry_at, tier_contents, slot_of_lem}

get_or-take {ℓ} :
    {A : Type ℓ} (n i : ℕ) (l : List A) (d : A) → i < n → get_or (take n l) i d ≡ get_or l i d
get_or-take zero i l d h = absurd (omega arith)
get_or-take (suc n) i [] d h = refl
get_or-take (suc n) zero (x ∷ l) d h = refl
get_or-take (suc n) (suc i) (x ∷ l) d h = get_or-take n i l d (omega arith)

take-nil {ℓ} : {A : Type ℓ} (n : ℕ) → take {A = A} n [] ≡ []
take-nil zero = refl
take-nil (suc n) = refl

module _ (F : Floats) where
  open F use {Float, nan}

  -- What a query for one metric should return: of the entries from `since` on, at most `max_points`,
  -- oldest first, each with its time.
  abbrev pub points_since : ℕ → ℤ → ℕ → List (Entry F) → List (ℤ × Float)
  points_since metric since max_points entries = take max_points (
      map (λ (e : Entry F). (e.1, get_or e.0 metric nan))
        (filter (λ (e : Entry F). not (ltb_ℤ e.1 since)) entries))

  module _ (n : ℕ) (t : StoreTier F) (metric : ℕ) (since : ℤ) (max_points : ℕ)
      (l : metric < n) where
    one_more :
        (written : ℕ)
        → ltb written max_points ≡ true
        → max_points - written ≡ suc (max_points - (written + 1))
    one_more written h = omega (arith, ltb→lt written max_points h)

    later :
        (k i : ℕ)
        → tabulate k (λ j. entry_at F n t (slot_of F t (i + suc j)))
          ≡ tabulate k (λ j. entry_at F n t (slot_of F t (i + 1 + j)))
    later k i =
        tabulate-eq k _ _ (λ j h. ap (λ (x : ℕ). entry_at F n t (slot_of F t x)) (omega arith))

    series_from-points :
        (k i written : ℕ)
        → series_from F t metric since max_points k i written
          ≡ points_since metric since
              (max_points - written)
              (tabulate k (λ j. entry_at F n t (slot_of F t (i + j))))
    unfolding series_from
    series_from-points zero i written = sym (take-nil (max_points - written))
    series_from-points (suc k) i written =
        rw (add-zero i, later k i)
          (elim (Bool-cases (ltb written max_points)) [
            | inr full ↦ rw full (
                let e : max_points - written ≡ 0 = omega (arith, ltb→le written max_points full) in
                rw e refl)
            | inl room ↦
                rw room (elim (Bool-cases (ltb_ℤ (timestamp_at F t (slot_of F t i)) since)) [
                  | inl old ↦ rw old (series_from-points k (i + 1) written)
                  | inr new ↦
                      rw (new, one_more written room)
                        (ap₂ (λ v r. (timestamp_at F t (slot_of F t i), v) ∷ r)
                          (sym (get_or-take n metric (row_at F t (slot_of F t i)) nan l))
                          (series_from-points k (i + 1) (written + 1)))
                ])
          ])

  -- A query for a metric of the store returns exactly the points of the tier's entries from `since`
  -- on, oldest first, cut off after `max_points`.
  pub store_series-points :
      (s : Store F) (i : ℕ) (t : StoreTier F) (metric : ℕ) (since : ℤ) (max_points : ℕ)
      → tier_at F s i ≡ some t
      → IsTier F t
      → metric < s.n_metrics
      → store_series F s i metric since max_points
        ≡ points_since metric since max_points (tier_contents F s.n_metrics t)
  unfolding store_series
  store_series-points s i t metric since max_points e v l =
      rw (e, store_series, lt→ltb metric s.n_metrics l)
        (series_from-points s.n_metrics t metric since max_points l t.count 0 0
          ∙ ap₂ (points_since metric since) (sub-zero max_points) (
              tabulate-eq t.count _ _ (λ j h.
                ap (entry_at F s.n_metrics t)
                  (ap (slot_of F t) (zero-add j) ∙ slot_of_lem F t j v h))))

  -- The tier for a window is the finest one that shows it in at most 2000 points, and the coarsest
  -- where none does.
  pub store_tier_for_window_lem :
      (s : Store F) (window : ℕ)
      → let i = store_tier_for_window F s window in
        ((i ≡ 0) × (window / s.fine.interval_s ≤ 2000))
        ⊎ ((i ≡ 1) × (2000 < window / s.fine.interval_s) × (window / s.medium.interval_s ≤ 2000))
        ⊎ ((i ≡ 2) × (2000 < window / s.fine.interval_s) × (2000 < window / s.medium.interval_s))
  unfolding store_tier_for_window
  store_tier_for_window_lem s window = ground arith

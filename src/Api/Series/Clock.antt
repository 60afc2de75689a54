-- ===== src/Api/Series/Clock.antt =====
-- The times and the values of a series answer, against what the store has.
use axis_cam_metrics.Base.{
  ap₂, ◌||◌, Bool, true, Bool-cases, if◌then◌else◌, ℕ, zero, suc, ◌+◌, ◌≤◌, ◌<◌, ◌≡◌, refl, sym, ap,
  ◌∙◌, ◌⊎◌, inl, inr, List, [], ◌∷◌, Option, none, some, not, arith, length, map, filter, take,
  get_or, if_ind, length-map, lt→ltb,
}
use axis_cam_metrics.Base.Int.{ℤ, ltb_ℤ}
use axis_cam_metrics.Base.Text.{Text, str_eq}
use axis_cam_metrics.Selection.{contains}
use axis_cam_metrics.Floats.{Floats}
use axis_cam_metrics.Metrics.{MetricDef}
use axis_cam_metrics.Store.{Store, StoreTier, tier_at, store_series}
use axis_cam_metrics.Store.Inv.{IsTier, Entry, tier_contents}
use axis_cam_metrics.Store.Series.{store_series-points}
use native.Mathlib.Decide.{dec_lt}
use axis_cam_metrics.Api.Series.{
  max_series_points, is_listed, is_wanted, time_of, value_of, share, series_loop,
}

module _ (F : Floats) where
  open F use {Float, nan}

  -- Times and values put together again.
  abbrev pub zip : List ℤ → List Float → List (ℤ × Float)
  zip [] vs = []
  zip (t ∷ ts) [] = []
  zip (t ∷ ts) (v ∷ vs) = (t, v) ∷ zip ts vs

  zip-map :
      (points : List (ℤ × Float)) → zip (map (time_of F) points) (map (value_of F) points) ≡ points
  zip-map [] = refl
  zip-map ((t, v) ∷ points) = ap (λ l. (t, v) ∷ l) (zip-map points)

  map-take {ℓ κ} :
      {A : Type ℓ} {B : Type κ} (f : A → B) (n : ℕ) (xs : List A)
      → map f (take n xs) ≡ take n (map f xs)
  map-take f zero xs = refl
  map-take f (suc n) [] = refl
  map-take f (suc n) (x ∷ xs) = ap (λ l. f x ∷ l) (map-take f n xs)

  -- The times of the entries from `since` on.
  abbrev pub times_since : ℤ → List (Entry F) → List ℤ
  times_since since entries =
      map (λ (e : Entry F). e.1) (filter (λ (e : Entry F). not (ltb_ℤ e.1 since)) entries)

  map-map :
      (metric : ℕ) (es : List (Entry F))
      → map (time_of F) (map (λ (e : Entry F). (e.1, get_or e.0 metric nan)) es)
        ≡ map (λ (e : Entry F). e.1) es
  map-map metric [] = refl
  map-map metric (e ∷ es) = ap (λ l. e.1 ∷ l) (map-map metric es)

  abbrev pub times_of : Option (List ℤ) → List ℤ
  times_of none = []
  times_of (some times) = times

  module _ (s : Store F) (tier : ℕ) (t : StoreTier F) (since : ℤ) (e : tier_at F s tier ≡ some t)
      (v : IsTier F t) where
    abbrev pub clock : List ℤ
    clock = take max_series_points (times_since since (tier_contents F s.n_metrics t))

    abbrev pub points_of : ℕ → List (ℤ × Float)
    points_of i = store_series F s tier i since max_series_points

    abbrev pub all_times : List ℤ
    all_times = times_since since (tier_contents F s.n_metrics t)

    first_times :
        (limit i : ℕ)
        → i < s.n_metrics
        → map (time_of F) (store_series F s tier i since limit) ≡ take limit all_times
    first_times limit i l =
        ap (map (time_of F)) (store_series-points F s tier t i since limit e v l)
        ∙ map-take (time_of F) limit _
        ∙ ap (take limit) (map-map i _)

    same_clock : (i : ℕ) → i < s.n_metrics → map (time_of F) (points_of i) ≡ clock
    same_clock i l = first_times max_series_points i l

    stable :
        (wanted : Option (List Text)) (ds : List MetricDef) (i : ℕ)
        → (series_loop F s tier since wanted ds i (some clock)).1 ≡ some clock
    unfolding series_loop
    stable wanted [] i = refl
    stable wanted (d ∷ ds) i =
        if_ind (λ (r : List (Text × List Float) × Option (List ℤ)). r.1 ≡ some clock)
          (is_wanted wanted d.id) (λ b. stable wanted ds (suc i)) (λ b. stable wanted ds (suc i))

    -- Whether a request asks for an id: all where it lists none.
    abbrev pub asked : Option (List Text) → Text → Bool
    asked none id = true
    asked (some ids) id = contains ids id

    -- What the answer should show: the id and the points of each metric that is asked for, in the order
    -- of the registry, from the metric of index `i` on.
    unfoldable pub expected :
        Option (List Text) → List MetricDef → ℕ → List (Text × List (ℤ × Float))
    expected wanted [] i = []
    expected wanted (d ∷ ds) i =
        let rest = expected wanted ds (suc i) in
        if asked wanted d.id then (d.id, points_of i) ∷ rest else rest

    is_listed-contains : (id : Text) (ids : List Text) → is_listed id ids ≡ contains ids id
    unfolding is_listed contains
    is_listed-contains id [] = refl
    is_listed-contains id (t ∷ ts) = ap (λ b. str_eq t id || b) (is_listed-contains id ts)

    is_wanted-asked :
        (wanted : Option (List Text)) (id : Text) → is_wanted wanted id ≡ asked wanted id
    is_wanted-asked none id = refl
    is_wanted-asked (some ids) id = is_listed-contains id ids

    abbrev values_only : Text × List (ℤ × Float) → Text × List Float
    values_only p = (p.0, map (value_of F) p.1)

    series-expected :
        (wanted : Option (List Text)) (ds : List MetricDef) (i : ℕ) (shared : Option (List ℤ))
        → (series_loop F s tier since wanted ds i shared).0 ≡ map values_only (expected wanted ds i)
    unfolding series_loop expected
    series-expected wanted [] i shared = refl
    series-expected wanted (d ∷ ds) i shared = elim (Bool-cases (asked wanted d.id)) [
      | inl a ↦
          rw (is_wanted-asked wanted d.id, a)
            (ap (λ l. (d.id, map (value_of F) (points_of i)) ∷ l)
              (series-expected wanted ds (suc i) _))
      | inr a ↦ rw (is_wanted-asked wanted d.id, a) (series-expected wanted ds (suc i) shared)
    ]

    share-points_of :
        (i : ℕ) → i < s.n_metrics → 0 < length clock → share F none (points_of i) ≡ some clock
    share-points_of i l some_points =
        let size : length (points_of i) ≡ length clock =
          sym (length-map (time_of F) (points_of i)) ∙ ap length (same_clock i l) in
        rw (lt→ltb 0 (length (points_of i)) (omega (arith, size))) (ap some (same_clock i l))

    -- Where there are points, a series sets the shared times.
    shares :
        (wanted : Option (List Text)) (ds : List MetricDef) (i : ℕ)
        → i + length ds ≤ s.n_metrics
        → 0 < length clock
        → let r = series_loop F s tier since wanted ds i none in (r.0 ≡ []) ⊎ (r.1 ≡ some clock)
    unfolding series_loop
    shares wanted [] i b p = inl refl
    shares wanted (d ∷ ds) i b p =
        if_ind (λ (r : List (Text × List Float) × Option (List ℤ)). (r.0 ≡ []) ⊎ (r.1 ≡ some clock))
          (is_wanted wanted d.id)
          (λ w. inr (
            ap (λ o. (series_loop F s tier since wanted ds (suc i) o).1)
              (share-points_of i (omega arith) p)
            ∙ stable wanted ds (suc i)))
          (λ w. shares wanted ds (suc i) (omega arith) p)

    zip-nil : (ts : List ℤ) → zip ts [] ≡ []
    zip-nil [] = refl
    zip-nil (t' ∷ ts) = refl

    no_points :
        (points : List (ℤ × Float)) (ts : List ℤ)
        → length points ≡ 0
        → zip ts (map (value_of F) points) ≡ points
    no_points [] ts h = zip-nil ts
    no_points (p ∷ points) ts h = absurd (omega arith)

    -- A series, put together with the times of the answer.
    abbrev pub shown : List ℤ → Text × List Float → Text × List (ℤ × Float)
    shown times entry = (entry.0, zip times entry.1)

    zip-points :
        (times : List ℤ) (i : ℕ)
        → i < s.n_metrics
        → (length clock ≡ 0) ⊎ (times ≡ clock)
        → zip times (map (value_of F) (points_of i)) ≡ points_of i
    zip-points times i l (inl empty) =
        no_points (points_of i) times
          (sym (length-map (time_of F) (points_of i)) ∙ ap length (same_clock i l) ∙ empty)
    zip-points times i l (inr same) =
        ap (λ ts. zip ts (map (value_of F) (points_of i))) (same ∙ sym (same_clock i l))
        ∙ zip-map (points_of i)

    shown-expected :
        (times : List ℤ) (wanted : Option (List Text)) (ds : List MetricDef) (i : ℕ)
        → (length clock ≡ 0) ⊎ (times ≡ clock)
        → i + length ds ≤ s.n_metrics
        → map (shown times) (map values_only (expected wanted ds i)) ≡ expected wanted ds i
    unfolding expected
    shown-expected times wanted [] i h b = refl
    shown-expected times wanted (d ∷ ds) i h b = elim (Bool-cases (asked wanted d.id)) [
      | inl a ↦ rw a (
          ap₂ (λ (ps : List (ℤ × Float)) (l : List (Text × List (ℤ × Float))). (d.id, ps) ∷ l)
            (zip-points times i (omega arith) h)
            (shown-expected times wanted ds (suc i) h (omega arith)))
      | inr a ↦ rw a (shown-expected times wanted ds (suc i) h (omega arith))
    ]

    -- The series of an answer, for a registry no larger than the store, each put together with the one
    -- list of times that is given for all, are the ids that were asked for, all where none are listed,
    -- in the order of the registry, each with what the store has for the metric of that id.
    pub series_loop-shown :
        (wanted : Option (List Text)) (ds : List MetricDef)
        → length ds ≤ s.n_metrics
        → let (series, shared) = series_loop F s tier since wanted ds 0 none in
          map (shown (times_of shared)) series ≡ expected wanted ds 0
    series_loop-shown wanted ds b =
        let (series, shared) = series_loop F s tier since wanted ds 0 none in
        let e = series-expected wanted ds 0 none in
        elim (dec_lt 0 (length clock)) [
          | yes p ↦ elim (shares wanted ds 0 (omega arith) p) [
            | inl nothing ↦ nothing_shown (times_of shared) (expected wanted ds 0) series nothing e
            | inr given ↦
                ap (map (shown (times_of shared))) e
                ∙ shown-expected (times_of shared) wanted ds 0 (inr (ap times_of given))
                    (omega arith)
          ]
          | no p ↦
              ap (map (shown (times_of shared))) e
              ∙ shown-expected (times_of shared) wanted ds 0 (inl (omega arith)) (omega arith)
        ]
      where
        nothing_shown :
            (times : List ℤ) (ps : List (Text × List (ℤ × Float)))
            (series : List (Text × List Float))
            → series ≡ []
            → series ≡ map values_only ps
            → map (shown times) series ≡ ps
        nothing_shown times [] series n e = ap (map (shown times)) e
        nothing_shown times (p ∷ ps) series n e = absurd (cc (sym n ∙ e))

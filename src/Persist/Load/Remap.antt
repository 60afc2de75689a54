-- ===== src/Persist/Load/Remap.antt =====
-- Where `persist_load` puts the saved values: under the index that the id of each has now.
use axis_cam_metrics.Base.{
  ℕ, ◌+◌, ◌≤◌, ◌<◌, ◌≡◌, refl, sym, ap, ◌∙◌, List, [], ◌∷◌, none, some, inl, inr, arith, length,
  get_or, set, if◌then◌else◌, Bool-cases, Option-cases, length-set, get_or-set_self, get_or-set_ne,
}
use axis_cam_metrics.Base.Text.{Text, str_eq, str_eq→eq, str_eq_refl}
use axis_cam_metrics.Floats.{Floats}
use axis_cam_metrics.Metrics.{MetricDef, MetricRegistry, find_from, metrics_find, count}
use axis_cam_metrics.Persist.Load.{mapping_of, remap}

-- What a search returns is in range.
find_from-range :
    (i : ℕ) (ds : List MetricDef) (x : Text) (k : ℕ)
    → find_from i ds x ≡ some k
    → (i ≤ k) × (k < i + length ds)
unfolding find_from
find_from-range i [] x k h = cc
find_from-range i (d ∷ ds) x k h = elim (Bool-cases (str_eq d.id x)) [
  | inl e ↦ let f : i ≡ k = cc (rw e at h) in omega arith
  | inr e ↦ let f = find_from-range (i + 1) ds x k (rw e at h) in omega arith
]

-- An index has one id.
find_from-id :
    (i : ℕ) (ds : List MetricDef) (x y : Text) (k : ℕ)
    → find_from i ds x ≡ some k
    → find_from i ds y ≡ some k
    → x ≡ y
unfolding find_from
find_from-id i [] x y k h g = cc
find_from-id i (d ∷ ds) x y k h g = elim (Bool-cases (str_eq d.id x)) [
  | inl e ↦ elim (Bool-cases (str_eq d.id y)) [
    | inl f ↦ sym (str_eq→eq d.id x e) ∙ str_eq→eq d.id y f
    | inr f ↦
        let a : i ≡ k = cc (rw e at h) in
        let b = find_from-range (i + 1) ds y k (rw f at g) in absurd (omega arith)
  ]
  | inr e ↦ elim (Bool-cases (str_eq d.id y)) [
    | inl f ↦
        let a : i ≡ k = cc (rw f at g) in
        let b = find_from-range (i + 1) ds x k (rw e at h) in absurd (omega arith)
    | inr f ↦ find_from-id (i + 1) ds x y k (rw e at h) (rw f at g)
  ]
]

module _ (F : Floats) where
  open F use {Float, nan}

  -- The value saved under an id: the last one, `d` if there is none.
  unfoldable pub saved_value : List Text → List Float → Text → Float → Float
  saved_value [] values id d = d
  saved_value (x ∷ ids) [] id d = d
  saved_value (x ∷ ids) (v ∷ values) id d = saved_value ids values id (if str_eq x id then v else d)

  module _ (r : MetricRegistry) (id : Text) (k : ℕ) (found : metrics_find r id ≡ some k) where
    -- One saved value: it goes to the index exactly if it stands under the id.
    place_one :
        (x : Text) (v : Float) (values : List Float)
        → length values ≡ count r
        → get_or (elim (metrics_find r x) [ none ↦ values | some j ↦ set values j v ]) k nan
          ≡ (if str_eq x id then v else get_or values k nan)
    unfolding metrics_find
    place_one x v values size = elim (Option-cases (metrics_find r x)) [
      | inl e ↦ elim (Bool-cases (str_eq x id)) [
        | inl s ↦ absurd (cc (sym e ∙ ap (metrics_find r) (str_eq→eq x id s) ∙ found))
        | inr s ↦ rw (e, s) refl
      ]
      | inr (j, e) ↦ elim (Bool-cases (str_eq x id)) [
        | inl s ↦
            let same : j ≡ k = cc (sym e ∙ ap (metrics_find r) (str_eq→eq x id s) ∙ found) in
            rw (e, s, same)
              (get_or-set_self values k v nan (omega (arith, find_from-range 0 r.defs id k found)))
        | inr s ↦
            rw (e, s)
              (get_or-set_ne values j k v nan (λ same. cc (
                sym s
                ∙ ap (λ t. str_eq t id) (find_from-id 0 r.defs x id k (e ∙ ap some same) found)
                ∙ str_eq_refl id)))
      ]
    ]

    length-place :
        (x : Text) (v : Float) (values : List Float)
        → length (elim (metrics_find r x) [ none ↦ values | some j ↦ set values j v ])
          ≡ length values
    length-place x v values = elim (Option-cases (metrics_find r x)) [
      | inl e ↦ rw e refl
      | inr (j, e) ↦ rw e (length-set values j v)
    ]

    -- Whatever the metrics of the run that saved it, a record is restored by id: a metric of today's
    -- registry gets the value saved under its id, and keeps the one it had if the file has no such id.
    pub get_or-remap :
        (ids : List Text) (saved values : List Float)
        → length values ≡ count r
        → get_or (remap F (mapping_of r ids) saved values) k nan
          ≡ saved_value ids saved id (get_or values k nan)
    unfolding remap mapping_of saved_value
    get_or-remap [] saved values size = refl
    get_or-remap (x ∷ ids) [] values size = refl
    get_or-remap (x ∷ ids) (v ∷ saved) values size =
        get_or-remap ids saved _ (length-place x v values ∙ size)
        ∙ ap (saved_value ids saved id) (place_one x v values size)

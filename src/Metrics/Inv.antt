-- ===== src/Metrics/Inv.antt =====
-- What registration keeps: ids are distinct, the array holds the entries, and a metric that has an
-- index keeps it.
use axis_cam_metrics.Base.{
  ℕ, ◌+◌, ◌^◌, ◌≤◌, ◌<◌, ◌≡◌, ◌≢◌, sym, ap, ◌∙◌, inl, inr, List, [], ◌∷◌, ◌++◌, Option, none, some,
  some, arith, length, All, length-append, Bool-cases, Option-cases, true,
}
use axis_cam_metrics.Base.Text.{Text, str_eq, str_eq_refl, strlcpy-fits}
use axis_cam_metrics.Metrics.{
  MetricDef, MetricRegistry, count, metric_id_max, metrics_registry_init, find_from, metrics_find,
  new_def, grow, metrics_register,
}

-- No entry of the list has this id.
abbrev pub Fresh : Text → List MetricDef → Type 0
Fresh id ds = All (λ (d : MetricDef). d.id ≢ id) ds

-- No two entries share an id.
abbrev pub Distinct : List MetricDef → Type 0
Distinct [] = Unit
Distinct (d ∷ ds) = Fresh d.id ds × Distinct ds

pub record IsValid (r : MetricRegistry) : Type 0 where
  pub room : count r ≤ r.capacity
  pub some_room : 0 < r.capacity
  pub distinct : Distinct r.defs

-- A failed search has compared every id.
find_from-none : (i : ℕ) (ds : List MetricDef) (id : Text) → find_from i ds id ≡ none → Fresh id ds
unfolding find_from
find_from-none i [] id h = tt
find_from-none i (d ∷ ds) id h = elim (Bool-cases (str_eq d.id id)) [
  | inl e ↦ cc (rw e at h)
  | inr e ↦ (
    λ p. cc (sym e ∙ ap (λ t. str_eq t id) p ∙ str_eq_refl id),
    find_from-none (i + 1) ds id (rw e at h),
  )
]

find_from-append_some :
    (i : ℕ) (ds es : List MetricDef) (id : Text) (k : ℕ)
    → find_from i ds id ≡ some k
    → find_from i (ds ++ es) id ≡ some k
unfolding find_from
find_from-append_some i [] es id k h = cc
find_from-append_some i (d ∷ ds) es id k h =
    ground (arith, find_from-append_some (i + 1) ds es id k)

find_from-append_none :
    (i : ℕ) (ds : List MetricDef) (d : MetricDef) (id : Text)
    → find_from i ds id ≡ none
    → str_eq d.id id ≡ true
    → find_from i (ds ++ (d ∷ [])) id ≡ some (i + length ds)
unfolding find_from
find_from-append_none i [] d id h e = ground arith
find_from-append_none i (c ∷ ds) d id h e = ground (arith, find_from-append_none (i + 1) ds d id)

Fresh-append :
    (id : Text) (ds es : List MetricDef) → Fresh id ds → Fresh id es → Fresh id (ds ++ es)
Fresh-append id [] es h k = k
Fresh-append id (d ∷ ds) es h k = (h.0, Fresh-append id ds es h.1 k)

Distinct-append :
    (ds : List MetricDef) (d : MetricDef) → Distinct ds → Fresh d.id ds → Distinct (ds ++ (d ∷ []))
Distinct-append [] d h f = (tt, tt)
Distinct-append (c ∷ ds) d h f =
    (Fresh-append c.id ds (d ∷ []) h.0 (λ e. f.0 (sym e), tt), Distinct-append ds d h.1 f.1)

id-new_def :
    (id : Text) (label unit group : Option Text)
    → length id < metric_id_max
    → (new_def id label unit group).id ≡ id
unfolding new_def
id-new_def id label unit group h = strlcpy-fits metric_id_max id h

-- A registry starts valid.
pub metrics_registry_init-IsValid : IsValid metrics_registry_init
unfolding metrics_registry_init
metrics_registry_init-IsValid = ground arith

module _ (r : MetricRegistry) (id : Text) (label unit group : Option Text) where
  register_found :
      (i : ℕ) → metrics_find r id ≡ some i → metrics_register r id label unit group ≡ (r, i)
  unfolding metrics_register
  register_found i h = ground arith

  register_new :
      metrics_find r id ≡ none
      → metrics_register r id label unit group
        ≡ (record (grow r) { defs = r.defs ++ (new_def id label unit group ∷ []) }, count r)
  unfolding metrics_register
  register_new h = ground arith

module _ (r : MetricRegistry) (id : Text) (label unit group : Option Text) where
  Distinct-after :
      metrics_find r id ≡ none
      → length id < metric_id_max
      → IsValid r
      → Distinct (r.defs ++ (new_def id label unit group ∷ []))
  unfolding metrics_find
  Distinct-after e short v =
      Distinct-append r.defs (new_def id label unit group) v.distinct
        (rw (id-new_def id label unit group short) (find_from-none 0 r.defs id e))

  -- A registry below 2 ^ 31 entries stays valid when a metric is registered under an id that fits
  -- the field with its terminator: the entries stay within the array and the ids distinct.
  pub metrics_register-IsValid :
      length id < metric_id_max
      → r.capacity < 2 ^ 31
      → IsValid r
      → IsValid (metrics_register r id label unit group).0
  unfolding grow
  metrics_register-IsValid short small v = elim (Option-cases (metrics_find r id)) [
    | inl e ↦ rw (register_new r id label unit group e) (record {
      room = ground (arith, length-append r.defs (new_def id label unit group ∷ []));
      some_room = ground arith;
      distinct = Distinct-after e short v;
    })
    | inr (i, e) ↦ rw (register_found r id label unit group i e) v
  ]

  found_after :
      metrics_find r id ≡ none
      → length id < metric_id_max
      → metrics_find (record (grow r) { defs = r.defs ++ (new_def id label unit group ∷ []) }) id
        ≡ some (count r)
  unfolding metrics_find
  found_after e short =
      find_from-append_none 0 r.defs (new_def id label unit group) id e
        (rw (id-new_def id label unit group short) (str_eq_refl id))
      ∙ ap some (omega arith)

  -- What a registration returns is the index of the id from then on, and registering the id again
  -- changes nothing and returns the same index.
  pub find-register :
      length id < metric_id_max
      → let (r', i) = metrics_register r id label unit group in
        (metrics_find r' id ≡ some i) × (metrics_register r' id label unit group ≡ (r', i))
  find-register short = elim (Option-cases (metrics_find r id)) [
    | inl e ↦
        rw (register_new r id label unit group e)
          (found_after e short, register_found _ id label unit group _ (found_after e short))
    | inr (i, e) ↦
        rw (register_found r id label unit group i e) (e, register_found r id label unit group i e)
  ]

  -- Registering a metric moves no other: an id that has an index keeps it.
  pub register_stable :
      (other : Text) (k : ℕ)
      → metrics_find r other ≡ some k
      → metrics_find (metrics_register r id label unit group).0 other ≡ some k
  unfolding metrics_find
  register_stable other k h = elim (Option-cases (metrics_find r id)) [
    | inl e ↦ rw (register_new r id label unit group e) (find_from-append_some 0 r.defs _ other k h)
    | inr (i, e) ↦ rw (register_found r id label unit group i e) h
  ]

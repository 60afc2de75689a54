-- ===== src/Metrics.antt =====
-- The metric registry of app/metrics.c: metrics are registered once, found by id, and never move.
pub mod Inv
use axis_cam_metrics.Base.{
  ℕ, ◌+◌, ◌*◌, ◌%◌, ◌^◌, List, [], ◌∷◌, ◌++◌, Option, none, some, length, if◌then◌else◌, ◌==◌,
}
use axis_cam_metrics.Base.Text.{Text, codes, str_eq, strlcpy}

abbrev pub metric_id_max : ℕ
metric_id_max = 64

-- `MetricDef`
pub record MetricDef : Type 0 where
  pub id : Text
  pub label : Text
  pub unit : Text
  pub group : Text

-- `MetricRegistry`: the first `count` entries of the array `defs`; `count` is their number.
pub record MetricRegistry : Type 0 where
  pub defs : List MetricDef
  pub capacity : ℕ

abbrev pub count : MetricRegistry → ℕ
count r = length r.defs

unfoldable pub metrics_registry_init : MetricRegistry
metrics_registry_init = record { defs = []; capacity = 64 }

unfoldable pub metrics_registry_clear : MetricRegistry
metrics_registry_clear = record { defs = []; capacity = 0 }

-- The loop of `metrics_find` from index `i`, over the entries from there on.
unfoldable pub find_from : ℕ → List MetricDef → Text → Option ℕ
find_from i [] id = none
find_from i (d ∷ ds) id =
    let rest = find_from (i + 1) ds id in if str_eq d.id id then some i else rest

-- `none` is the -1 of `metrics_find`.
unfoldable pub metrics_find : MetricRegistry → Text → Option ℕ
unfolding find_from
metrics_find r id = find_from 0 r.defs id

-- A string argument that may be NULL.
abbrev pub or_else : Option Text → Text → Text
or_else none d = d
or_else (some t) d = t

unfoldable pub new_def : Text → Option Text → Option Text → Option Text → MetricDef
new_def id label unit group = record {
  id = strlcpy metric_id_max id;
  label = strlcpy 80 (or_else label id);
  unit = strlcpy 16 (or_else unit []);
  group = strlcpy 24 (or_else group (codes "other"));
}

-- The array grows by doubling; the guint capacity wraps.
unfoldable pub grow : MetricRegistry → MetricRegistry
grow r = if count r == r.capacity then record r { capacity = r.capacity * 2 % 2 ^ 32 } else r

unfoldable pub metrics_register :
    MetricRegistry → Text → Option Text → Option Text → Option Text → MetricRegistry × ℕ
unfolding metrics_find grow new_def
metrics_register r id label unit group =
    let added = record (grow r) { defs = r.defs ++ (new_def id label unit group ∷ []) } in
    elim (metrics_find r id) [ some i ↦ (r, i) | none ↦ (added, count r) ]

-- ===== src/Api/Series.antt =====
-- `api_series_json` of app/api.c: what the answer to a series request says. The text of the JSON is not
-- modelled; reading a number stands for `g_ascii_strtoull`.
pub mod Clock
use axis_cam_metrics.Base.{
  ℕ, zero, suc, ◌+◌, ◌%◌, ◌^◌, List, [], ◌∷◌, Option, none, some, Bool, true, false, ltb, ◌==◌,
  length, map, if◌then◌else◌, ◌||◌,
}
use axis_cam_metrics.Base.Int.{ℤ, pos, ◌-ℤ◌}
use axis_cam_metrics.Base.Words.{u32}
use axis_cam_metrics.Base.Text.{Text, codes, str_eq, split}
use axis_cam_metrics.Floats.{Floats}
use axis_cam_metrics.Metrics.{MetricDef, MetricRegistry}
use axis_cam_metrics.Query.{api_query_param}
use axis_cam_metrics.Store.{Store, tier_at, store_series, store_tier_for_window}

abbrev pub max_series_points : ℕ
max_series_points = 4000

unfoldable pub is_listed : Text → List Text → Bool
unfolding str_eq
is_listed id [] = false
is_listed id (w ∷ ws) = str_eq w id || is_listed id ws

-- A request that names no metrics wants all.
abbrev pub is_wanted : Option (List Text) → Text → Bool
is_wanted none id = true
is_wanted (some ids) id = is_listed id ids

unfoldable pub window_of : (Text → ℕ) → Option Text → ℕ
window_of read_number none = 1800
window_of read_number (some text) =
    if u32 (read_number text) == 0 then 1800 else u32 (read_number text)

module _ (F : Floats) where
  open F use {Float}

  pub record Answer : Type 0 where
    pub window : ℕ
    pub tier : ℕ
    pub interval : ℕ
    pub series : List (Text × List Float)
    pub timestamps : List ℤ

  abbrev pub time_of : ℤ × Float → ℤ
  time_of (time, value) = time

  abbrev pub value_of : ℤ × Float → Float
  value_of (time, value) = value

  -- `shared_timestamps`, once a metric has points.
  abbrev pub share : Option (List ℤ) → List (ℤ × Float) → Option (List ℤ)
  share (some times) points = some times
  share none points = if ltb 0 (length points) then some (map time_of points) else none

  -- The loop over the metrics from index `i`: the series, and `shared_timestamps` after it.
  unfoldable pub series_loop :
      Store F
      → ℕ
      → ℤ
      → Option (List Text)
      → List MetricDef
      → ℕ
      → Option (List ℤ)
      → List (Text × List Float) × Option (List ℤ)
  unfolding store_series is_listed
  series_loop s tier since wanted [] i shared = ([], shared)
  series_loop s tier since wanted (d ∷ ds) i shared =
      let points = store_series F s tier i since max_series_points in
      let skipped = series_loop s tier since wanted ds (suc i) shared in
      let (rest, last) = series_loop s tier since wanted ds (suc i) (share shared points) in
      if is_wanted wanted d.id then ((d.id, map value_of points) ∷ rest, last) else skipped

  -- `now` is what `time` returns.
  unfoldable pub api_series : (Text → ℕ) → MetricRegistry → Store F → ℤ → Option Text → Answer
  unfolding api_query_param window_of store_tier_for_window series_loop split ◌-ℤ◌
  api_series read_number registry s now query =
      let window = window_of read_number (api_query_param query (codes "window")) in
      let tier = store_tier_for_window F s window in
      let wanted : Option (List Text) = elim (api_query_param query (codes "metrics")) [
        | none ↦ none
        | some text ↦ some (split 44 text)
      ] in
      let (series, shared) = series_loop s tier (now -ℤ pos window) wanted registry.defs 0 none in
      record {
        window = window;
        tier = tier;
        interval = elim (tier_at F s tier) [ none ↦ 0 | some t ↦ t.interval_s ];
        series = series;
        timestamps = elim shared [ none ↦ [] | some times ↦ times ];
      }

-- ===== src/Influx/Payload.antt =====
-- `build_payload` of app/influx.c: the line of the latest sample. The printing of a number and of a
-- time stand for `g_ascii_formatd` and `printf`.
pub mod Line
pub mod RoundTrip
pub mod Exported
use axis_cam_metrics.Base.{
  ℕ, ◌+◌, List, [], ◌∷◌, ◌++◌, Option, none, some, Bool, true, false, not, ◌||◌, ◌==◌,
  if◌then◌else◌,
}
use axis_cam_metrics.Base.Int.{ℤ}
use axis_cam_metrics.Base.Words.{u32}
use axis_cam_metrics.Base.Text.{Text, codes}
use axis_cam_metrics.Floats.{Floats}
use axis_cam_metrics.Metrics.{MetricDef}
use axis_cam_metrics.Selection.{Selection, SelectScope, transmit, selection_enabled}
use axis_cam_metrics.Store.{Store, store_latest}
use axis_cam_metrics.Settings.Config.{InfluxConfig}
use axis_cam_metrics.Api.{DeviceInfo}
use axis_cam_metrics.Influx.{is_empty, append_escaped_tag, append_escaped_measurement}

abbrev pub or_unknown : Text → Text
or_unknown s = if is_empty s then codes "unknown" else s

-- The line up to its fields.
unfoldable pub line_start : InfluxConfig → DeviceInfo → Text
unfolding append_escaped_tag append_escaped_measurement
line_start config device =
    let measurement = append_escaped_measurement [] config.measurement in
    let tagged = append_escaped_tag (measurement ++ codes ",device=") (or_unknown device.serial) in
    append_escaped_tag (tagged ++ codes ",model=") (or_unknown device.model)

module _ (F : Floats) (format : F.Float → Text) (print_time : ℤ → Text) where
  open F use {Float, is_nan}

  -- The loop over the metrics: the text that it appends, and `fields` after it.
  unfoldable pub fields_from : Option Selection → ℕ → List MetricDef → List Float → Text × ℕ
  unfolding selection_enabled append_escaped_tag
  fields_from selection fields [] values = ([], fields)
  fields_from selection fields (d ∷ ds) [] = ([], fields)
  fields_from selection fields (d ∷ ds) (v ∷ vs) =
      let skipped = fields_from selection fields ds vs in
      let (rest, total) = fields_from selection (u32 (fields + 1)) ds vs in
      let field =
        append_escaped_tag ((if fields == 0 then 32 else 44) ∷ []) d.id ++ (61 ∷ format v) in
      if is_nan v || not (selection_enabled selection transmit d.id)
      then skipped
      else (field ++ rest, total)

  unfoldable pub build_payload :
      Store F → Option Selection → InfluxConfig → DeviceInfo → Option Text
  unfolding store_latest fields_from line_start
  build_payload store selection config device = elim (store_latest F store) [
    | none ↦ none
    | some (values, timestamp) ↦
        let (text, fields) = fields_from selection 0 store.registry.defs values in
        if fields == 0
        then none
        else some (line_start config device ++ (text ++ (32 ∷ (print_time timestamp ++ (10 ∷ [])))))
  ]

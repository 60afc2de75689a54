-- ===== src/Tests/Pages.antt =====
-- The page and the JSON of the latest values, at a store of one metric and at three metrics.
use axis_cam_metrics.Base.{ℕ, ◌≡◌, List, [], ◌∷◌, Option, none, some, arith}
use axis_cam_metrics.Base.Int.{ℤ, pos}
use axis_cam_metrics.Base.Text.{Text, codes}
use axis_cam_metrics.Metrics.{MetricDef}
use axis_cam_metrics.Selection.{transmit, selection_enabled}
use axis_cam_metrics.Store.{store_latest}
use axis_cam_metrics.Api.Json.{Api, api_current_values_json}
use axis_cam_metrics.Api.Json.Values.{IsNumber, read_object, listed, read_object-current_values}
use axis_cam_metrics.Api.Prometheus.{page_lines}
use axis_cam_metrics.Api.Prometheus.Once.{IsPage, readings, present, page_lines-IsPage}
use axis_cam_metrics.Tests.Samples.{whole, cpu, registry}
use axis_cam_metrics.Tests.Lines.{device, sampled}

abbrev format : Option ℕ → Text
format none = codes "nan"
format (some n) = codes "12.5"

abbrev print_u : ℕ → Text
print_u n = codes "7"

abbrev print_time : ℤ → Text
print_time t = codes "1700000000"

format-IsNumber : (v : Option ℕ) → IsNumber (format v)
format-IsNumber none = (omega arith, grind arith)
format-IsNumber (some n) = (omega arith, grind arith)

abbrev api : Api whole
api = record {
  registry = registry;
  store = sampled;
  selection = none;
  device = device;
  app_version = codes "1.0";
  persist_path = none;
  mqtt_status = [];
  influx_status = [];
  started = pos 0;
}

current_values_example :
    read_object (api_current_values_json whole format print_u print_time api)
    ≡ (elim (store_latest whole sampled) [
      | none ↦ some []
      | some (values, timestamp) ↦ some (
          listed whole format print_u print_time
            (selection_enabled none transmit)
            registry.defs
            values)
    ])
current_values_example =
    read_object-current_values whole format print_u print_time format-IsNumber api

abbrev metric : Text → MetricDef
metric id = record { id = id; label = id; unit = codes "B/s"; group = codes "network" }

abbrev defs : List MetricDef
defs = metric (codes "net.eth0.rx_bps") ∷ cpu ∷ metric (codes "net.eth1.rx_bps") ∷ []

page_lines_example :
    IsPage [] (page_lines whole format [] defs (some 4 ∷ none ∷ some 6 ∷ []))
    × (readings (page_lines whole format [] defs (some 4 ∷ none ∷ some 6 ∷ []))
        ≡ present whole format defs (some 4 ∷ none ∷ some 6 ∷ []))
page_lines_example = page_lines-IsPage whole format [] defs (some 4 ∷ none ∷ some 6 ∷ [])

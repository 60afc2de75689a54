-- ===== src/Tests/Lines.antt =====
-- A line of line protocol at the store of one metric, with printing that gives constant digits.
use axis_cam_metrics.Base.{ℕ, ◌≡◌, refl, [], ◌∷◌, Option, none, some, true, false, arith}
use axis_cam_metrics.Base.Int.{ℤ, pos}
use axis_cam_metrics.Base.Text.{Text, codes}
use axis_cam_metrics.Settings.Config.{InfluxConfig}
use axis_cam_metrics.Store.{Store, store_latest}
use axis_cam_metrics.Api.{DeviceInfo}
use axis_cam_metrics.Influx.Payload.{build_payload}
use axis_cam_metrics.Influx.Payload.Exported.{chosen, line_of, read_back, build_payload-line_of}
use axis_cam_metrics.Tests.Samples.{whole, store}

abbrev pub sampled : Store whole
sampled = record store { latest = some 4 ∷ []; latest_ts = pos 100; has_latest = true }

abbrev config : InfluxConfig
config = record {
  enabled = true;
  is_v1 = false;
  url = codes "http://db";
  database = codes "cam";
  org = codes "o";
  token = [];
  username = [];
  password = [];
  measurement = codes "axis metrics";
  interval_s = 30;
}

abbrev pub device : DeviceInfo
device = record {
  model = codes "P, 32=x";
  product = [];
  type = [];
  serial = [];
  soc = [];
  arch = [];
  firmware = [];
  hostname = [];
}

abbrev format : Option ℕ → Text
format v = codes "4"

abbrev print_time : ℤ → Text
print_time t = codes "100"

build_payload_example :
    read_back whole format print_time
      (build_payload whole format print_time sampled none config device)
    ≡ (elim (store_latest whole sampled) [
      | none ↦ none
      | some (values, time) ↦
          line_of whole format print_time config device
            (chosen whole format print_time none sampled.registry.defs values)
            time
    ])
build_payload_example =
    build_payload-line_of whole format print_time sampled none config device (λ v. refl)
      (λ v. grind arith) (λ t. refl) (grind arith) tt (grind arith) (grind arith) (omega arith)

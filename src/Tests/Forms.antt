-- ===== src/Tests/Forms.antt =====
-- The query strings and the settings at small forms.
use axis_cam_metrics.Base.{ℕ, ◌<◌, ◌≡◌, refl, List, [], ◌∷◌, some, Bool, true, false, arith, length}
use axis_cam_metrics.Base.Text.{Text, codes}
use axis_cam_metrics.Query.{api_query_param}
use axis_cam_metrics.Query.RoundTrip.{
  Pair, literal, plus, escape, form, lookup, api_query_param-form,
}
use axis_cam_metrics.Settings.{Parameter, settings_json, apply_settings_body}
use axis_cam_metrics.Settings.Secrets.{Distinct, settings_json-hides}
use axis_cam_metrics.Settings.Body.{AllKept, apply_settings_body-AllKept}
use axis_cam_metrics.Settings.Config.{
  mqtt_settings, influx_settings, restart_sampler, InRange, configured-InRange,
}

-- `id=a%26b&op=+x%2f`
abbrev pairs : List Pair
pairs =
    (codes "id", literal 97 ∷ escape 38 false false ∷ literal 98 ∷ [])
    ∷ (codes "op", plus ∷ literal 120 ∷ escape 47 false true ∷ [])
    ∷ []

api_query_param_example :
    api_query_param (some (form pairs)) (codes "op") ≡ lookup (codes "op") pairs
api_query_param_example = api_query_param-form (codes "op") pairs (grind arith) (grind arith)

-- A short table with a secret, at two values of it.
abbrev table : Text → List Parameter
table secret =
    record {
      name = codes "Host";
      fallback = codes "none";
      secret = false;
      value = some (codes "h");
    }
    ∷ record { name = codes "Token"; fallback = []; secret = true; value = some secret }
    ∷ []

table-Distinct : (secret : Text) → Distinct (table secret)
table-Distinct secret = ((λ e. grind arith, tt), (tt, tt))

settings_json_example : settings_json (table (codes "abc")) ≡ settings_json (table (codes "xy"))
settings_json_example =
    settings_json-hides (table (codes "abc")) (table (codes "xy")) (table-Distinct (codes "abc"))
      (table-Distinct (codes "xy"))
      (
        record { same_name = refl; same_kind = refl; same_set = refl; same_shown = λ e. refl },
        (record { same_name = refl; same_kind = refl; same_set = refl; same_shown = λ e. cc }, tt),
      )

abbrev accepts : Text → Text → Bool
accepts name value = true

apply_settings_body_example :
    let (ps', changed) =
      apply_settings_body accepts (table (codes "abc")) (some (codes "Host=new&X=1")) in
    AllKept accepts (table (codes "abc")) ps' × (changed ≡ false → ps' ≡ table (codes "abc"))
apply_settings_body_example =
    apply_settings_body-AllKept accepts (table (codes "abc")) (some (codes "Host=new&X=1"))

abbrev strtoull : Text → ℕ
strtoull t = 70000

configured_example :
    let m = mqtt_settings strtoull (table (codes "abc")) (codes "S1") in
    let i = influx_settings strtoull (table (codes "abc")) in
    InRange 1 m.port 65535
    × InRange 1 m.interval_s 3600
    × InRange 1 i.interval_s 3600
    × InRange 1 (restart_sampler strtoull (table (codes "abc")) 5 true).0 10
    × (length m.host < 128)
    × (length m.topic_prefix < 128)
    × (length i.url < 256)
    × (length i.token < 256)
configured_example = configured-InRange strtoull (table (codes "abc")) (codes "S1") 5 true

-- ===== src/Tests/Rules.antt =====
-- The rules at a table of one rule.
use axis_cam_metrics.Base.{
  List, ℕ, ◌≡◌, refl, [], ◌∷◌, ◌++◌, Option, none, some, true, false, arith, All, replicate,
}
use axis_cam_metrics.Base.Int.{ℤ, pos, ◌-ℤ◌, leb_ℤ}
use axis_cam_metrics.Base.Text.{Text, codes, str_eq}
use axis_cam_metrics.Query.{api_query_param}
use axis_cam_metrics.Alerts.{AlertRule, Alerts, zero_rule, evaluate_rule, find_rule}
use axis_cam_metrics.Alerts.Table.{IsTable}
use axis_cam_metrics.Alerts.Machine.{Input, run, Streak}
use axis_cam_metrics.Alerts.History.{fires_after_hold, Alternates, told, told-Alternates}
use axis_cam_metrics.Alerts.Post.{alerts_apply, null_read}
use axis_cam_metrics.Alerts.Apply.{Leaves, alerts_apply-IsTable, long_id_null_read}
use axis_cam_metrics.Alerts.Start.{Group, alerts_new}
use axis_cam_metrics.Alerts.Loaded.{Kept, alerts_new-IsTable}
use axis_cam_metrics.Tests.Samples.{whole, registry}

abbrev rule : AlertRule whole
rule = record (zero_rule whole) {
  id = codes "cpu_high";
  name = codes "CPU";
  metric = codes "cpu";
  threshold = some 90;
  duration_s = 5;
  enabled = true;
}

abbrev breaching : AlertRule whole
breaching = record rule { breach_since = pos 100 }

abbrev input : ℕ → Option ℕ → Input whole
input now value = record { now = pos now; index = some 0; values = value ∷ [] }

fires_after_hold_example :
    (s : ℤ) × Streak whole rule s (input 105 (some 96) ∷ input 100 (some 95) ∷ [])
    × (leb_ℤ (pos 5) (pos 105 -ℤ s) ≡ true)
unfolding run evaluate_rule
fires_after_hold_example =
    fires_after_hold whole false true rule refl (input 105 (some 96)) (input 100 (some 95) ∷ [])
      refl refl refl

-- The rule fires, its metric is absent, and it stops, the oldest input last.
abbrev inputs : List (Input whole)
inputs = input 120 (some 80) ∷ input 110 none ∷ input 105 (some 96) ∷ input 100 (some 95) ∷ []

told-Alternates_example : Alternates whole false (told whole false rule inputs) false
unfolding run evaluate_rule
told-Alternates_example = told-Alternates whole false rule inputs

abbrev alerts : Alerts whole
alerts = record { rules = rule ∷ []; events = false; notify = true }

alerts-IsTable : IsTable whole (rule ∷ [])
alerts-IsTable = record { bounded = omega arith; distinct = (tt, tt) }

abbrev strtod : Text → Option ℕ
strtod t = some 50

abbrev strtoull : Text → ℕ
strtoull t = 60

alerts_apply_example :
    Leaves whole strtod strtoull
      (IsTable whole)
      (alerts_apply whole strtod strtoull alerts none (codes "action=save&id=mem&metric=mem"))
alerts_apply_example =
    alerts_apply-IsTable whole strtod strtoull alerts none (codes "action=save&id=mem&metric=mem")
      alerts-IsTable

abbrev long_id : Text
long_id = replicate 48 97

abbrev long_body : Text
long_body = codes "action=save&id=" ++ long_id

long_id_example : alerts_apply whole strtod strtoull alerts none long_body ≡ null_read
unfolding api_query_param find_rule str_eq
long_id_example =
    long_id_null_read whole strtod strtoull alerts none long_body long_id refl refl (omega arith)
      (omega arith) (omega arith, tt) refl

abbrev group : Group whole
group = record {
  group = codes "old";
  name = none;
  metric = some (codes "cpu");
  op = none;
  threshold = some 1;
  duration = pos 1;
  enabled = true;
  builtin = true;
}

alerts_new_example :
    let a = (alerts_new whole registry false (λ t. none) (group ∷ [])).0 in
    IsTable whole a.rules × All (Kept whole registry) a.rules
alerts_new_example = alerts_new-IsTable whole registry false (λ t. none) (group ∷ [])

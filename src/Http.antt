-- ===== src/Http.antt =====
-- The routes of app/main.c: which request does what, on the port behind the device's login and on the
-- read-only one. A reply names the renderer and what it was given, not what
-- that prints. A reply that keeps the connection is the event stream's.
pub mod ReadOnly
pub mod Request
use axis_cam_metrics.Base.{
  ℕ, List, [], ◌∷◌, ◌++◌, Option, none, some, Bool, true, false, not, ◌&&◌, ◌||◌, ◌==◌,
  if◌then◌else◌, length, drop,
}
use axis_cam_metrics.Base.Words.{u32}
use axis_cam_metrics.Base.Text.{Text, codes, str_eq, has_prefix}
use axis_cam_metrics.Floats.{Floats}
use axis_cam_metrics.Query.{api_query_param}
use axis_cam_metrics.Settings.{Parameter, settings_json, apply_settings_body}
use axis_cam_metrics.Settings.Config.{clamp}
use axis_cam_metrics.Alerts.{Alerts, Effect}
use axis_cam_metrics.Alerts.Post.{Outcome, returned, null_read, alerts_apply}
use axis_cam_metrics.Selection.{Selection, SelectScope, display, transmit, selection_set_disabled}

-- What follows the first `name` in a text; `none` is the NULL of `strstr`.
unfoldable pub after_name : Text → Text → Option Text
unfolding has_prefix
after_name name [] = if has_prefix [] name then some [] else none
after_name name (c ∷ cs) =
    let rest = after_name name cs in
    if has_prefix (c ∷ cs) name then some (drop (length name) (c ∷ cs)) else rest

unfoldable pub route_is : Text → Text → Bool
unfolding after_name
route_is path name = elim (after_name name path) [
  | none ↦ false
  | some rest ↦ elim rest [ [] ↦ true | c ∷ cs ↦ c == 63 || c == 47 ]
]

pub data Reply : Type 0 where
  forbidden ok meta current health prometheus alerts stream not_found : Reply
  settings : Text → Reply
  series : Text → Reply
  processes : ℕ → Reply

module _ (F : Floats) (strtod : Text → F.Double) (strtoull : Text → ℕ) (strip : Text → Text)
    (accepts : Text → Text → Bool) (answer : Option ℕ) where
  -- The state that requests change.
  pub record World : Type 0 where
    pub parameters : List Parameter
    pub rules : Alerts F
    pub selection : Selection

  -- The state afterwards, the reply, and whether the sampler and the exports are configured anew; or
  -- the end of the process in the NULL read of `alerts_apply`.
  pub data Response : Type 0 where
    served : World → Reply → Bool → Response
    crashed : Response

  abbrev pub scope_of : Text → SelectScope
  scope_of name = if str_eq name (codes "transmit") then transmit else display

  unfoldable pub post_settings : World → Text → Response
  unfolding apply_settings_body
  post_settings w body =
      let (table, changed) = apply_settings_body accepts w.parameters (some body) in
      served (record w { parameters = table }) ok changed

  unfoldable pub post_rules : World → Text → Response
  unfolding alerts_apply
  post_rules w body = elim (alerts_apply F strtod strtoull w.rules answer body) [
    | returned rules changed effects ↦ served (record w { rules = rules }) alerts false
    | null_read ↦ crashed
  ]

  unfoldable pub post_metrics : World → Text → Response
  unfolding api_query_param selection_set_disabled
  post_metrics w body =
      let scope = api_query_param (some body) (codes "scope") in
      let hidden = api_query_param (some body) (codes "disabled") in
      elim scope [
        | none ↦ served w ok false
        | some name ↦ elim hidden [
          | none ↦ served w ok false
          | some csv ↦
              served
                (record w {
                  selection = selection_set_disabled strip w.selection (scope_of name) csv;
                })
                ok false
        ]
      ]

  unfoldable pub process_limit : Text → ℕ
  unfolding api_query_param
  process_limit path = elim (api_query_param (some path) (codes "limit")) [
    | none ↦ clamp 12 1 100
    | some t ↦ clamp (u32 (strtoull t)) 1 100
  ]

  -- The chain of `handle_request` after its first test, on whether the method is GET and POST.
  unfoldable pub dispatch : Bool → Bool → Text → Text → World → Response
  unfolding route_is settings_json post_settings post_rules post_metrics process_limit
  dispatch get post path body w =
      if get && route_is path (codes "settings")
      then served w (settings (settings_json w.parameters)) false
      else if post && route_is path (codes "settings")
      then post_settings w body
      else if get && route_is path (codes "meta")
      then served w meta false
      else if get && route_is path (codes "current")
      then served w current false
      else if get && route_is path (codes "series")
      then served w (series path) false
      else if get && route_is path (codes "health")
      then served w health false
      else if get && route_is path (codes "prometheus")
      then served w prometheus false
      else if get && route_is path (codes "processes")
      then served w (processes (process_limit path)) false
      else if get && route_is path (codes "alerts")
      then served w alerts false
      else if post && route_is path (codes "rules")
      then post_rules w body
      else if post && route_is path (codes "metrics")
      then post_metrics w body
      else if get && route_is path (codes "stream")
      then served w stream false
      else served w not_found false

  unfoldable pub handle_request : Bool → Text → Text → Text → World → Response
  unfolding dispatch str_eq
  handle_request read_only method path body w =
      let get = str_eq method (codes "GET") in
      if read_only && (not get || route_is path (codes "settings"))
      then served w forbidden false
      else dispatch get (str_eq method (codes "POST")) path body w

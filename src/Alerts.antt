-- ===== src/Alerts.antt =====
-- The threshold rules of app/alerts.c: the table of rules, their evaluation, and the changes that a
-- client posts. What the code does to the outside is returned as a list of effects, in its order: event
-- declarations and events of the device, calls of the notify function, and writes of the rules file.
pub mod Table
pub mod Machine
pub mod History
pub mod Post
pub mod Apply
pub mod Start
pub mod Loaded
use axis_cam_metrics.Base.{
  ℕ, zero, suc, ◌+◌, ◌-◌, ◌%◌, ◌^◌, List, [], ◌∷◌, ◌++◌, Option, none, some, Bool, true, false, not,
  ◌&&◌, ◌||◌, length, get_or, ltb, leb, ◌==◌, if◌then◌else◌, is_some, filter,
}
use axis_cam_metrics.Base.Int.{ℤ, pos, ◌-ℤ◌, leb_ℤ, is_zero_ℤ}
use axis_cam_metrics.Base.Words.{u32}
use axis_cam_metrics.Base.Text.{Text, codes, str_eq, strlcpy}
use axis_cam_metrics.Floats.{Floats}
use axis_cam_metrics.Query.{api_query_param}

abbrev pub max_rules : ℕ
max_rules = 64

abbrev pub rule_id_max : ℕ
rule_id_max = 48

pub data AlertOp : Type 0 where
  above below : AlertOp

unfoldable pub op_name : AlertOp → Text
op_name below = codes "below"
op_name above = codes "above"

-- A NULL name is `none`.
unfoldable pub op_from : Option Text → AlertOp
op_from none = above
op_from (some name) = if str_eq name (codes "below") then below else above

abbrev pub is_nil : Text → Bool
is_nil [] = true
is_nil (b ∷ bs) = false

module _ (F : Floats) where
  open F use {Float, Double, nan, is_nan, widen, of_nat, lt}

  pub record AlertRule : Type 0 where
    pub id : Text
    pub name : Text
    pub metric : Text
    pub op : AlertOp
    pub threshold : Double
    pub duration_s : ℕ
    pub enabled : Bool
    pub builtin : Bool
    pub firing : Bool
    pub breach_since : ℤ
    pub fired_at : ℤ
    pub last_value : Double
    pub declaration : ℕ

  -- `struct Alerts`: the first `count` entries of `rules`; whether there is an event handler, and
  -- whether a notify function is set.
  pub record Alerts : Type 0 where
    pub rules : List AlertRule
    pub events : Bool
    pub notify : Bool

  pub data Effect : Type 0 where
    declare : (id name : Text) → Effect
    send_event : (declaration : ℕ) (state : Bool) → Effect
    notified : (rule : AlertRule) (firing : Bool) → Effect
    saved : (rules : List AlertRule) → Effect

  -- `memset(&rule, 0, sizeof(rule))`
  abbrev pub zero_rule : AlertRule
  zero_rule = record {
    id = [];
    name = [];
    metric = [];
    op = above;
    threshold = of_nat 0;
    duration_s = 0;
    enabled = false;
    builtin = false;
    firing = false;
    breach_since = pos 0;
    fired_at = pos 0;
    last_value = of_nat 0;
    declaration = 0;
  }

  -- The first rule with this id.
  unfoldable pub find_rule : List AlertRule → Text → Option AlertRule
  find_rule [] id = none
  find_rule (r ∷ rs) id = if str_eq r.id id then some r else find_rule rs id

  -- `none` is the result FALSE.
  unfoldable pub add_rule : List AlertRule → AlertRule → Option (List AlertRule)
  unfolding find_rule
  add_rule rules source =
      if leb max_rules (length rules) || is_some (find_rule rules source.id)
      then none
      else some (rules ++ (source ∷ []))

  -- Changes in place the first rule with this id, the one that `find_rule` points to.
  unfoldable pub update_rule : List AlertRule → Text → (AlertRule → AlertRule) → List AlertRule
  update_rule [] id f = []
  update_rule (r ∷ rs) id f = if str_eq r.id id then f r ∷ rs else r ∷ update_rule rs id f

  -- The `memmove` that takes the first rule with this id out.
  unfoldable pub remove_rule : List AlertRule → Text → List AlertRule
  remove_rule [] id = []
  remove_rule (r ∷ rs) id = if str_eq r.id id then rs else r ∷ remove_rule rs id

  -- `declare_rule`; `answer` is the declaration that the event handler gives, if it succeeds.
  unfoldable pub declare_rule : Bool → Option ℕ → AlertRule → AlertRule × List Effect
  declare_rule events answer r =
      let given : AlertRule = elim answer [ none ↦ r | some d ↦ record r { declaration = d } ] in
      if not events || not (r.declaration == 0) then (r, []) else (given, declare r.id r.name ∷ [])

  unfoldable pub send_state : Bool → AlertRule → List Effect
  send_state events r =
      if not events || r.declaration == 0 then [] else send_event r.declaration r.firing ∷ []

  abbrev pub tell : Bool → AlertRule → Bool → List Effect
  tell notify r firing = if notify then notified r firing ∷ [] else []

  unfoldable pub prune_stale_builtins : List AlertRule → (Text → Bool) → List AlertRule
  prune_stale_builtins [] expected = []
  prune_stale_builtins (r ∷ rs) expected =
      let kept = prune_stale_builtins rs expected in
      if r.builtin && not (expected r.id) then kept else r ∷ kept

  abbrev pub breached : AlertRule → Float → Bool
  breached r value = elim r.op [
    | above ↦ lt r.threshold (widen value)
    | below ↦ lt (widen value) r.threshold
  ]

  -- The body of the loop of `alerts_evaluate` from `rule->last_value = value` on.
  unfoldable pub evaluate_value : Bool → Bool → ℤ → Float → AlertRule → AlertRule × List Effect
  unfolding send_state ◌-ℤ◌
  evaluate_value events notify now value r =
      let calm = record r { last_value = widen value; breach_since = pos 0 } in
      let cleared = record calm { firing = false } in
      let waiting = record r {
        last_value = widen value;
        breach_since = if is_zero_ℤ r.breach_since then now else r.breach_since;
      } in
      let fired = record waiting { firing = true; fired_at = now } in
      if not (breached r value)
      then (if r.firing
          then (cleared, send_state events cleared ++ tell notify cleared false)
          else (calm, []))
      else if not r.firing && leb_ℤ (pos r.duration_s) (now -ℤ waiting.breach_since)
      then (fired, send_state events fired ++ tell notify fired true)
      else (waiting, [])

  -- The whole body; `index` is what `metrics_find` returns for the rule's metric.
  unfoldable pub evaluate_rule :
      Bool → Bool → ℤ → Option ℕ → List Float → AlertRule → AlertRule × List Effect
  unfolding evaluate_value
  evaluate_rule events notify now index values r =
      let idle : AlertRule × List Effect = (record r { breach_since = pos 0 }, []) in
      let value = λ (i : ℕ). get_or values i nan in
      let live = λ (i : ℕ).
        if is_nan (value i) then idle else evaluate_value events notify now (value i) r in
      if r.enabled then elim index [ none ↦ idle | some i ↦ live i ] else idle

  unfoldable pub evaluate_rules :
      Bool
      → Bool
      → ℤ
      → (Text → Option ℕ)
      → List Float
      → List AlertRule
      → List AlertRule × List Effect
  unfolding evaluate_rule
  evaluate_rules events notify now find values [] = ([], [])
  evaluate_rules events notify now find values (r ∷ rs) =
      let (r', effects) = evaluate_rule events notify now (find r.metric) values r in
      let (rs', more) = evaluate_rules events notify now find values rs in
      (r' ∷ rs', effects ++ more)

  unfoldable pub alerts_evaluate :
      Alerts → ℤ → (Text → Option ℕ) → List Float → Alerts × List Effect
  unfolding evaluate_rules
  alerts_evaluate a now find values =
      let (rules', effects) = evaluate_rules a.events a.notify now find values a.rules in
      (record a { rules = rules' }, effects)

-- ===== src/Alerts/Start.antt =====
-- `alerts_new` of app/alerts.c: the table at start-up, from the rules file, the defaults of the code
-- and the metrics of the device.
use axis_cam_metrics.Base.{
  ℕ, ◌+◌, List, [], ◌∷◌, ◌++◌, Option, none, some, Bool, true, false, not, ◌&&◌, ◌||◌,
  if◌then◌else◌, length, ltb, is_some, drop, take,
}
use axis_cam_metrics.Base.Int.{ℤ, pos, negsuc}
use axis_cam_metrics.Base.Words.{u32, sub32, sub64}
use axis_cam_metrics.Base.Text.{Text, codes, str_eq, strlcpy, has_prefix, has_suffix}
use axis_cam_metrics.Floats.{Floats}
use axis_cam_metrics.Metrics.{MetricRegistry, MetricDef, metrics_find}
use axis_cam_metrics.Alerts.{
  AlertRule, Alerts, Effect, above, saved, zero_rule, rule_id_max, max_rules, op_from, is_nil,
  find_rule, add_rule, declare_rule, prune_stale_builtins,
}

module _ (F : Floats) where
  open F use {Double, of_nat}

  -- One group of the key file, with what the getters of GLib return for its keys.
  pub record Group : Type 0 where
    pub group : Text
    pub name : Option Text
    pub metric : Option Text
    pub op : Option Text
    pub threshold : Double
    pub duration : ℤ
    pub enabled : Bool
    pub builtin : Bool

  abbrev pub to_guint : ℤ → ℕ
  to_guint (pos n) = u32 n
  to_guint (negsuc n) = sub32 0 (u32 (n + 1))

  abbrev pub or_else : Option Text → Text → Text
  or_else none d = d
  or_else (some t) d = t

  unfoldable pub rule_of_group : Group → AlertRule F
  rule_of_group g = record (zero_rule F) {
    id = strlcpy rule_id_max g.group;
    name = strlcpy 96 (or_else g.name g.group);
    metric = strlcpy 64 (or_else g.metric []);
    op = op_from g.op;
    threshold = g.threshold;
    duration_s = to_guint g.duration;
    enabled = g.enabled;
    builtin = g.builtin;
  }

  -- `add_rule` where its result is not looked at.
  unfoldable pub try_add : List (AlertRule F) → AlertRule F → List (AlertRule F)
  try_add rules r = elim (add_rule F rules r) [ none ↦ rules | some rules' ↦ rules' ]

  unfoldable pub load_rules : List (AlertRule F) → List Group → List (AlertRule F)
  unfolding rule_of_group try_add
  load_rules rules [] = rules
  load_rules rules (g ∷ gs) =
      let r = rule_of_group g in
      load_rules
        (if ltb (length rules) max_rules && not (is_nil r.metric) then try_add rules r else rules)
        gs

  abbrev pub default_rule : Text → Text → Text → ℕ → ℕ → AlertRule F
  default_rule id name metric threshold duration = record (zero_rule F) {
    id = id;
    name = name;
    metric = metric;
    op = above;
    threshold = of_nat threshold;
    duration_s = duration;
    enabled = true;
    builtin = true;
  }

  -- `BUILTIN`
  abbrev pub builtins : List (AlertRule F)
  builtins =
      default_rule (codes "cpu_high") (codes "CPU usage high") (codes "cpu.usage") 90 300
      ∷ default_rule (codes "memory_high") (codes "Memory usage high") (codes "mem.usage") 90 300
      ∷ default_rule (codes "temperature_high") (codes "Temperature high") (codes "sensor.CPU") 85
          120
      ∷ []

  abbrev pub is_space_metric : Text → Bool
  is_space_metric id = has_prefix id (codes "fs.") && has_suffix id (codes ".usage")

  -- `g_strndup(id + 3, strlen(id) - 3 - strlen(".usage"))`
  abbrev pub area_of : Text → Text
  area_of id = take (sub64 (sub64 (length id) 3) 6) (drop 3 id)

  abbrev pub space_rule_id : Text → Text
  space_rule_id id = codes "storage_full_" ++ area_of id

  unfoldable pub space_rule : Text → AlertRule F
  space_rule id = record (zero_rule F) {
    id = strlcpy rule_id_max (space_rule_id id);
    name = strlcpy 96 (area_of id ++ codes " almost full");
    metric = strlcpy 64 id;
    op = above;
    threshold = of_nat 90;
    duration_s = 300;
    enabled = true;
    builtin = true;
  }

  -- The loop over the registry that adds a rule for each filesystem.
  unfoldable pub add_space_rules : List (AlertRule F) → List MetricDef → List (AlertRule F)
  unfolding space_rule
  add_space_rules rules [] = rules
  add_space_rules rules (d ∷ ds) =
      add_space_rules
        (if is_space_metric d.id && not (is_some (find_rule F rules (space_rule_id d.id)))
          then try_add rules (space_rule d.id)
          else rules)
        ds

  -- The loop over `BUILTIN` that adds the defaults whose metric the device has.
  unfoldable pub add_builtins :
      MetricRegistry → List (AlertRule F) → List (AlertRule F) → List (AlertRule F)
  add_builtins registry rules [] = rules
  add_builtins registry rules (b ∷ bs) =
      add_builtins registry
        (if is_some (find_rule F rules b.id) || not (is_some (metrics_find registry b.metric))
          then rules
          else try_add rules b)
        bs

  -- The ids put into the table `expected`.
  unfoldable pub expected_builtin : MetricRegistry → List (AlertRule F) → Text → Bool
  expected_builtin registry [] id = false
  expected_builtin registry (b ∷ bs) id =
      (is_some (metrics_find registry b.metric) && str_eq b.id id)
      || expected_builtin registry bs id

  unfoldable pub expected_space : List MetricDef → Text → Bool
  expected_space [] id = false
  expected_space (d ∷ ds) id =
      (is_space_metric d.id && str_eq (space_rule_id d.id) id) || expected_space ds id

  unfoldable pub expected : MetricRegistry → Text → Bool
  unfolding expected_builtin expected_space
  expected registry id = expected_builtin registry builtins id || expected_space registry.defs id

  -- The loop that declares every rule; `answer` gives the declaration of an id.
  unfoldable pub declare_rules :
      Bool → (Text → Option ℕ) → List (AlertRule F) → List (AlertRule F) × List (Effect F)
  declare_rules events answer [] = ([], [])
  declare_rules events answer (r ∷ rs) =
      let (r', effects) = declare_rule F events (answer r.id) r in
      let (rs', more) = declare_rules events answer rs in (r' ∷ rs', effects ++ more)

  -- `groups` is what the rules file holds, [] where it cannot be read.
  unfoldable pub alerts_new :
      MetricRegistry → Bool → (Text → Option ℕ) → List Group → Alerts F × List (Effect F)
  unfolding load_rules add_space_rules add_builtins expected declare_rules
  alerts_new registry events answer groups =
      let all =
        add_builtins registry (add_space_rules (load_rules [] groups) registry.defs) builtins in
      let (rules', effects) =
        declare_rules events answer (prune_stale_builtins F all (expected registry)) in
      (record { rules = rules'; events = events; notify = false }, effects ++ (saved rules' ∷ []))

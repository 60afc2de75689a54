-- ===== src/Alerts/Loaded.antt =====
-- The table that `alerts_new` leaves.
use axis_cam_metrics.Base.{
  ℕ, ◌≡◌, refl, sym, ap, ap₂, ◌∙◌, List, [], ◌∷◌, Option, Bool, true, false, not, ◌&&◌, ◌||◌, inl,
  inr, Option-cases, if_ind, arith, All, length, ltb, is_some,
}
use axis_cam_metrics.Base.Text.{Text}
use axis_cam_metrics.Floats.{Floats}
use axis_cam_metrics.Metrics.{MetricRegistry, MetricDef, metrics_find}
use axis_cam_metrics.Alerts.{
  AlertRule, add_rule, prune_stale_builtins, find_rule, max_rules, is_nil,
}
use axis_cam_metrics.Alerts.Start.{
  Group, try_add, load_rules, rule_of_group, add_space_rules, space_rule, space_rule_id,
  is_space_metric, add_builtins, builtins, expected, declare_rules, alerts_new,
}
use axis_cam_metrics.Alerts.Table.{
  Rules, ids, IsTable, IsTable-of_ids, add_rule-IsTable, prune-IsTable, id-declare_rule,
}

module _ (F : Floats) where
  try_add-IsTable :
      (rules : Rules F) (r : AlertRule F) → IsTable F rules → IsTable F (try_add F rules r)
  unfolding try_add
  try_add-IsTable rules r t = elim (Option-cases (add_rule F rules r)) [
    | inl e ↦ rw (e, try_add) t
    | inr (rules', e) ↦ rw (e, try_add) (add_rule-IsTable F rules r rules' t e)
  ]

  load_rules-IsTable :
      (gs : List (Group F)) (rules : Rules F) → IsTable F rules → IsTable F (load_rules F rules gs)
  unfolding load_rules
  load_rules-IsTable [] rules t = t
  load_rules-IsTable (g ∷ gs) rules t = load_rules-IsTable gs _ (
      if_ind (IsTable F) (ltb (length rules) max_rules && not (is_nil (rule_of_group F g).metric))
        (λ e. try_add-IsTable rules (rule_of_group F g) t) (λ e. t))

  add_space_rules-IsTable :
      (ds : List MetricDef) (rules : Rules F)
      → IsTable F rules
      → IsTable F (add_space_rules F rules ds)
  unfolding add_space_rules
  add_space_rules-IsTable [] rules t = t
  add_space_rules-IsTable (d ∷ ds) rules t = add_space_rules-IsTable ds _ (
      if_ind (IsTable F)
        (is_space_metric F d.id && not (is_some (find_rule F rules (space_rule_id F d.id))))
        (λ e. try_add-IsTable rules (space_rule F d.id) t) (λ e. t))

  add_builtins-IsTable :
      (registry : MetricRegistry) (bs rules : Rules F)
      → IsTable F rules
      → IsTable F (add_builtins F registry rules bs)
  unfolding add_builtins
  add_builtins-IsTable registry [] rules t = t
  add_builtins-IsTable registry (b ∷ bs) rules t = add_builtins-IsTable registry bs _ (
      if_ind (IsTable F)
        (is_some (find_rule F rules b.id) || not (is_some (metrics_find registry b.metric)))
        (λ e. t) (λ e. try_add-IsTable rules b t))

  ids-declare_rules :
      (events : Bool) (answer : Text → Option ℕ) (rules : Rules F)
      → ids F (declare_rules F events answer rules).0 ≡ ids F rules
  unfolding declare_rules
  ids-declare_rules events answer [] = refl
  ids-declare_rules events answer (r ∷ rs) =
      ap₂ (λ (t : Text) (l : List Text). t ∷ l) (id-declare_rule F events (answer r.id) r).0
        (ids-declare_rules events answer rs)

  -- A built-in rule that the table may have.
  abbrev pub Kept : MetricRegistry → AlertRule F → Type 0
  Kept registry r = r.builtin ≡ true → expected F registry r.id ≡ true

  prune-Kept :
      (registry : MetricRegistry) (rules : Rules F)
      → All (Kept registry) (prune_stale_builtins F rules (expected F registry))
  unfolding prune_stale_builtins
  prune-Kept registry [] = tt
  prune-Kept registry (r ∷ rs) =
      if_ind (All (Kept registry)) (r.builtin && not (expected F registry r.id))
        (λ e. prune-Kept registry rs)
        (λ e. (λ b. kept r.builtin (expected F registry r.id) b e, prune-Kept registry rs))
    where
      kept : (b e : Bool) → b ≡ true → (b && not e) ≡ false → e ≡ true
      kept b true h k = refl
      kept true false h k = cc
      kept false false h k = cc

  declare-Kept :
      (registry : MetricRegistry) (events : Bool) (answer : Text → Option ℕ) (rules : Rules F)
      → All (Kept registry) rules
      → All (Kept registry) (declare_rules F events answer rules).0
  unfolding declare_rules
  declare-Kept registry events answer [] h = tt
  declare-Kept registry events answer (r ∷ rs) h =
      let (same_id, same_kind, same_metric) = id-declare_rule F events (answer r.id) r in
      (
        λ b. ap (expected F registry) same_id ∙ h.0 (sym same_kind ∙ b),
        declare-Kept registry events answer rs h.1,
      )

  -- Whatever the rules file holds, the table at start-up has at most 64 rules of distinct ids, and
  -- every built-in rule of it is one that the code expects on this device.
  pub alerts_new-IsTable :
      (registry : MetricRegistry) (events : Bool) (answer : Text → Option ℕ)
      (groups : List (Group F))
      → let a = (alerts_new F registry events answer groups).0 in
        IsTable F a.rules × All (Kept registry) a.rules
  unfolding alerts_new
  alerts_new-IsTable registry events answer groups = (
    IsTable-of_ids F pruned _ (ids-declare_rules events answer pruned) (
        prune-IsTable F (expected F registry) all (
          add_builtins-IsTable registry (builtins F) _ (
            add_space_rules-IsTable registry.defs _
              (load_rules-IsTable groups [] (record { bounded = omega arith; distinct = tt }))))),
    declare-Kept registry events answer pruned (prune-Kept registry all),
  )
    where
      all : Rules F
      all =
          add_builtins F registry (add_space_rules F (load_rules F [] groups) registry.defs)
            (builtins F)

      pruned : Rules F
      pruned = prune_stale_builtins F all (expected F registry)

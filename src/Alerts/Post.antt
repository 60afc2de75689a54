-- ===== src/Alerts/Post.antt =====
-- `alerts_apply` of app/alerts.c: one form-encoded change of the rules. `strtod` and `strtoull` stand
-- for `g_ascii_strtod` and `g_ascii_strtoull` (base 10) of GLib.
use axis_cam_metrics.Base.{
  ℕ, List, [], ◌∷◌, ◌++◌, Option, none, some, Bool, true, false, if◌then◌else◌,
}
use axis_cam_metrics.Base.Words.{u32}
use axis_cam_metrics.Base.Text.{Text, codes, str_eq, strlcpy}
use axis_cam_metrics.Floats.{Floats}
use axis_cam_metrics.Query.{api_query_param}
use axis_cam_metrics.Alerts.{
  AlertRule, Alerts, Effect, saved, zero_rule, rule_id_max, op_from, is_nil, find_rule, add_rule,
  update_rule, remove_rule, declare_rule,
}

module _ (F : Floats) (strtod : Text → F.Double) (strtoull : Text → ℕ) where
  -- How a call ends: with the new table and its result, or in a read through the NULL of a failed
  -- `find_rule`.
  pub data Outcome : Type 0 where
    returned : Alerts F → Bool → List (Effect F) → Outcome
    null_read : Outcome

  abbrev pub field : Text → Text → Option Text
  field body name = api_query_param (some body) name

  abbrev pub when {ℓ} : {A : Type ℓ} → Option Text → (Text → A → A) → A → A
  when none f r = r
  when (some t) f r = f t r

  abbrev pub Edit : Type 0
  Edit = AlertRule F → AlertRule F

  -- The assignments of the save branch, from the form's fields, in their order.
  unfoldable pub edit_rule : Text → Edit
  edit_rule body r =
      let r1 = when (field body (codes "name")) (λ t r. record r { name = strlcpy 96 t }) r in
      let r2 =
        when (field body (codes "metric"))
          (λ t r. if r.builtin then r else record r { metric = strlcpy 64 t }) r1 in
      let r3 = when (field body (codes "op")) (λ t r. record r { op = op_from (some t) }) r2 in
      let r4 =
        when (field body (codes "threshold")) (λ t r. record r { threshold = strtod t }) r3 in
      let r5 =
        when (field body (codes "duration")) (λ t r. record r { duration_s = u32 (strtoull t) })
          r4 in
      let r6 =
        when (field body (codes "enabled")) (λ t r. record r { enabled = str_eq t (codes "yes") })
          r5 in
      if is_nil r6.name then record r6 { name = strlcpy 96 r6.id } else r6

  abbrev pub fresh_rule : Text → AlertRule F
  fresh_rule id = record (zero_rule F) { id = strlcpy rule_id_max id }

  -- The save branch once the rule is in the table, from its second `find_rule` on.
  unfoldable pub save_found : Alerts F → Option ℕ → Text → Text → List (AlertRule F) → Outcome
  unfolding edit_rule
  save_found a answer body id rules =
      let store = λ (r : AlertRule F).
        let (r', effects) = declare_rule F a.events answer (edit_rule body r) in
        let rules' = update_rule F rules id (λ _. r') in
        returned (record a { rules = rules' }) true (effects ++ (saved rules' ∷ [])) in
      elim (find_rule F rules id) [ none ↦ null_read | some r ↦ store r ]

  unfoldable pub apply_save : Alerts F → Option ℕ → Text → Text → Outcome
  unfolding save_found
  apply_save a answer body id =
      let adding : Outcome = elim (add_rule F a.rules (fresh_rule id)) [
        | none ↦ returned a false []
        | some rules ↦ save_found a answer body id rules
      ] in
      elim (find_rule F a.rules id) [ none ↦ adding | some r ↦ save_found a answer body id a.rules ]

  unfoldable pub apply_delete : Alerts F → Text → Outcome
  apply_delete a id =
      let rules' = remove_rule F a.rules id in
      elim (find_rule F a.rules id) [
        | none ↦ returned a false []
        | some r ↦
            if r.builtin
            then returned a false []
            else returned (record a { rules = rules' }) true (saved rules' ∷ [])
      ]

  unfoldable pub apply_action : Alerts F → Option ℕ → Text → Text → Text → Outcome
  unfolding apply_save apply_delete
  apply_action a answer body action id =
      if str_eq action (codes "delete")
      then apply_delete a id
      else if str_eq action (codes "save")
      then apply_save a answer body id
      else returned a false []

  -- `answer` is what the event handler answers to a declaration.
  unfoldable pub alerts_apply : Alerts F → Option ℕ → Text → Outcome
  unfolding apply_action
  alerts_apply a answer body = elim (field body (codes "action")) [
    | none ↦ returned a false []
    | some action ↦ elim (field body (codes "id")) [
      | none ↦ returned a false []
      | some id ↦ apply_action a answer body action id
    ]
  ]

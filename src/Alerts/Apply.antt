-- ===== src/Alerts/Apply.antt =====
-- What a posted change can do to the table of rules, and how a call can end.
use axis_cam_metrics.Base.{
  ℕ, ◌-◌, ◌≤◌, ◌<◌, ◌≡◌, ◌≢◌, refl, sym, ap, ◌∙◌, [], ◌∷◌, ◌++◌, Option, none, some, true, false,
  arith, if◌then◌else◌, Bool-cases, Option-cases, inl, inr, ◌⊎◌, All, length, length-take,
}
use axis_cam_metrics.Base.Text.{Text, codes, str_eq, str_eq_refl, str_eq_ne, strlcpy, strlcpy-fits}
use axis_cam_metrics.Floats.{Floats}
use axis_cam_metrics.Alerts.{
  AlertRule, Alerts, saved, find_rule, add_rule, update_rule, declare_rule, is_nil, rule_id_max,
  max_rules,
}
use axis_cam_metrics.Alerts.Table.{
  Rules, IsTable, IsTable-of_ids, ids-update_rule, add_rule-IsTable, add_rule-some,
  remove_rule-IsTable, add_rule_room, find_rule-append, find_rule_long, id-find_rule,
  id-declare_rule,
}
use axis_cam_metrics.Alerts.Post.{
  Outcome, returned, null_read, field, edit_rule, fresh_rule, save_found, apply_action, when,
  apply_save, apply_delete, alerts_apply,
}

module _ (F : Floats) (strtod : Text → F.Double) (strtoull : Text → ℕ) where
  -- The call returns, and the table that it leaves has the property.
  abbrev pub Leaves : (Rules F → Type 0) → Outcome F strtod strtoull → Type 0
  Leaves P (returned a result effects) = P a.rules
  Leaves P null_read = Unit

  -- An edit keeps the id and the kind of a rule, and the metric of a built-in one.
  pub record Keeps (r r' : AlertRule F) : Type 0 where
    pub keeps_id : r'.id ≡ r.id
    pub keeps_kind : r'.builtin ≡ r.builtin
    pub keeps_metric : r.builtin ≡ true → r'.metric ≡ r.metric

  Keeps-trans : {r r' r'' : AlertRule F} → Keeps r r' → Keeps r' r'' → Keeps r r''
  Keeps-trans h k = record {
    keeps_id = k.keeps_id ∙ h.keeps_id;
    keeps_kind = k.keeps_kind ∙ h.keeps_kind;
    keeps_metric = λ b. k.keeps_metric (h.keeps_kind ∙ b) ∙ h.keeps_metric b;
  }

  Keeps-when :
      (o : Option Text) (f : Text → AlertRule F → AlertRule F) (r : AlertRule F)
      → ((t : Text) (r : AlertRule F) → Keeps r (f t r))
      → Keeps r (when F strtod strtoull o f r)
  Keeps-when none f r h = record { keeps_id = refl; keeps_kind = refl; keeps_metric = λ _. refl }
  Keeps-when (some t) f r h = h t r

  edit_rule-Keeps : (body : Text) (r : AlertRule F) → Keeps r (edit_rule F strtod strtoull body r)
  unfolding edit_rule
  edit_rule-Keeps body r =
      Keeps-trans
        (Keeps-when (field F strtod strtoull body (codes "name")) _ r (λ t r. ground arith))
        (Keeps-trans
          (Keeps-when (field F strtod strtoull body (codes "metric")) _ _ (λ t r. ground arith))
          (Keeps-trans
            (Keeps-when (field F strtod strtoull body (codes "op")) _ _ (λ t r. ground arith))
            (Keeps-trans
              (Keeps-when (field F strtod strtoull body (codes "threshold")) _ _
                (λ t r. ground arith))
              (Keeps-trans
                (Keeps-when (field F strtod strtoull body (codes "duration")) _ _
                  (λ t r. ground arith))
                (Keeps-trans
                  (Keeps-when (field F strtod strtoull body (codes "enabled")) _ _
                    (λ t r. ground arith))
                  (named _))))))
    where
      named :
          (r : AlertRule F)
          → Keeps r (if is_nil r.name then record r { name = strlcpy 96 r.id } else r)
      named r = ground arith

  -- The rule that the save branch stores for one that it found.
  abbrev pub stored : Alerts F → Option ℕ → Text → AlertRule F → AlertRule F
  stored a answer body r = (declare_rule F a.events answer (edit_rule F strtod strtoull body r)).0

  stored-Keeps :
      (a : Alerts F) (answer : Option ℕ) (body : Text) (r : AlertRule F)
      → Keeps r (stored a answer body r)
  stored-Keeps a answer body r =
      let d = id-declare_rule F a.events answer (edit_rule F strtod strtoull body r) in
      Keeps-trans (edit_rule-Keeps body r)
        (record { keeps_id = d.0; keeps_kind = d.1; keeps_metric = λ _. d.2 })

  save_found-some :
      (a : Alerts F) (answer : Option ℕ) (body id : Text) (rules : Rules F) (r : AlertRule F)
      → find_rule F rules id ≡ some r
      → let rules' = update_rule F rules id (λ _. stored a answer body r) in
        save_found F strtod strtoull a answer body id rules
        ≡ returned
            (record a { rules = rules' })
            true
            ((declare_rule F a.events answer (edit_rule F strtod strtoull body r)).1
              ++ (saved rules' ∷ []))
  unfolding save_found
  save_found-some a answer body id rules r e = rw (e, save_found) refl

  save_found-none :
      (a : Alerts F) (answer : Option ℕ) (body id : Text) (rules : Rules F)
      → find_rule F rules id ≡ none
      → save_found F strtod strtoull a answer body id rules ≡ null_read
  unfolding save_found
  save_found-none a answer body id rules e = rw (e, save_found) refl

  save_found-IsTable :
      (a : Alerts F) (answer : Option ℕ) (body id : Text) (rules : Rules F)
      → IsTable F rules
      → Leaves (IsTable F) (save_found F strtod strtoull a answer body id rules)
  save_found-IsTable a answer body id rules t = elim (Option-cases (find_rule F rules id)) [
    | inl e ↦ rw (save_found-none a answer body id rules e) tt
    | inr (r, e) ↦ rw (save_found-some a answer body id rules r e) (
        IsTable-of_ids F rules _
          (ids-update_rule F rules id _ (λ c same.
            (stored-Keeps a answer body r).keeps_id ∙ id-find_rule F rules id r e ∙ sym same))
          t)
  ]

  apply_save-IsTable :
      (a : Alerts F) (answer : Option ℕ) (body id : Text)
      → IsTable F a.rules
      → Leaves (IsTable F) (apply_save F strtod strtoull a answer body id)
  unfolding apply_save
  apply_save-IsTable a answer body id t = elim (Option-cases (find_rule F a.rules id)) [
    | inr (r, e) ↦ rw (e, apply_save) (save_found-IsTable a answer body id a.rules t)
    | inl e ↦ elim (Option-cases (add_rule F a.rules (fresh_rule F strtod strtoull id))) [
      | inl f ↦ rw (e, f, apply_save) t
      | inr (rules, f) ↦
          rw (e, f, apply_save)
            (save_found-IsTable a answer body id rules (add_rule-IsTable F a.rules _ rules t f))
    ]
  ]

  apply_delete-IsTable :
      (a : Alerts F) (id : Text)
      → IsTable F a.rules
      → Leaves (IsTable F) (apply_delete F strtod strtoull a id)
  unfolding apply_delete
  apply_delete-IsTable a id t = elim (Option-cases (find_rule F a.rules id)) [
    | inl e ↦ rw (e, apply_delete) t
    | inr (r, e) ↦ elim (Bool-cases r.builtin) [
      | inl b ↦ rw (e, b, apply_delete) t
      | inr b ↦ rw (e, b, apply_delete) (remove_rule-IsTable F a.rules id t)
    ]
  ]

  module _ (a : Alerts F) (answer : Option ℕ) (body : Text) where
    abbrev call : Outcome F strtod strtoull
    call = alerts_apply F strtod strtoull a answer body

    -- A call does nothing, or deletes, or saves.
    pub apply_cases :
        (call ≡ returned a false [])
        ⊎ ((id : Text) × (call ≡ apply_delete F strtod strtoull a id))
        ⊎ ((id : Text) × (field F strtod strtoull body (codes "id") ≡ some id)
            × (call ≡ apply_save F strtod strtoull a answer body id))
    unfolding alerts_apply apply_action
    apply_cases = elim (Option-cases (field F strtod strtoull body (codes "action"))) [
      | inl e ↦ inl (rw (e, alerts_apply) refl)
      | inr (action, e) ↦ elim (Option-cases (field F strtod strtoull body (codes "id"))) [
        | inl f ↦ inl (rw (e, f, alerts_apply) refl)
        | inr (id, f) ↦ elim (Bool-cases (str_eq action (codes "delete"))) [
          | inl g ↦ inr (inl (id, rw (e, f, g, alerts_apply) refl))
          | inr g ↦ elim (Bool-cases (str_eq action (codes "save"))) [
            | inl k ↦ inr (inr (id, f, rw (e, f, g, k, alerts_apply) refl))
            | inr k ↦ inl (rw (e, f, g, k, alerts_apply) refl)
          ]
        ]
      ]
    ]

    -- Whatever is posted, a call that returns leaves at most 64 rules with distinct ids.
    pub alerts_apply-IsTable : IsTable F a.rules → Leaves (IsTable F) call
    alerts_apply-IsTable t = elim apply_cases [
      | inl e ↦ rw e t
      | inr (inl (id, e)) ↦ rw e (apply_delete-IsTable a id t)
      | inr (inr (id, _, e)) ↦ rw e (apply_save-IsTable a answer body id t)
    ]

    call_save :
        (id : Text)
        → field F strtod strtoull body (codes "action") ≡ some (codes "save")
        → field F strtod strtoull body (codes "id") ≡ some id
        → call ≡ apply_save F strtod strtoull a answer body id
    unfolding alerts_apply apply_action str_eq
    call_save id e f = rw (e, f, alerts_apply) refl

    save_added :
        (id : Text) {rules : Rules F}
        → find_rule F a.rules id ≡ none
        → add_rule F a.rules (fresh_rule F strtod strtoull id) ≡ some rules
        → apply_save F strtod strtoull a answer body id
          ≡ save_found F strtod strtoull a answer body id rules
    unfolding apply_save
    save_added id e f = rw (e, f, apply_save) refl

    save_full :
        (id : Text)
        → find_rule F a.rules id ≡ none
        → add_rule F a.rules (fresh_rule F strtod strtoull id) ≡ none
        → apply_save F strtod strtoull a answer body id ≡ returned a false []
    unfolding apply_save
    save_full id e f = rw (e, f, apply_save) refl

    save_old :
        (id : Text) (r : AlertRule F)
        → find_rule F a.rules id ≡ some r
        → apply_save F strtod strtoull a answer body id
          ≡ save_found F strtod strtoull a answer body id a.rules
    unfolding apply_save
    save_old id r e = rw (e, apply_save) refl

    delete_returns : (id : Text) → apply_delete F strtod strtoull a id ≢ null_read
    unfolding apply_delete
    delete_returns id n = ground arith

    found_returns :
        (id : Text) (rules : Rules F) (r : AlertRule F)
        → find_rule F rules id ≡ some r
        → save_found F strtod strtoull a answer body id rules ≢ null_read
    found_returns id rules r e n = cc (save_found-some a answer body id rules r e)

    save_returns :
        (id : Text)
        → length id < rule_id_max
        → apply_save F strtod strtoull a answer body id ≢ null_read
    save_returns id short n = elim (Option-cases (find_rule F a.rules id)) [
      | inr (r, e) ↦ found_returns id a.rules r e (sym (save_old id r e) ∙ n)
      | inl e ↦ elim (Option-cases (add_rule F a.rules (fresh_rule F strtod strtoull id))) [
        | inl f ↦ cc (save_full id e f)
        | inr (rules, f) ↦
            found_returns id rules (fresh_rule F strtod strtoull id)
              (rw (add_rule-some F a.rules _ rules f).0 (
                find_rule-append F a.rules (fresh_rule F strtod strtoull id) id e
                ∙ rw (strlcpy-fits rule_id_max id short, str_eq_refl id) refl))
              (sym (save_added id e f) ∙ n)
      ]
    ]

    -- A save under an id of 48 bytes or more, to a table that has room and whose ids fit their field,
    -- reads through a NULL pointer, unless the first 47 bytes of the id are taken: the new rule is stored
    -- under those, and the second search for the whole id fails.
    pub long_id_null_read :
        (id : Text)
        → field F strtod strtoull body (codes "action") ≡ some (codes "save")
        → field F strtod strtoull body (codes "id") ≡ some id
        → rule_id_max ≤ length id
        → length a.rules < max_rules
        → All (λ (r : AlertRule F). length r.id < rule_id_max) a.rules
        → find_rule F a.rules (strlcpy rule_id_max id) ≡ none
        → call ≡ null_read
    long_id_null_read id save posted long room short absent =
        let truncated : length (strlcpy rule_id_max id) < length id =
          omega (arith, length-take (rule_id_max - 1) id) in
        let missing = find_rule_long F a.rules id rule_id_max short long in
        call_save id save posted
        ∙ save_added id missing
            (add_rule_room F a.rules (fresh_rule F strtod strtoull id) room absent)
        ∙ save_found-none a answer body id _ (
            find_rule-append F a.rules (fresh_rule F strtod strtoull id) id missing
            ∙ rw
                (str_eq_ne (strlcpy rule_id_max id) id (λ e. omega (arith, ap length e, truncated)))
                refl)

    -- A call whose id fits its field with the terminator returns.
    pub short_id_returns :
        (id : Text)
        → field F strtod strtoull body (codes "id") ≡ some id
        → length id < rule_id_max
        → call ≢ null_read
    short_id_returns id posted short n = elim apply_cases [
      | inl e ↦ cc
      | inr (inl (other, e)) ↦ delete_returns other (sym e ∙ n)
      | inr (inr (other, f, e)) ↦
          let same : id ≡ other = cc in
          save_returns other (omega (arith, ap length same)) (sym e ∙ n)
    ]

-- ===== src/Alerts/Table.antt =====
-- The table of rules: at most 64 of them, no two with one id.
use axis_cam_metrics.Base.{
  ℕ, suc, ◌≤◌, ◌<◌, ◌≡◌, ◌≢◌, refl, sym, ap, ap₂, ◌∙◌, List, [], ◌∷◌, ◌++◌, Option, none, some,
  Bool, not, ◌&&◌, arith, if◌then◌else◌, Bool-cases, inl, inr, All, length, length-append,
}
use axis_cam_metrics.Base.Int.{ℤ}
use axis_cam_metrics.Base.Text.{Text, str_eq, str_eq→eq, str_eq_refl, str_eq_ne}
use axis_cam_metrics.Floats.{Floats}
use axis_cam_metrics.Alerts.{
  AlertRule, Alerts, find_rule, add_rule, update_rule, remove_rule, prune_stale_builtins,
  evaluate_rule, evaluate_rules, alerts_evaluate, max_rules, declare_rule,
}

abbrev pub NoId : Text → List Text → Type 0
NoId id ts = All (λ (t : Text). t ≢ id) ts

abbrev pub Distinct : List Text → Type 0
Distinct [] = Unit
Distinct (t ∷ ts) = NoId t ts × Distinct ts

NoId-append : (id : Text) (ts us : List Text) → NoId id ts → NoId id us → NoId id (ts ++ us)
NoId-append id [] us h k = k
NoId-append id (t ∷ ts) us h k = (h.0, NoId-append id ts us h.1 k)

Distinct-append : (ts : List Text) (t : Text) → Distinct ts → NoId t ts → Distinct (ts ++ (t ∷ []))
Distinct-append [] t h f = (tt, tt)
Distinct-append (u ∷ ts) t h f =
    (NoId-append u ts (t ∷ []) h.0 (λ e. f.0 (sym e), tt), Distinct-append ts t h.1 f.1)

module _ (F : Floats) where
  abbrev pub Rules : Type 0
  Rules = List (AlertRule F)

  -- The ids of a table, in their order: two tables with the same ids are sound together.
  abbrev pub ids : Rules → List Text
  ids [] = []
  ids (r ∷ rs) = r.id ∷ ids rs

  abbrev pub NoRule : Text → Rules → Type 0
  NoRule id rules = NoId id (ids rules)

  pub record IsTable (rules : Rules) : Type 0 where
    pub bounded : length (ids rules) ≤ max_rules
    pub distinct : Distinct (ids rules)

  length-ids : (rules : Rules) → length (ids rules) ≡ length rules
  length-ids [] = refl
  length-ids (r ∷ rs) = ap suc (length-ids rs)

  ids-append : (rs : Rules) (r : AlertRule F) → ids (rs ++ (r ∷ [])) ≡ ids rs ++ (r.id ∷ [])
  ids-append [] r = refl
  ids-append (c ∷ rs) r = ap (λ l. c.id ∷ l) (ids-append rs r)

  pub find_rule-none : (rules : Rules) (id : Text) → find_rule F rules id ≡ none → NoRule id rules
  unfolding find_rule
  find_rule-none [] id h = tt
  find_rule-none (r ∷ rs) id h = elim (Bool-cases (str_eq r.id id)) [
    | inl e ↦ cc (rw e at h)
    | inr e ↦ (
      λ p. cc (sym e ∙ ap (λ t. str_eq t id) p ∙ str_eq_refl id),
      find_rule-none rs id (rw e at h),
    )
  ]

  pub NoRule-find_rule : (rules : Rules) (id : Text) → NoRule id rules → find_rule F rules id ≡ none
  unfolding find_rule
  NoRule-find_rule [] id h = refl
  NoRule-find_rule (r ∷ rs) id h = rw (str_eq_ne r.id id h.0) (NoRule-find_rule rs id h.1)

  pub id-find_rule :
      (rules : Rules) (id : Text) (r : AlertRule F) → find_rule F rules id ≡ some r → r.id ≡ id
  unfolding find_rule
  id-find_rule [] id r h = cc
  id-find_rule (c ∷ rs) id r h = elim (Bool-cases (str_eq c.id id)) [
    | inl e ↦ ground (arith, str_eq→eq c.id id e)
    | inr e ↦ id-find_rule rs id r (rw e at h)
  ]

  pub add_rule-some :
      (rules : Rules) (r : AlertRule F) (rules' : Rules)
      → add_rule F rules r ≡ some rules'
      → (rules' ≡ rules ++ (r ∷ [])) × (length rules < max_rules) × (find_rule F rules r.id ≡ none)
  unfolding add_rule
  add_rule-some rules r rules' h = (ground arith, ground arith, ground arith)

  pub add_rule_room :
      (rules : Rules) (r : AlertRule F)
      → length rules < max_rules
      → find_rule F rules r.id ≡ none
      → add_rule F rules r ≡ some (rules ++ (r ∷ []))
  unfolding add_rule
  add_rule_room rules r room absent = ground arith

  pub find_rule-append :
      (rules : Rules) (r : AlertRule F) (id : Text)
      → find_rule F rules id ≡ none
      → find_rule F (rules ++ (r ∷ [])) id ≡ (if str_eq r.id id then some r else none)
  unfolding find_rule
  find_rule-append [] r id h = refl
  find_rule-append (c ∷ rs) r id h = elim (Bool-cases (str_eq c.id id)) [
    | inl e ↦ cc (rw e at h)
    | inr e ↦ rw e (find_rule-append rs r id (rw e at h))
  ]

  -- An id that is longer than every id of the table is not in it.
  pub find_rule_long :
      (rules : Rules) (id : Text) (n : ℕ)
      → All (λ (r : AlertRule F). length r.id < n) rules
      → n ≤ length id
      → find_rule F rules id ≡ none
  find_rule_long rules id n short long = NoRule-find_rule rules id (no_rule rules short)
    where
      no_rule : (rules : Rules) → All (λ (r : AlertRule F). length r.id < n) rules → NoRule id rules
      no_rule [] h = tt
      no_rule (r ∷ rs) h = (λ e. omega (arith, ap length e, h.0), no_rule rs h.1)

  -- A rule that is added leaves the table sound.
  pub add_rule-IsTable :
      (rules : Rules) (r : AlertRule F) (rules' : Rules)
      → IsTable rules
      → add_rule F rules r ≡ some rules'
      → IsTable rules'
  add_rule-IsTable rules r rules' t h =
      let (e, room, absent) = add_rule-some rules r rules' h in
      rw e (record {
        bounded =
            rw (ids-append rules r)
              (omega (arith, length-append (ids rules) (r.id ∷ []), length-ids rules));
        distinct =
            rw (ids-append rules r)
              (Distinct-append (ids rules) r.id t.distinct (find_rule-none rules r.id absent));
      })

  pub IsTable-of_ids :
      (rules rules' : Rules) → ids rules' ≡ ids rules → IsTable rules → IsTable rules'
  IsTable-of_ids rules rules' e t = record { bounded = rw e t.bounded; distinct = rw e t.distinct }

  pub ids-update_rule :
      (rules : Rules) (id : Text) (f : AlertRule F → AlertRule F)
      → ((r : AlertRule F) → r.id ≡ id → (f r).id ≡ r.id)
      → ids (update_rule F rules id f) ≡ ids rules
  unfolding update_rule
  ids-update_rule [] id f h = refl
  ids-update_rule (r ∷ rs) id f h = elim (Bool-cases (str_eq r.id id)) [
    | inl e ↦ rw e (ap (λ t. t ∷ ids rs) (h r (str_eq→eq r.id id e)))
    | inr e ↦ rw e (ap (λ l. r.id ∷ l) (ids-update_rule rs id f h))
  ]

  NoRule-remove_rule :
      (rules : Rules) (id x : Text) → NoRule x rules → NoRule x (remove_rule F rules id)
  unfolding remove_rule
  NoRule-remove_rule [] id x h = tt
  NoRule-remove_rule (r ∷ rs) id x h = elim (Bool-cases (str_eq r.id id)) [
    | inl e ↦ rw e h.1
    | inr e ↦ rw e (h.0, NoRule-remove_rule rs id x h.1)
  ]

  length-remove_rule :
      (rules : Rules) (id : Text) → length (ids (remove_rule F rules id)) ≤ length (ids rules)
  unfolding remove_rule
  length-remove_rule [] id = omega arith
  length-remove_rule (r ∷ rs) id = elim (Bool-cases (str_eq r.id id)) [
    | inl e ↦ rw e (omega arith)
    | inr e ↦ rw e (omega (arith, length-remove_rule rs id))
  ]

  Distinct-remove_rule :
      (rules : Rules) (id : Text) → Distinct (ids rules) → Distinct (ids (remove_rule F rules id))
  unfolding remove_rule
  Distinct-remove_rule [] id h = tt
  Distinct-remove_rule (r ∷ rs) id h = elim (Bool-cases (str_eq r.id id)) [
    | inl e ↦ rw e h.1
    | inr e ↦ rw e (NoRule-remove_rule rs id r.id h.0, Distinct-remove_rule rs id h.1)
  ]

  -- Taking a rule out leaves the table sound.
  pub remove_rule-IsTable :
      (rules : Rules) (id : Text) → IsTable rules → IsTable (remove_rule F rules id)
  remove_rule-IsTable rules id t = record {
    bounded = omega (arith, length-remove_rule rules id, t.bounded);
    distinct = Distinct-remove_rule rules id t.distinct;
  }

  module _ (expected : Text → Bool) where
    NoRule-prune :
        (rules : Rules) (x : Text)
        → NoRule x rules
        → NoRule x (prune_stale_builtins F rules expected)
    unfolding prune_stale_builtins
    NoRule-prune [] x h = tt
    NoRule-prune (r ∷ rs) x h = elim (Bool-cases (r.builtin && not (expected r.id))) [
      | inl e ↦ rw e (NoRule-prune rs x h.1)
      | inr e ↦ rw e (h.0, NoRule-prune rs x h.1)
    ]

    length-prune :
        (rules : Rules) → length (ids (prune_stale_builtins F rules expected)) ≤ length (ids rules)
    unfolding prune_stale_builtins
    length-prune [] = omega arith
    length-prune (r ∷ rs) = elim (Bool-cases (r.builtin && not (expected r.id))) [
      | inl e ↦ rw e (omega (arith, length-prune rs))
      | inr e ↦ rw e (omega (arith, length-prune rs))
    ]

    Distinct-prune :
        (rules : Rules)
        → Distinct (ids rules)
        → Distinct (ids (prune_stale_builtins F rules expected))
    unfolding prune_stale_builtins
    Distinct-prune [] h = tt
    Distinct-prune (r ∷ rs) h = elim (Bool-cases (r.builtin && not (expected r.id))) [
      | inl e ↦ rw e (Distinct-prune rs h.1)
      | inr e ↦ rw e (NoRule-prune rs r.id h.0, Distinct-prune rs h.1)
    ]

    pub prune-IsTable :
        (rules : Rules) → IsTable rules → IsTable (prune_stale_builtins F rules expected)
    prune-IsTable rules t = record {
      bounded = omega (arith, length-prune rules, t.bounded);
      distinct = Distinct-prune rules t.distinct;
    }

  id-evaluate_rule :
      (events notify : Bool) (now : ℤ) (index : Option ℕ) (values : List F.Float) (r : AlertRule F)
      → (evaluate_rule F events notify now index values r).0.id ≡ r.id
  unfolding evaluate_rule
  id-evaluate_rule events notify now index values r = ground arith

  ids-evaluate_rules :
      (events notify : Bool) (now : ℤ) (find : Text → Option ℕ) (values : List F.Float)
      (rules : Rules)
      → ids (evaluate_rules F events notify now find values rules).0 ≡ ids rules
  unfolding evaluate_rules
  ids-evaluate_rules events notify now find values [] = refl
  ids-evaluate_rules events notify now find values (r ∷ rs) =
      ap₂ ◌∷◌ (id-evaluate_rule events notify now (find r.metric) values r)
        (ids-evaluate_rules events notify now find values rs)

  -- An evaluation leaves the table sound.
  pub alerts_evaluate-IsTable :
      (a : Alerts F) (now : ℤ) (find : Text → Option ℕ) (values : List F.Float)
      → IsTable a.rules
      → IsTable (alerts_evaluate F a now find values).0.rules
  unfolding alerts_evaluate
  alerts_evaluate-IsTable a now find values t =
      IsTable-of_ids a.rules _ (ids-evaluate_rules a.events a.notify now find values a.rules) t

  pub id-declare_rule :
      (events : Bool) (answer : Option ℕ) (r : AlertRule F)
      → ((declare_rule F events answer r).0.id ≡ r.id)
        × ((declare_rule F events answer r).0.builtin ≡ r.builtin)
        × ((declare_rule F events answer r).0.metric ≡ r.metric)
  unfolding declare_rule
  id-declare_rule events answer r = (ground arith, ground arith, ground arith)

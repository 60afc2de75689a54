-- ===== src/Alerts/Machine.antt =====
-- The state of one rule over a history of evaluations: when it fires, and what is told of it.
use axis_cam_metrics.Base.{
  ℕ, ◌≡◌, refl, ◌∙◌, List, [], ◌∷◌, Option, none, some, Bool, true, false, ◌||◌, get_or, arith,
  if◌then◌else◌, Bool-cases, Option-cases, inl, inr,
}
use axis_cam_metrics.Base.Int.{ℤ, pos, ◌-ℤ◌, leb_ℤ, is_zero_ℤ}
use axis_cam_metrics.Floats.{Floats}
use axis_cam_metrics.Alerts.{AlertRule, Effect, breached, evaluate_rule}

module _ (F : Floats) where
  open F use {Float, nan, is_nan}

  -- What one evaluation is given: the time, the index of the rule's metric and the sample.
  pub record Input : Type 0 where
    pub now : ℤ
    pub index : Option ℕ
    pub values : List Float

  -- A present value, if any.
  abbrev pub present : Float → Option Float
  present v = if is_nan v then none else some v

  -- What the rule can read of an input.
  abbrev pub reading : AlertRule F → Input → Option Float
  reading r x =
      if r.enabled
      then elim x.index [ none ↦ none | some i ↦ present (get_or x.values i nan) ]
      else none

  pub since_after : AlertRule F → Input → ℤ
  since_after r x = elim (reading r x) [
    | none ↦ pos 0
    | some v ↦
        if breached F r v
        then (if is_zero_ℤ r.breach_since then x.now else r.breach_since)
        else pos 0
  ]

  pub firing_after : AlertRule F → Input → Bool
  firing_after r x = elim (reading r x) [
    | none ↦ r.firing
    | some v ↦
        if breached F r v
        then r.firing || leb_ℤ (pos r.duration_s) (x.now -ℤ since_after r x)
        else false
  ]

  abbrev pub step : Bool → Bool → Input → AlertRule F → AlertRule F × List (Effect F)
  step events notify x r = evaluate_rule F events notify x.now x.index x.values r

  module _ (events notify : Bool) (x : Input) (r : AlertRule F) where
    pub step_since : (step events notify x r).0.breach_since ≡ since_after r x
    unfolding evaluate_rule since_after
    step_since = ground arith

    pub step_firing : (step events notify x r).0.firing ≡ firing_after r x
    unfolding evaluate_rule since_after firing_after
    step_firing = ground arith

  -- The configuration of a rule, which an evaluation leaves alone.
  pub record Same (r r' : AlertRule F) : Type 0 where
    pub same_id : r'.id ≡ r.id
    pub same_op : r'.op ≡ r.op
    pub same_threshold : r'.threshold ≡ r.threshold
    pub same_duration : r'.duration_s ≡ r.duration_s
    pub same_enabled : r'.enabled ≡ r.enabled

  pub step-Same :
      (events notify : Bool) (x : Input) (r : AlertRule F) → Same r (step events notify x r).0
  unfolding evaluate_rule
  step-Same events notify x r = ground arith

  -- The rule after a history of inputs, the newest first.
  unfoldable pub run : Bool → Bool → AlertRule F → List Input → AlertRule F
  run events notify r [] = r
  run events notify r (x ∷ h) = (step events notify x (run events notify r h)).0

  pub run-Same :
      (events notify : Bool) (r : AlertRule F) (h : List Input) → Same r (run events notify r h)
  unfolding run
  run-Same events notify r [] = ground arith
  run-Same events notify r (x ∷ h) =
      ground (arith, run-Same events notify r h, step-Same events notify x (run events notify r h))

  -- The newest inputs, back to the one at the given time, all breach the rule's threshold.
  pub data Streak (r : AlertRule F) : ℤ → List Input → Type 0 where
    first :
        {x : Input} {h : List Input} (v : Float)
        → reading r x ≡ some v
        → breached F r v ≡ true
        → Streak r x.now (x ∷ h)
    more :
        {s : ℤ} {x : Input} {h : List Input} (v : Float)
        → reading r x ≡ some v
        → breached F r v ≡ true
        → Streak r s h
        → Streak r s (x ∷ h)

  module _ (r r' : AlertRule F) (x : Input) where
    since_absent : reading r' x ≡ none → since_after r' x ≡ pos 0
    unfolding since_after
    since_absent e = ground arith

    since_calm :
        (v : Float) → reading r' x ≡ some v → breached F r' v ≡ false → since_after r' x ≡ pos 0
    unfolding since_after
    since_calm v e b = ground arith

    since_first :
        (v : Float)
        → reading r' x ≡ some v
        → breached F r' v ≡ true
        → is_zero_ℤ r'.breach_since ≡ true
        → since_after r' x ≡ x.now
    unfolding since_after
    since_first v e b z = ground arith

    since_more :
        (v : Float)
        → reading r' x ≡ some v
        → breached F r' v ≡ true
        → is_zero_ℤ r'.breach_since ≡ false
        → since_after r' x ≡ r'.breach_since
    unfolding since_after
    since_more v e b z = ground arith

    reading-Same : Same r r' → reading r x ≡ reading r' x
    reading-Same s = rw s.same_enabled refl

    breached-Same : Same r r' → (v : Float) → breached F r v ≡ breached F r' v
    breached-Same s v = ground (arith, s.same_op, s.same_threshold)

    pub Streak-step :
        (h : List Input)
        → Same r r'
        → (is_zero_ℤ r'.breach_since ≡ false → Streak r r'.breach_since h)
        → is_zero_ℤ (since_after r' x) ≡ false
        → Streak r (since_after r' x) (x ∷ h)
    Streak-step h s ih nz = elim (Option-cases (reading r' x)) [
      | inl e ↦ cc (rw (since_absent e) at nz)
      | inr (v, e) ↦ elim (Bool-cases (breached F r' v)) [
        | inr b ↦ cc (rw (since_calm v e b) at nz)
        | inl b ↦ elim (Bool-cases (is_zero_ℤ r'.breach_since)) [
          | inl z ↦
              rw (since_first v e b z) (Streak.first v (reading-Same s ∙ e) (breached-Same s v ∙ b))
          | inr z ↦
              rw (since_more v e b z)
                (Streak.more v (reading-Same s ∙ e) (breached-Same s v ∙ b) (ih z))
        ]
      ]
    ]

    -- A rule that starts to fire has a breach, and one that is old enough.
    pub starts_firing :
        is_zero_ℤ x.now ≡ false
        → r'.firing ≡ false
        → firing_after r' x ≡ true
        → (is_zero_ℤ (since_after r' x) ≡ false)
          × (leb_ℤ (pos r'.duration_s) (x.now -ℤ since_after r' x) ≡ true)
    unfolding since_after firing_after
    starts_firing nz before fires = (ground arith, ground arith)

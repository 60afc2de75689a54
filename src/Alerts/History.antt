-- ===== src/Alerts/History.antt =====
-- What holds of a rule over every history of evaluations.
use axis_cam_metrics.Base.{
  not, refl, ◌++◌, ℕ, ◌≡◌, sym, ◌∙◌, List, [], ◌∷◌, Bool, true, false, arith, subst,
}
use axis_cam_metrics.Base.Int.{ℤ, pos, ◌-ℤ◌, leb_ℤ, is_zero_ℤ}
use axis_cam_metrics.Floats.{Floats}
use axis_cam_metrics.Alerts.{AlertRule, Effect, notified, declare, send_event, saved, evaluate_rule}
use axis_cam_metrics.Alerts.Machine.{
  Input, since_after, step, step_since, step_firing, run, run-Same, Streak, Streak-step,
  starts_firing,
}

module _ (F : Floats) where
  open F use {Float, nan, is_nan}

  module _ (events notify : Bool) (r : AlertRule F) (idle : r.breach_since ≡ pos 0) where
    -- The breach that a rule remembers is a streak of breaching samples up to now.
    run-Streak :
        (h : List (Input F))
        → is_zero_ℤ (run F events notify r h).breach_since ≡ false
        → Streak F r (run F events notify r h).breach_since h
    unfolding run
    run-Streak [] nz = cc (rw idle at nz)
    run-Streak (x ∷ h) nz =
        let e = step_since F events notify x (run F events notify r h) in
        rw e (
          Streak-step F r (run F events notify r h) x h (run-Same F events notify r h)
            (run-Streak h) (rw e at nz))

    -- A rule that had no breach at first starts to fire only on a sample that breaches its threshold,
    -- at the end of an unbroken streak of such samples that began at a time `s`, the rule's duration
    -- or more ago. (A time of 0 is the mark for no breach, so the times of the history are not 0.)
    pub fires_after_hold :
        (x : Input F) (h : List (Input F))
        → is_zero_ℤ x.now ≡ false
        → (run F events notify r h).firing ≡ false
        → (run F events notify r (x ∷ h)).firing ≡ true
        → (s : ℤ) × Streak F r s (x ∷ h) × (leb_ℤ (pos r.duration_s) (x.now -ℤ s) ≡ true)
    unfolding run
    fires_after_hold x h nz before fires =
        let r' = run F events notify r h in
        let same = run-Same F events notify r h in
        let (some_breach, long) =
          starts_firing F r r' x nz before (sym (step_firing F events notify x r') ∙ fires) in
        (
          since_after F r' x,
          Streak-step F r r' x h same (run-Streak h) some_breach,
          subst (λ (d : ℕ). leb_ℤ (pos d) (x.now -ℤ since_after F r' x) ≡ true) same.same_duration
              long,
        )

  abbrev pub notes : List (Effect F) → List Bool
  notes [] = []
  notes (declare id name ∷ es) = notes es
  notes (send_event d s ∷ es) = notes es
  notes (notified r b ∷ es) = b ∷ notes es
  notes (saved rs ∷ es) = notes es

  abbrev pub changed : Bool → Bool → List Bool
  changed false true = true ∷ []
  changed true false = false ∷ []
  changed false false = []
  changed true true = []

  -- The notify function is called exactly when a rule starts or stops to fire, once, and is told which.
  pub notes-step :
      (events : Bool) (x : Input F) (r : AlertRule F)
      → notes (step F events true x r).1 ≡ changed r.firing (step F events true x r).0.firing
  unfolding evaluate_rule
  notes-step events x r = ground arith

  -- Each entry is the opposite of the one before it, of `a` for the first, and the last is `b`.
  abbrev pub Alternates : Bool → List Bool → Bool → Type 0
  Alternates a [] b = a ≡ b
  Alternates a (n ∷ ns) b = (n ≡ not a) × Alternates n ns b

  Alternates-append :
      (a b c : Bool) (ns ms : List Bool)
      → Alternates a ns b
      → Alternates b ms c
      → Alternates a (ns ++ ms) c
  Alternates-append a b c [] ms h k = subst (λ (x : Bool). Alternates x ms c) (sym h) k
  Alternates-append a b c (n ∷ ns) ms h k = (h.0, Alternates-append n b c ns ms h.1 k)

  Alternates-changed : (a b : Bool) → Alternates a (changed a b) b
  Alternates-changed false true = (refl, refl)
  Alternates-changed true false = (refl, refl)
  Alternates-changed false false = refl
  Alternates-changed true true = refl

  -- What the notify function is told over a history, whose newest input is the first.
  unfoldable pub told : Bool → AlertRule F → List (Input F) → List Bool
  unfolding run
  told events r [] = []
  told events r (x ∷ h) = told events r h ++ notes (step F events true x (run F events true r h)).1

  -- Over any history of samples, the ones without the rule's metric and the ones of a disabled rule
  -- included, the notify function is told by turns that the rule fires and that it has stopped, the
  -- opposite of the first state at first, and the last that it is told is the state that the rule is in.
  pub told-Alternates :
      (events : Bool) (r : AlertRule F) (h : List (Input F))
      → Alternates r.firing (told events r h) (run F events true r h).firing
  unfolding told run
  told-Alternates events r [] = refl
  told-Alternates events r (x ∷ h) =
      let r' = run F events true r h in
      Alternates-append r.firing r'.firing _ (told events r h) _ (told-Alternates events r h) (
        subst (λ (ns : List Bool). Alternates r'.firing ns (step F events true x r').0.firing)
          (sym (notes-step events x r')) (Alternates-changed r'.firing _))

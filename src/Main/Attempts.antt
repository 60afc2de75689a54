-- ===== src/Main/Attempts.antt =====
-- What an attempt to open the history files can leave.
use axis_cam_metrics.Base.{
  ℕ, ◌≡◌, refl, sym, ◌⊎◌, inl, inr, List, [], ◌∷◌, Option, none, some, Bool, true, false, not, ◌&&◌,
  is_some, subst, if_ind, Option-cases,
}
use axis_cam_metrics.Floats.{Floats}
use axis_cam_metrics.Metrics.{count as registry_count}
use axis_cam_metrics.Store.{StoreTier, tier_at, set_tier, store_new, new_tier}
use axis_cam_metrics.Store.Inv.{IsTier}
use axis_cam_metrics.Store.New.{Rounds, store_new-IsStore}
use axis_cam_metrics.Persist.{Persist, persist_open}
use axis_cam_metrics.Main.{
  App, Attempt, Discovery, open_file, open_tier, open_tiers, close_persistence, start_over,
  arm_retry, try_open_persistence,
}
use axis_cam_metrics.Main.Mirror.{Follows, IsApp, Follows-IsTier}
use axis_cam_metrics.Main.Adopt.{IsSlot, fine-IsSlot, medium-IsSlot, coarse-IsSlot}
use axis_cam_metrics.Main.Opening.{Opened, open_file-Opened}
use axis_cam_metrics.Main.Closing.{AllOpen, NoneOpen, close_persistence-IsApp}

module _ (F : Floats) where
  open F use {Float, Double}

  -- All files are open and mirror their tiers, or none is and the caller is told to come again.
  abbrev Tried : App F × Bool → Type 0
  Tried (a, again) = IsApp F a × ((AllOpen F a × (again ≡ false)) ⊎ (NoneOpen F a × (again ≡ true)))

  -- All files are open and mirror their tiers, or none is and another attempt is due: the caller
  -- is told to come again, or the timer is set.
  abbrev pub Outcome : App F × Bool → Type 0
  Outcome (a, again) =
      IsApp F a
      × ((AllOpen F a × (again ≡ false))
          ⊎ (NoneOpen F a × ((again ≡ true) ⊎ (a.persist_retry_timer ≡ true))))

  module _ (attempt : Attempt F)
      (all_written : (tier round : ℕ) → attempt.written tier round ≡ true) where
    -- A tier's file does not open, or it opens and mirrors the tier.
    open_tier-cases :
        (a : App F) (i : ℕ) (t : StoreTier F)
        → IsSlot F i
        → tier_at F a.store i ≡ some t
        → a.store ≡ set_tier F a.store i t
        → IsTier F t
        → a.store.n_metrics ≡ registry_count a.store.registry
        → (open_tier F attempt a i ≡ none)
          ⊎ ((a' : App F) × ((open_tier F attempt a i ≡ some a')
                × Opened F attempt all_written a i a'))
    unfolding open_tier
    open_tier-cases a i t slot at same v width = elim (Option-cases (attempt.opened i)) [
      | inl e ↦ inl (rw (at, open_tier, e) refl)
      | inr ((path, file), e) ↦ inr (
        open_file F attempt a i (persist_open F a.store.registry t file),
        (
          rw (at, open_tier, e) refl,
          open_file-Opened F attempt all_written a i t file slot same v width,
        ),
      )
    ]

    gave_up : (a : App F) → IsApp F a → Tried (close_persistence F a, true)
    gave_up a v = let (v', closed) = close_persistence-IsApp F a v in (v', inr (closed, refl))

    abbrev Fine : App F → Type 0
    Fine a = IsApp F a × (is_some a.fine ≡ true)

    abbrev Medium : App F → Type 0
    Medium a = Fine a × (is_some a.medium ≡ true)

    abbrev Coarse : App F → Type 0
    Coarse a = Medium a × (is_some a.coarse ≡ true)

    Opened-Fine : (a a' : App F) → IsApp F a → Opened F attempt all_written a 0 a' → Fine a'
    Opened-Fine a a' v (t, (p, (e, m))) = subst Fine (sym e) (
      record { width = v.width; fine_ok = m; medium_ok = v.medium_ok; coarse_ok = v.coarse_ok },
      refl,
    )

    Opened-Medium : (a a' : App F) → Fine a → Opened F attempt all_written a 1 a' → Medium a'
    Opened-Medium a a' (v, f) (t, (p, (e, m))) = subst Medium (sym e) (
      (record { width = v.width; fine_ok = v.fine_ok; medium_ok = m; coarse_ok = v.coarse_ok }, f),
      refl,
    )

    Opened-Coarse : (a a' : App F) → Medium a → Opened F attempt all_written a 2 a' → Coarse a'
    Opened-Coarse a a' ((v, f), g) (t, (p, (e, m))) = subst Coarse (sym e) (
      (
        (
          record { width = v.width; fine_ok = v.fine_ok; medium_ok = v.medium_ok; coarse_ok = m },
          f,
        ),
        g,
      ),
      refl,
    )

    finished : (a : App F) → Coarse a → Tried (open_tiers F attempt [] a)
    unfolding open_tiers
    finished a (((v, f), g), h) = (
      record {
        width = v.width;
        fine_ok = v.fine_ok;
        medium_ok = v.medium_ok;
        coarse_ok = v.coarse_ok;
      },
      inl ((f, (g, h)), refl),
    )

    open_coarse : (a : App F) → Medium a → Tried (open_tiers F attempt (2 ∷ []) a)
    unfolding open_tiers
    open_coarse a m =
        let v = m.0.0 in
        elim (open_tier-cases a 2 a.store.coarse (coarse-IsSlot F) refl refl
          (Follows-IsTier F _ 2 a.store.coarse a.coarse v.coarse_ok) v.width) [
            | inl e ↦ rw (e, open_tiers) (gave_up a v)
            | inr (a', (e, o)) ↦ rw (e, open_tiers) (finished a' (Opened-Coarse a a' m o))
          ]

    open_medium : (a : App F) → Fine a → Tried (open_tiers F attempt (1 ∷ 2 ∷ []) a)
    unfolding open_tiers
    open_medium a m =
        let v = m.0 in
        elim (open_tier-cases a 1 a.store.medium (medium-IsSlot F) refl refl
          (Follows-IsTier F _ 1 a.store.medium a.medium v.medium_ok) v.width) [
            | inl e ↦ rw (e, open_tiers) (gave_up a v)
            | inr (a', (e, o)) ↦ rw (e, open_tiers) (open_coarse a' (Opened-Medium a a' m o))
          ]

    open_tiers-Tried : (a : App F) → IsApp F a → Tried (open_tiers F attempt (0 ∷ 1 ∷ 2 ∷ []) a)
    unfolding open_tiers
    open_tiers-Tried a v =
        elim (open_tier-cases a 0 a.store.fine (fine-IsSlot F) refl refl
          (Follows-IsTier F _ 0 a.store.fine a.fine v.fine_ok) v.width) [
            | inl e ↦ rw (e, open_tiers) (gave_up a v)
            | inr (a', (e, o)) ↦ rw (e, open_tiers) (open_medium a' (Opened-Fine a a' v o))
          ]

    tried-Outcome : (r : App F × Bool) → Tried r → Outcome r
    tried-Outcome r (v, inl h) = (v, inl h)
    tried-Outcome r (v, inr (closed, e)) = (v, inr (closed, inl e))

    module _ (fraction : Double) (sample_interval_s : ℕ) (rounds : Rounds F) where
      start_over-IsApp :
          (d : Discovery F) (a : App F)
          → IsApp F a
          → let a' = start_over F fraction sample_interval_s d a in IsApp F a' × NoneOpen F a'
      unfolding start_over store_new new_tier
      start_over-IsApp d a v =
          let (v', (f, (m, c))) = close_persistence-IsApp F a v in
          let (sized, new, empty, fresh) =
            store_new-IsStore F fraction d.memory d.registry sample_interval_s rounds in
          (
            record {
              width = refl;
              fine_ok =
                  subst (Follows F _ 0 _) (sym f)
                    (record { tier_ok = new.fine_ok; unheard = refl });
              medium_ok =
                  subst (Follows F _ 1 _) (sym m)
                    (record { tier_ok = new.medium_ok; unheard = refl });
              coarse_ok =
                  subst (Follows F _ 2 _) (sym c)
                    (record { tier_ok = new.coarse_ok; unheard = refl });
            },
            (f, (m, c)),
          )

      armed : (a : App F) → IsApp F a → IsApp F (record a { persist_retry_timer = true })
      armed a v = record {
        width = v.width;
        fine_ok = v.fine_ok;
        medium_ok = v.medium_ok;
        coarse_ok = v.coarse_ok;
      }

      closed_some : (o : Option (Persist F)) → o ≡ none → is_some o ≡ true → ⊥
      closed_some none c h = absurd cc
      closed_some (some p) c h = absurd cc

      -- A retry that is due has a timer, unless one has been set for it.
      timer_set :
          (again timer : Bool)
          → (again && not timer) ≡ false
          → (again ≡ true) ⊎ (timer ≡ true)
          → timer ≡ true
      timer_set true true h d = refl
      timer_set true false h d = absurd cc
      timer_set false timer h (inl e) = absurd cc
      timer_set false timer h (inr e) = e

      arm_retry-Outcome :
          (a : App F) (again : Bool)
          → Outcome (a, again)
          → Outcome (arm_retry F fraction sample_interval_s (a, again), false)
      unfolding arm_retry
      arm_retry-Outcome a again (v, inl (all, e)) = rw e (v, inl (all, refl))
      arm_retry-Outcome a again (v, inr (closed, due)) =
          if_ind (λ (b : App F). Outcome (b, false)) (again && not a.persist_retry_timer)
            (λ h. (armed a v, inr (closed, inr refl)))
            (λ h. (v, inr (closed, inr (timer_set again a.persist_retry_timer h due))))

      -- An attempt to open the history files, the rebuilds that it makes included, ends with all
      -- files open, each with the layout and the entries of its tier, or with none open and another
      -- attempt due. The conditions: the record writes of the syncs succeed; doubles round as those of
      -- IEEE 754 do; and at the start the tiers are sound, and all files are open, each equal to its
      -- tier, or none is.
      pub try_open_persistence-Outcome :
          (ds : List (Discovery F)) (a : App F)
          → IsApp F a
          → AllOpen F a ⊎ NoneOpen F a
          → Outcome (try_open_persistence F fraction sample_interval_s ds attempt a)
      unfolding try_open_persistence
      try_open_persistence-Outcome [] a v (inl (f, (m, c))) =
          rw (c, try_open_persistence) (v, inl ((f, (m, c)), refl))
      try_open_persistence-Outcome (d ∷ ds) a v (inl (f, (m, c))) =
          rw (c, try_open_persistence) (v, inl ((f, (m, c)), refl))
      try_open_persistence-Outcome [] a v (inr (f, (m, c))) =
          if_ind Outcome (is_some a.coarse) (λ h. absurd (closed_some a.coarse c h))
            (λ h. tried-Outcome _ (open_tiers-Tried a v))
      try_open_persistence-Outcome (d ∷ ds) a v (inr (f, (m, c))) =
          let b : App F = record a { persist_retry_timer = false } in
          let (v', closed) = start_over-IsApp d b (record {
            width = v.width;
            fine_ok = v.fine_ok;
            medium_ok = v.medium_ok;
            coarse_ok = v.coarse_ok;
          }) in
          let r =
            try_open_persistence F fraction sample_interval_s ds attempt
              (start_over F fraction sample_interval_s d b) in
          if_ind Outcome (is_some a.coarse) (λ h. absurd (closed_some a.coarse c h))
            (λ h. arm_retry-Outcome r.0 r.1 (try_open_persistence-Outcome ds _ v' (inr closed)))

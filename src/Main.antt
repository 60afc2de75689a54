-- ===== src/Main.antt =====
-- The main loop of app/main.c where it brings the store and its history files together: opening and
-- closing the files, starting over when storage changes, and what a sample's push writes to them.
-- GLib's timers and the log are not modelled; a timer is whether it is set.
pub mod Mirror
pub mod Delivery
pub mod Adopt
pub mod Opening
pub mod Closing
pub mod Attempts
use axis_cam_metrics.Base.{
  ℕ, zero, suc, List, [], ◌∷◌, ◌++◌, Option, none, some, Bool, true, false, not, ◌&&◌, ◌==◌,
  if◌then◌else◌, is_some, replicate,
}
use axis_cam_metrics.Base.Int.{ℤ}
use axis_cam_metrics.Base.Text.{Text}
use axis_cam_metrics.Floats.{Floats}
use axis_cam_metrics.Metrics.{MetricRegistry, count as registry_count}
use axis_cam_metrics.Store.{
  Store, Notice, tier_at, store_new, store_push, store_set_tier_callback, store_tier_count,
}
use axis_cam_metrics.Persist.{File, Record, Persist, persist_open, persist_close, persist_append}
use axis_cam_metrics.Persist.Load.{persist_load, persist_sync}
use axis_cam_metrics.Alerts.{Alerts, Effect}
use axis_cam_metrics.Alerts.Start.{Group, alerts_new}

module _ (F : Floats) where
  open F use {Float, Double, narrow, of_nat}

  -- The static variables of main.c that these functions share, with the array `persists` as three
  -- fields. `closed` and `effects` tell what was done outside: the files that were closed, as they
  -- were left, and the effects of the alert rules.
  pub record App : Type 0 where
    pub store : Store F
    pub alerts : Alerts F
    pub sample_buffer : List Float
    pub fine : Option (Persist F)
    pub medium : Option (Persist F)
    pub coarse : Option (Persist F)
    pub persist_path : Option Text
    pub persist_retry_timer : Bool
    pub closed : List (ℕ × File F)
    pub effects : List (Effect F)

  -- `persists[i]`
  abbrev pub persist_at : App → ℕ → Option (Persist F)
  persist_at a zero = a.fine
  persist_at a (suc zero) = a.medium
  persist_at a (suc (suc zero)) = a.coarse
  persist_at a (suc (suc (suc i))) = none

  abbrev pub set_persist : App → ℕ → Option (Persist F) → App
  set_persist a zero o = record a { fine = o }
  set_persist a (suc zero) o = record a { medium = o }
  set_persist a (suc (suc zero)) o = record a { coarse = o }
  set_persist a (suc (suc (suc i))) o = a

  -- `written` says which files take a record.
  unfoldable pub on_tier_sample : (ℕ → Bool) → App → Notice F → App
  on_tier_sample written a n = elim (persist_at a n.user_data) [
    | none ↦ a
    | some p ↦
        set_persist a n.user_data
          (some (persist_append F p (written n.user_data) n.values n.timestamp))
  ]

  unfoldable pub on_tier_samples : (ℕ → Bool) → App → List (Notice F) → App
  unfolding on_tier_sample
  on_tier_samples written a [] = a
  on_tier_samples written a (n ∷ ns) = on_tier_samples written (on_tier_sample written a n) ns

  -- The push of a sample tick, with the callbacks that it makes.
  unfoldable pub push_sample : (ℕ → Bool) → App → List Float → ℤ → App
  unfolding store_push on_tier_samples
  push_sample written a values time =
      let (store', notices) = store_push F a.store values time in
      on_tier_samples written (record a { store = store' }) notices

  -- One round of the loop of `close_persistence`.
  unfoldable pub close_tier : App → ℕ → App
  unfolding store_set_tier_callback persist_close
  close_tier a i = elim (persist_at a i) [
    | none ↦ a
    | some p ↦
        set_persist
          (record a {
            store = store_set_tier_callback F a.store i none;
            closed = a.closed ++ ((i, persist_close F p) ∷ []);
          })
          i none
  ]

  unfoldable pub close_persistence : App → App
  unfolding close_tier
  close_persistence a = record (close_tier (close_tier (close_tier a 0) 1) 2) {
    persist_path = none;
  }

  -- What an attempt to open the files meets: each file's path and content, or that it does not open;
  -- what its slots read as once it is laid out anew; and which of the records of its sync are written.
  pub record Attempt : Type 0 where
    pub opened : ℕ → Option (Text × File F)
    pub residue : ℕ → ℕ → Record F
    pub written : ℕ → ℕ → Bool

  -- The store with the saved history, which only an empty tier adopts.
  unfoldable pub adopt : Persist F → Store F → ℕ → Store F
  unfolding store_tier_count persist_load
  adopt p s i = if store_tier_count F s i == 0 then (persist_load F p s i).0 else s

  -- The body of the loop on a file that opens.
  unfoldable pub open_file : Attempt → App → ℕ → Persist F → App
  unfolding adopt persist_sync store_set_tier_callback
  open_file attempt a i p =
      let s' = adopt p a.store i in
      set_persist (record a { store = store_set_tier_callback F s' i (some i) }) i
        (some (persist_sync F p s' i (attempt.residue i) (attempt.written i)))

  -- One round of the loop of `try_open_persistence`: `none` is a file that does not open.
  unfoldable pub open_tier : Attempt → App → ℕ → Option App
  unfolding persist_open open_file
  open_tier attempt a i = elim (tier_at F a.store i) [
    | none ↦ none
    | some t ↦ elim (attempt.opened i) [
      | none ↦ none
      | some (path, file) ↦ some (open_file attempt a i (persist_open F a.store.registry t file))
    ]
  ]

  -- The loop over the tiers `is`; the flag is G_SOURCE_CONTINUE.
  unfoldable pub open_tiers : Attempt → List ℕ → App → App × Bool
  unfolding close_persistence open_tier
  open_tiers attempt [] a = (
    record a {
      persist_path = elim (attempt.opened 2) [ none ↦ none | some (path, file) ↦ some path ];
      persist_retry_timer = false;
    },
    false,
  )
  open_tiers attempt (i ∷ is) a = elim (open_tier attempt a i) [
    | none ↦ (close_persistence a, true)
    | some a' ↦ open_tiers attempt is a'
  ]

  -- What starting over finds: the metrics, the answers of the event system and the rules file.
  pub record Discovery : Type 0 where
    pub registry : MetricRegistry
    pub memory : ℕ
    pub events : Bool
    pub answer : Text → Option ℕ
    pub groups : List (Group F)

  module _ (fraction : Double) (sample_interval_s : ℕ) where
    -- `rebuild_for_new_storage` up to its attempt to open the files.
    unfoldable pub start_over : Discovery → App → App
    unfolding close_persistence store_new alerts_new
    start_over d a =
        let closed' = close_persistence a in
        let (alerts', effects') = alerts_new F d.registry d.events d.answer d.groups in
        record closed' {
          store = store_new F fraction d.memory d.registry sample_interval_s;
          alerts = record alerts' { notify = true };
          sample_buffer = replicate (registry_count d.registry) (narrow (of_nat 0));
          persist_path = none;
          effects = closed'.effects ++ effects';
        }

    -- Its end: a retry that is due needs a timer.
    unfoldable pub arm_retry : App × Bool → App
    arm_retry (a, again) =
        if again && not a.persist_retry_timer then record a { persist_retry_timer = true } else a

    -- `discoveries` are what the rebuilds find while `collector_mounts_changed` says so; after the
    -- last of them the mounts stay as they are.
    unfoldable pub try_open_persistence : List Discovery → Attempt → App → App × Bool
    unfolding open_tiers start_over arm_retry
    try_open_persistence [] attempt a =
        if is_some a.coarse then (a, false) else open_tiers attempt (0 ∷ 1 ∷ 2 ∷ []) a
    try_open_persistence (d ∷ ds) attempt a =
        let rebuilt =
          try_open_persistence ds attempt
            (start_over d (record a { persist_retry_timer = false })) in
        if is_some a.coarse then (a, false) else (arm_retry rebuilt, false)

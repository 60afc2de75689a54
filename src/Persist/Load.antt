-- ===== src/Persist/Load.antt =====
-- `persist_load` and `persist_sync`: a history file read back into a tier, its values placed by the ids
-- of the metrics, and a tier written out to a file.
pub mod Remap
pub mod Reload
use axis_cam_metrics.Base.{
  ℕ, zero, suc, ◌+◌, ◌%◌, List, [], ◌∷◌, Option, none, some, Bool, true, false, not, ◌&&◌, ◌||◌,
  length, get_elem?, set, take, replicate, ltb, ◌==◌, min, map, if◌then◌else◌,
}
use axis_cam_metrics.Base.Int.{ℤ, pos, leb_ℤ}
use axis_cam_metrics.Base.Words.{u32, sub32}
use axis_cam_metrics.Base.Text.{Text}
use axis_cam_metrics.Floats.{Floats}
use axis_cam_metrics.Metrics.{MetricRegistry, metrics_find}
use axis_cam_metrics.Store.{Store, store_restore, store_tier_sample, store_tier_count}
use axis_cam_metrics.Persist.{File, Record, Header, Persist, initialise_file, persist_append}

-- `mapping`: the index that each saved id has now.
unfoldable pub mapping_of : MetricRegistry → List Text → List (Option ℕ)
mapping_of registry ids = map (metrics_find registry) ids

-- The tests that `persist_load` makes of a header, for a file opened at an interval.
unfoldable pub is_readable : Header → ℕ → Bool
is_readable h interval_s =
    (h.magic_ok && h.version == 1)
    && not (
        not (h.interval_s == interval_s)
        || (h.n_metrics == 0 || (ltb 100000 h.n_metrics || h.capacity == 0)))

module _ (F : Floats) where
  open F use {Float, nan}

  -- The loop over the saved values of one record.
  unfoldable pub remap : List (Option ℕ) → List Float → List Float → List Float
  remap [] saved values = values
  remap (m ∷ ms) [] values = values
  remap (m ∷ ms) (v ∷ vs) values = remap ms vs (elim m [ none ↦ values | some k ↦ set values k v ])

  -- One record: what it makes of the store and of the number restored.
  unfoldable pub restore_record : ℕ → List (Option ℕ) → Store F × ℕ → Record F → Store F × ℕ
  unfolding remap
  restore_record tier mapping (s, n) (timestamp, saved) =
      if leb_ℤ timestamp (pos 0) then (s, n) else (
        store_restore F s tier (remap mapping saved (replicate s.n_metrics nan)) timestamp,
        u32 (n + 1),
      )

  -- The loop over the records, with the rounds that are left and the round; a record that cannot be
  -- read ends it.
  unfoldable pub load_from :
      List (Record F) → ℕ → ℕ → ℕ → List (Option ℕ) → ℕ → ℕ → Store F × ℕ → Store F × ℕ
  unfolding restore_record
  load_from records capacity start tier mapping zero i st = st
  load_from records capacity start tier mapping (suc k) i st =
      elim (get_elem? records (u32 (start + i) % capacity)) [
        | none ↦ st
        | some r ↦
            load_from records capacity start tier mapping k (i + 1)
              (restore_record tier mapping st r)
      ]

  -- The store after the load, and the number of records restored.
  unfoldable pub persist_load : Persist F → Store F → ℕ → Store F × ℕ
  unfolding is_readable mapping_of load_from
  persist_load p s tier =
      let h = p.file.header in
      let count = min h.count h.capacity in
      let start = sub32 (u32 (h.head + h.capacity)) count % h.capacity in
      let loaded =
        load_from p.file.records h.capacity start tier
          (mapping_of s.registry (take h.n_metrics p.file.ids)) count 0 (s, 0) in
      if is_readable h p.interval_s
      then (if ltb (length p.file.ids) h.n_metrics then (s, 0) else loaded)
      else (s, 0)

  -- The loop of `persist_sync`; it stops at the first sample that the tier does not have. `written`
  -- says which of the record writes succeed.
  unfoldable pub sync_from : ℕ → ℕ → (ℕ → Bool) → Store F → ℕ → Persist F → Persist F
  unfolding persist_append store_tier_sample
  sync_from zero i written s tier p = p
  sync_from (suc fuel) i written s tier p = elim (store_tier_sample F s tier i) [
    | none ↦ p
    | some (values, timestamp) ↦
        sync_from fuel (i + 1) written s tier (persist_append F p (written i) values timestamp)
  ]

  -- The loop makes one round for each sample of the tier and one that finds none.
  unfoldable pub persist_sync : Persist F → Store F → ℕ → (ℕ → Record F) → (ℕ → Bool) → Persist F
  unfolding initialise_file sync_from store_tier_count
  persist_sync p s tier residue written =
      sync_from (suc (store_tier_count F s tier)) 0 written s tier
        (initialise_file F p s.registry residue)

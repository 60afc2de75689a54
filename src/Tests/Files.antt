-- ===== src/Tests/Files.antt =====
-- The history files at a file of one metric.
use axis_cam_metrics.Base.{
  ◌≡◌, refl, [], ◌∷◌, none, some, true, false, arith, get_or, map, leb, if◌then◌else◌,
}
use axis_cam_metrics.Base.Int.{pos}
use axis_cam_metrics.Base.Words.{u32}
use axis_cam_metrics.Base.Text.{codes, str_eq}
use axis_cam_metrics.Metrics.{metrics_find}
use axis_cam_metrics.Store.Inv.{IsTier, tier_contents}
use axis_cam_metrics.Persist.{
  Persist, Header, persist_close, persist_append, write_header, header_flush_every,
}
use axis_cam_metrics.Persist.Slots.{IsFile, logged, logged-persist_append}
use axis_cam_metrics.Persist.Load.{mapping_of, remap, persist_load, persist_sync}
use axis_cam_metrics.Persist.Load.Remap.{saved_value, get_or-remap}
use axis_cam_metrics.Persist.Load.Reload.{
  restore_all, record_of, persist_load-persist_close, logged-persist_sync,
}
use axis_cam_metrics.Ring.{push_bounded}
use axis_cam_metrics.Tests.Samples.{whole, registry, full_tier, store}

abbrev pub header : Header
header = record {
  magic_ok = true;
  version = 1;
  n_metrics = 1;
  capacity = 2;
  interval_s = 1;
  head = 0;
  count = 0;
}

abbrev pub history : Persist whole
history = record {
  file = record {
    header = header;
    ids = codes "cpu" ∷ [];
    records = (pos 8, some 80 ∷ []) ∷ (pos 7, some 70 ∷ []) ∷ [];
  };
  n_metrics = 1;
  capacity = 2;
  interval_s = 1;
  head = 1;
  count = 2;
  appends_since_header = 59;
  owns_file = true;
}

pub history-IsFile : IsFile whole history
history-IsFile = record {
  some_room = omega arith;
  small = omega arith;
  head_in = omega arith;
  count_in = omega arith;
  all_records = refl;
}

persist_append_example :
    let p' = persist_append whole history true (some 90 ∷ []) (pos 9) in
    IsFile whole p'
    × (logged whole p' ≡ push_bounded 2 (logged whole history) (pos 9, some 90 ∷ []))
    × (p'.capacity ≡ 2)
    × (p'.n_metrics ≡ 1)
    × (p'.file.header
        ≡ (if leb header_flush_every (u32 60) then (write_header whole p').file.header else header))
persist_append_example = logged-persist_append whole history (some 90 ∷ []) (pos 9) history-IsFile

abbrev reopened : Persist whole
reopened = record history { file = persist_close whole history; owns_file = false }

persist_load_example :
    persist_load whole reopened store 0
    ≡ restore_all whole 0 (mapping_of registry (codes "cpu" ∷ [])) (store, 0) (logged whole history)
persist_load_example =
    persist_load-persist_close whole history reopened store 0 history-IsFile refl (omega arith)
      (omega arith) refl refl refl

remap_example :
    get_or
      (remap whole
        (mapping_of registry (codes "old" ∷ codes "cpu" ∷ []))
        (some 1 ∷ some 2 ∷ [])
        (none ∷ []))
      0
      none
    ≡ saved_value whole (codes "old" ∷ codes "cpu" ∷ []) (some 1 ∷ some 2 ∷ []) (codes "cpu") none
unfolding metrics_find str_eq
remap_example =
    get_or-remap whole registry (codes "cpu") 0 refl (codes "old" ∷ codes "cpu" ∷ [])
      (some 1 ∷ some 2 ∷ []) (none ∷ []) refl

pub full_tier-IsTier : IsTier whole full_tier
full_tier-IsTier = record {
  some_room = omega arith;
  small = omega arith;
  head_in = omega arith;
  count_in = omega arith;
  times = refl;
  all_rows = refl;
}

persist_sync_example :
    logged whole (persist_sync whole history store 0 (λ i. (pos 0, [])) (λ i. true))
    ≡ map (record_of whole 1) (tier_contents whole 1 full_tier)
persist_sync_example =
    logged-persist_sync whole store 0 full_tier refl full_tier-IsTier (λ i. true) (λ i. refl)
      history (λ i. (pos 0, [])) (omega arith) (omega arith) (omega arith) refl

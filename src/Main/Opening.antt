-- ===== src/Main/Opening.antt =====
-- Opening one history file.
use axis_cam_metrics.Base.{
  ℕ, zero, suc, ◌+◌, ◌≤◌, ◌<◌, ◌≡◌, refl, sym, ap, ◌∙◌, inl, inr, List, Option, some, Bool, true,
  false, arith, length-tabulate, map, Option-cases, ◌^◌,
}
use axis_cam_metrics.Base.Int.{ℤ}
use axis_cam_metrics.Floats.{Floats}
use axis_cam_metrics.Metrics.{count as registry_count}
use axis_cam_metrics.Store.{
  Store, StoreTier, set_tier, store_set_tier_callback, store_tier_sample, store_tier_count,
}
use axis_cam_metrics.Store.Inv.{tier_contents, IsTier}
use axis_cam_metrics.Persist.{File, Record, Persist, persist_open, persist_append, initialise_file}
use axis_cam_metrics.Persist.Slots.{IsFile, logged-persist_append}
use axis_cam_metrics.Persist.Load.{sync_from, persist_sync}
use axis_cam_metrics.Persist.Load.Reload.{record_of, logged-persist_sync}
use axis_cam_metrics.Main.{App, set_persist, Attempt, open_file}
use axis_cam_metrics.Main.Mirror.{IsMirror}
use axis_cam_metrics.Main.Adopt.{IsSlot, adopt_keeps}

module _ (F : Floats) where
  open F use {Float, Double}

  pub callback_IsTier :
      (t : StoreTier F) (o : Option ℕ) → IsTier F t → IsTier F (record t { callback = o })
  callback_IsTier t o v = record {
    some_room = v.some_room;
    small = v.small;
    head_in = v.head_in;
    count_in = v.count_in;
    times = v.times;
    all_rows = v.all_rows;
  }

  -- A sync keeps a file's invariant and its layout, whichever of its writes succeed.
  abbrev Laid : Persist F → Persist F → Type 0
  Laid p q = IsFile F q × ((q.capacity ≡ p.capacity) × (q.n_metrics ≡ p.n_metrics))

  persist_append-Laid :
      (p : Persist F) (written : Bool) (row : List Float) (time : ℤ)
      → IsFile F p
      → Laid p (persist_append F p written row time)
  unfolding persist_append
  persist_append-Laid p true row time v =
      let (v', grown, room, width, header) = logged-persist_append F p row time v in
      (v', (room, width))
  persist_append-Laid p false row time v = (v, (refl, refl))

  sync_from-Laid :
      (k round : ℕ) (written : ℕ → Bool) (s : Store F) (tier : ℕ) (p : Persist F)
      → IsFile F p
      → Laid p (sync_from F k round written s tier p)
  unfolding sync_from
  sync_from-Laid zero round written s tier p v = (v, (refl, refl))
  sync_from-Laid (suc k) round written s tier p v =
      elim (Option-cases (store_tier_sample F s tier round)) [
        | inl e ↦ rw (e, sync_from) (v, (refl, refl))
        | inr ((row, time), e) ↦
            let (v', (c, w)) = persist_append-Laid p (written round) row time v in
            let (v'', (c', w')) = sync_from-Laid k (round + 1) written s tier _ v' in
            rw (e, sync_from) (v'', (c' ∙ c, w' ∙ w))
      ]

  persist_sync-Laid :
      (p : Persist F) (s : Store F) (tier : ℕ) (residue : ℕ → Record F) (written : ℕ → Bool)
      → 0 < p.capacity
      → p.capacity ≤ 2 ^ 31
      → Laid p (persist_sync F p s tier residue written)
  unfolding persist_sync initialise_file
  persist_sync-Laid p s tier residue written c small =
      sync_from-Laid (suc (store_tier_count F s tier)) 0 written s tier
        (initialise_file F p s.registry residue)
        (record {
          some_room = c;
          small = small;
          head_in = c;
          count_in = omega arith;
          all_records = length-tabulate p.capacity residue;
        })

  module _ (attempt : Attempt F)
      (all_written : (tier round : ℕ) → attempt.written tier round ≡ true) where
    -- What opening tier `i` makes of it and of its file.
    abbrev pub Opened : App F → ℕ → App F → Type 0
    Opened a i a' =
        (t' : StoreTier F) × ((p' : Persist F) × ((a'
              ≡ set_persist F (record a { store = set_tier F a.store i t' }) i (some p'))
            × IsMirror F a.store.n_metrics i t' p'))

    pub open_file-Opened :
        (a : App F) (i : ℕ) (t : StoreTier F) (file : File F)
        → IsSlot F i
        → a.store ≡ set_tier F a.store i t
        → IsTier F t
        → a.store.n_metrics ≡ registry_count a.store.registry
        → Opened a i (open_file F attempt a i (persist_open F a.store.registry t file))
    unfolding open_file store_set_tier_callback persist_open
    open_file-Opened a i t file slot e v width =
        let p = persist_open F a.store.registry t file in
        let (u, (adopted, k)) = adopt_keeps F i slot a.store p t e v in
        let s' = set_tier F a.store i u in
        let n_same = slot.width a.store u in
        let at_tier = slot.at a.store u in
        let room : p.capacity ≡ u.capacity = sym k.capacity in
        let p' = persist_sync F p s' i (attempt.residue i) (attempt.written i) in
        let (file_ok, (capacity, n)) =
          persist_sync-Laid p s' i (attempt.residue i) (attempt.written i) v.some_room v.small in
        (
          record u { callback = some i },
          (
            p',
            (
              ap
                    (λ (x : Store F).
                      set_persist F (record a { store = store_set_tier_callback F x i (some i) }) i
                        (some (persist_sync F p x i (attempt.residue i) (attempt.written i))))
                    adopted
                  ∙ rw (slot.at a.store u, store_set_tier_callback)
                      (ap (λ x. set_persist F (record a { store = x }) i (some p'))
                        (slot.over a.store u (record u { callback = some i }))),
              record {
                tier_ok = callback_IsTier u (some i) k.tier_ok;
                file_ok = file_ok;
                heard = refl;
                same_room = capacity ∙ room;
                same_width = n ∙ sym width;
                same_entries =
                    logged-persist_sync F s' i u at_tier k.tier_ok (attempt.written i)
                      (all_written i) p (attempt.residue i) v.some_room v.small
                      (omega (arith, k.tier_ok.count_in, k.capacity)) (sym width ∙ sym n_same)
                    ∙ ap (λ (n : ℕ). map (record_of F n) (tier_contents F n u)) n_same;
              },
            ),
          ),
        )

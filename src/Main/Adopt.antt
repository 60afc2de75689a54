-- ===== src/Main/Adopt.antt =====
-- Saved history in an empty tier: what a load does to a store.
use axis_cam_metrics.Base.{
  ℕ, zero, suc, ◌+◌, ◌≡◌, refl, ap, ◌∙◌, inl, inr, List, Option, some, if_ind, get_elem?, ◌%◌, ltb,
  length, min, take, ◌==◌, Bool-cases, Option-cases,
}
use axis_cam_metrics.Base.Int.{ℤ, pos, leb_ℤ}
use axis_cam_metrics.Base.Words.{u32, sub32}
use axis_cam_metrics.Floats.{Floats}
use axis_cam_metrics.Store.{
  Store, StoreTier, tier_at, set_tier, tier_append, store_restore, store_tier_count,
}
use axis_cam_metrics.Store.Inv.{IsTier, tier_append-IsTier}
use axis_cam_metrics.Persist.{Record, Persist}
use axis_cam_metrics.Persist.Load.{mapping_of, restore_record, load_from, persist_load, is_readable}
use axis_cam_metrics.Main.{adopt}

module _ (F : Floats) where
  open F use {Float, Double}

  -- An index of the array `tiers`.
  pub record IsSlot (i : ℕ) : Type 0 where
    pub at : (s : Store F) (t : StoreTier F) → tier_at F (set_tier F s i t) i ≡ some t
    pub over :
        (s : Store F) (t t' : StoreTier F) → set_tier F (set_tier F s i t) i t' ≡ set_tier F s i t'
    pub width : (s : Store F) (t : StoreTier F) → (set_tier F s i t).n_metrics ≡ s.n_metrics

  pub fine-IsSlot : IsSlot 0
  fine-IsSlot = record { at = λ s t. refl; over = λ s t t'. refl; width = λ s t. refl }

  pub medium-IsSlot : IsSlot 1
  medium-IsSlot = record { at = λ s t. refl; over = λ s t t'. refl; width = λ s t. refl }

  pub coarse-IsSlot : IsSlot 2
  coarse-IsSlot = record { at = λ s t. refl; over = λ s t t'. refl; width = λ s t. refl }

  -- What a load leaves of a tier.
  pub record Kept (t t' : StoreTier F) : Type 0 where
    pub tier_ok : IsTier F t'
    pub capacity : t'.capacity ≡ t.capacity
    pub callback : t'.callback ≡ t.callback

  module _ (i : ℕ) (slot : IsSlot i) (s : Store F) where
    -- The store is as it was but for the tier, which is kept.
    abbrev pub KeptIn : StoreTier F → Store F → Type 0
    KeptIn t s' = (t' : StoreTier F) × ((s' ≡ set_tier F s i t') × Kept t t')

    restore_keeps :
        (t u : StoreTier F) (s' : Store F) (values : List Float) (time : ℤ)
        → s' ≡ set_tier F s i u
        → Kept t u
        → KeptIn t (store_restore F s' i values time)
    unfolding store_restore tier_append
    restore_keeps t u s' values time e k = (
      tier_append F (set_tier F s i u).n_metrics u values time,
      (
        ap (λ x. store_restore F x i values time) e
            ∙ rw (slot.at s u, store_restore) (slot.over s u _),
        record {
          tier_ok = tier_append-IsTier F (set_tier F s i u).n_metrics u values time k.tier_ok;
          capacity = k.capacity;
          callback = k.callback;
        },
      ),
    )

    load_from_keeps :
        (records : List (Record F)) (capacity start : ℕ) (mapping : List (Option ℕ)) (k round : ℕ)
        (t : StoreTier F) (st : Store F × ℕ)
        → KeptIn t st.0
        → KeptIn t (load_from F records capacity start i mapping k round st).0
    unfolding load_from restore_record
    load_from_keeps records capacity start mapping zero round t st h = h
    load_from_keeps records capacity start mapping (suc k) round t (s', n) (u, (e, v)) =
        elim (Option-cases (get_elem? records (u32 (start + round) % capacity))) [
          | inl none_left ↦ rw (none_left, load_from) (u, (e, v))
          | inr ((time, saved), found) ↦
              rw (found, load_from)
                (load_from_keeps records capacity start mapping k (round + 1) t _ (
                  if_ind (λ (r : Store F × ℕ). KeptIn t r.0) (leb_ℤ time (pos 0)) (λ b. (u, (e, v)))
                    (λ b. restore_keeps t u s' _ time e v)))
        ]

    persist_load_keeps :
        (p : Persist F) (t : StoreTier F)
        → s ≡ set_tier F s i t
        → IsTier F t
        → KeptIn t (persist_load F p s i).0
    unfolding persist_load
    persist_load_keeps p t e v =
        let here : KeptIn t s =
          (t, (e, record { tier_ok = v; capacity = refl; callback = refl })) in
        let h = p.file.header in
        let count = min h.count h.capacity in
        elim (Bool-cases (is_readable p.file.header p.interval_s)) [
          | inl b ↦ elim (Bool-cases (ltb (length p.file.ids) p.file.header.n_metrics)) [
            | inl short ↦ rw (b, short) here
            | inr whole ↦
                rw (b, whole)
                  (load_from_keeps p.file.records h.capacity
                    (sub32 (u32 (h.head + h.capacity)) count % h.capacity)
                    (mapping_of s.registry (take h.n_metrics p.file.ids)) count 0 t (s, 0) here)
          ]
          | inr b ↦ rw b here
        ]

    pub adopt_keeps :
        (p : Persist F) (t : StoreTier F)
        → s ≡ set_tier F s i t
        → IsTier F t
        → KeptIn t (adopt F p s i)
    unfolding adopt
    adopt_keeps p t e v =
        if_ind (KeptIn t) (store_tier_count F s i == 0) (λ b. persist_load_keeps p t e v)
          (λ b. (t, (e, record { tier_ok = v; capacity = refl; callback = refl })))

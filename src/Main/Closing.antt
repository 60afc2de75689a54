-- ===== src/Main/Closing.antt =====
-- Closing the history files.
use axis_cam_metrics.Base.{
  ℕ, ◌≡◌, refl, sym, ap, ◌∙◌, List, [], ◌∷◌, ◌++◌, Option, none, some, true, is_some, subst,
}
use axis_cam_metrics.Floats.{Floats}
use axis_cam_metrics.Store.{StoreTier, tier_at, set_tier, store_set_tier_callback}
use axis_cam_metrics.Persist.{File, Persist, persist_close}
use axis_cam_metrics.Main.{App, persist_at, set_persist, close_tier, close_persistence}
use axis_cam_metrics.Main.Mirror.{IsAlone, Follows, IsApp}
use axis_cam_metrics.Main.Delivery.{set_persist_self}
use axis_cam_metrics.Main.Opening.{callback_IsTier}

module _ (F : Floats) where
  open F use {Float, Double}

  abbrev pub AllOpen : App F → Type 0
  AllOpen a = (is_some a.fine ≡ true) × ((is_some a.medium ≡ true) × (is_some a.coarse ≡ true))

  abbrev pub NoneOpen : App F → Type 0
  NoneOpen a = (a.fine ≡ none) × ((a.medium ≡ none) × (a.coarse ≡ none))

  -- What closing tier `i` makes of it.
  abbrev Closed : App F → ℕ → App F → Type 0
  Closed a i a' =
      (t' : StoreTier F) × ((c : List (ℕ × File F)) × ((a'
            ≡ set_persist F (record a { store = set_tier F a.store i t'; closed = c }) i none)
          × IsAlone F t'))

  close_tier-Closed :
      (a : App F) (i : ℕ) (t : StoreTier F) (o : Option (Persist F))
      → tier_at F a.store i ≡ some t
      → a.store ≡ set_tier F a.store i t
      → persist_at F a i ≡ o
      → Follows F a.store.n_metrics i t o
      → Closed a i (close_tier F a i)
  unfolding close_tier store_set_tier_callback
  close_tier-Closed a i t none at same e v = (
    t,
    (
      a.closed,
      (
        rw (e, close_tier)
            (sym (set_persist_self F a i)
              ∙ ap (set_persist F a i) e
              ∙ ap (λ x. set_persist F (record a { store = x }) i none) same),
        v,
      ),
    ),
  )
  close_tier-Closed a i t (some p) at same e v = (
    record t { callback = none },
    (
      a.closed ++ ((i, persist_close F p) ∷ []),
      (
        rw (e, close_tier, at, store_set_tier_callback) refl,
        record { tier_ok = callback_IsTier F t none v.tier_ok; unheard = refl },
      ),
    ),
  )

  -- Closing leaves no file open and no callback set.
  pub close_persistence-IsApp :
      (a : App F) → IsApp F a → IsApp F (close_persistence F a) × NoneOpen (close_persistence F a)
  unfolding close_persistence
  close_persistence-IsApp a v =
      let (t0, (c0, (e0, v0))) =
        close_tier-Closed a 0 a.store.fine a.fine refl refl refl v.fine_ok in
      let a1 : App F =
        set_persist F (record a { store = set_tier F a.store 0 t0; closed = c0 }) 0 none in
      let (t1, (c1, (e1, v1))) =
        close_tier-Closed a1 1 a.store.medium a.medium refl refl refl v.medium_ok in
      let a2 : App F =
        set_persist F (record a1 { store = set_tier F a1.store 1 t1; closed = c1 }) 1 none in
      let (t2, (c2, (e2, v2))) =
        close_tier-Closed a2 2 a.store.coarse a.coarse refl refl refl v.coarse_ok in
      subst (λ b. IsApp F b × NoneOpen b)
        (sym (
          ap (λ b. record (close_tier F (close_tier F b 1) 2) { persist_path = none }) e0
          ∙ ap (λ b. record (close_tier F b 2) { persist_path = none }) e1
          ∙ ap (λ (b : App F). record b { persist_path = none }) e2))
        (
          record { width = v.width; fine_ok = v0; medium_ok = v1; coarse_ok = v2 },
          (refl, (refl, refl)),
        )

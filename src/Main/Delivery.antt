-- ===== src/Main/Delivery.antt =====
-- The calls of a push, and the history files that they reach.
use axis_cam_metrics.Base.{
  ℕ, zero, suc, ◌≡◌, refl, sym, ap, ◌∙◌, inl, inr, List, [], ◌∷◌, ◌++◌, Option, none, some, Bool,
  true, take, subst,
}
use axis_cam_metrics.Base.Int.{ℤ}
use axis_cam_metrics.Floats.{Floats}
use axis_cam_metrics.Store.{StoreTier, Notice, notice, coarse_push, store_push}
use axis_cam_metrics.Persist.{Persist, persist_append}
use axis_cam_metrics.Main.{
  App, persist_at, set_persist, on_tier_sample, on_tier_samples, push_sample,
}
use axis_cam_metrics.Main.Mirror.{
  IsMirror, IsAlone, Follows, Follows-IsTier, IsApp, Step, fine-Step, coarse-Step, append_mirrors,
  quiet_mirrors,
}

module _ (F : Floats) where
  open F use {Float}

  pub set_persist_self : (a : App F) (i : ℕ) → set_persist F a i (persist_at F a i) ≡ a
  set_persist_self a zero = refl
  set_persist_self a (suc zero) = refl
  set_persist_self a (suc (suc zero)) = refl
  set_persist_self a (suc (suc (suc i))) = refl

  module _ (written : ℕ → Bool) (all_written : (i : ℕ) → written i ≡ true) where
    on_tier_samples-append :
        (ns ms : List (Notice F)) (a : App F)
        → on_tier_samples F written a (ns ++ ms)
          ≡ on_tier_samples F written (on_tier_samples F written a ns) ms
    unfolding on_tier_samples
    on_tier_samples-append [] ms a = refl
    on_tier_samples-append (n ∷ ns) ms a =
        on_tier_samples-append ns ms (on_tier_sample F written a n)

    -- The calls of one tier's step reach that tier's file and no other.
    abbrev Delivered : ℕ → App F → ℕ → StoreTier F → List (Notice F) → Type 0
    Delivered n a i t' calls =
        (o : Option (Persist F)) × ((on_tier_samples F written a calls ≡ set_persist F a i o)
          × Follows F n i t' o)

    unwatched :
        (n i : ℕ) (t t' : StoreTier F) (calls : List (Notice F)) (a : App F)
        → persist_at F a i ≡ none
        → IsAlone F t
        → Step F n t t' calls
        → Delivered n a i t' calls
    unfolding on_tier_samples
    unwatched n i t t' calls a e m s = (
      none,
      (
        ap (on_tier_samples F written a) no_calls
            ∙ sym (set_persist_self a i)
            ∙ ap (set_persist F a i) e,
        record { tier_ok = s.tier_ok; unheard = s.callback ∙ m.unheard },
      ),
    )
      where
        no_calls : calls ≡ []
        no_calls = elim s.change [
          | inl q ↦ q.no_calls
          | inr (row, (time, g)) ↦ g.one_call ∙ rw m.unheard refl
        ]

    watched :
        (n i : ℕ) (t t' : StoreTier F) (calls : List (Notice F)) (a : App F) (p : Persist F)
        → persist_at F a i ≡ some p
        → IsMirror F n i t p
        → Step F n t t' calls
        → Delivered n a i t' calls
    unfolding on_tier_samples on_tier_sample
    watched n i t t' calls a p e m s = elim s.change [
      | inl q ↦ (
        some p,
        (
          ap (on_tier_samples F written a) q.no_calls
              ∙ sym (set_persist_self a i)
              ∙ ap (set_persist F a i) e,
          quiet_mirrors F n i t t' p m s.tier_ok s.capacity s.callback q.entries,
        ),
      )
      | inr (row, (time, g)) ↦ (
        some (persist_append F p true row time),
        (
          ap (on_tier_samples F written a) g.one_call
              ∙ rw (m.heard, on_tier_sample, e, all_written i) refl,
          append_mirrors F n i t t' p row time m s.tier_ok s.capacity s.callback g.entries,
        ),
      )
    ]

    delivered :
        (n i : ℕ) (t t' : StoreTier F) (calls : List (Notice F)) (a : App F)
        (o : Option (Persist F))
        → persist_at F a i ≡ o
        → Follows F n i t o
        → Step F n t t' calls
        → Delivered n a i t' calls
    delivered n i t t' calls a none e m s = unwatched n i t t' calls a e m s
    delivered n i t t' calls a (some p) e m s = watched n i t t' calls a p e m s

    -- A sample's push whose record writes succeed keeps every open history file equal to its tier:
    -- the same entries, oldest first, in as many slots; a tier with no file stays without a callback.
    pub push_sample-IsApp :
        (a : App F) (row : List Float) (time : ℤ)
        → IsApp F a
        → IsApp F (push_sample F written a row time)
    unfolding push_sample store_push
    push_sample-IsApp a row time v =
        let n = a.store.n_metrics in
        let start : App F = record a { store = (store_push F a.store row time).0 } in
        let (o0, (e0, f0)) =
          delivered n 0 a.store.fine _ (notice F a.store.fine (take n row) time) start a.fine refl
            v.fine_ok
            (fine-Step F n a.store.fine row time
              (Follows-IsTier F n 0 a.store.fine a.fine v.fine_ok)) in
        let (o1, (e1, f1)) =
          delivered n 1 a.store.medium _ (coarse_push F n a.store.medium row time).1
            (set_persist F start 0 o0) a.medium refl v.medium_ok
            (coarse-Step F n a.store.medium row time
              (Follows-IsTier F n 1 a.store.medium a.medium v.medium_ok)) in
        let (o2, (e2, f2)) =
          delivered n 2 a.store.coarse _ (coarse_push F n a.store.coarse row time).1
            (set_persist F (set_persist F start 0 o0) 1 o1) a.coarse refl v.coarse_ok
            (coarse-Step F n a.store.coarse row time
              (Follows-IsTier F n 2 a.store.coarse a.coarse v.coarse_ok)) in
        subst (IsApp F)
          (sym (
            on_tier_samples-append (notice F a.store.fine (take n row) time)
              ((coarse_push F n a.store.medium row time).1
                ++ (coarse_push F n a.store.coarse row time).1)
              start
            ∙ ap
                (λ b. on_tier_samples F written b (
                  (coarse_push F n a.store.medium row time).1
                  ++ (coarse_push F n a.store.coarse row time).1))
                e0
            ∙ on_tier_samples-append (coarse_push F n a.store.medium row time).1
                (coarse_push F n a.store.coarse row time).1 (set_persist F start 0 o0)
            ∙ ap (λ b. on_tier_samples F written b (coarse_push F n a.store.coarse row time).1) e1
            ∙ e2))
          (record { width = v.width; fine_ok = f0; medium_ok = f1; coarse_ok = f2 })

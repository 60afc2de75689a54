-- ===== src/Store/Push.antt =====
-- `store_push`: what a push does to the fine tier and to the latest sample, and what the fine tier
-- holds after a run of pushes.
use axis_cam_metrics.Base.{
  ℕ, ◌≤◌, ◌≡◌, refl, sym, ap, ◌∙◌, List, [], ◌∷◌, ◌++◌, length, take, append-nil, append_assoc,
  Bool-cases, inl, inr,
}
use axis_cam_metrics.Base.Int.{ℤ}
use axis_cam_metrics.Floats.{Floats}
use axis_cam_metrics.Ring.{keep, keep-keep, push_bounded-keep, length-contents, keep_all}
use axis_cam_metrics.Store.{
  StoreTier, Store, tier_append, bucket_add, bucket_due, bucket_close, coarse_push, store_push,
  mean_row,
}
use axis_cam_metrics.Store.Inv.{
  IsTier, Entry, tier_contents, tier_append-IsTier, contents-tier_append,
}

module _ (F : Floats) where
  open F use {Float}

  pub record IsStore (s : Store F) : Type 0 where
    pub fine_ok : IsTier F s.fine
    pub medium_ok : IsTier F s.medium
    pub coarse_ok : IsTier F s.coarse

  pub bucket_close-IsTier :
      (n : ℕ) (t : StoreTier F) (time : ℤ) → IsTier F t → IsTier F (bucket_close F n t time)
  unfolding bucket_close
  bucket_close-IsTier n t time v =
      let v' = tier_append-IsTier F n t (mean_row F t.acc t.acc_n) time v in
      record {
        some_room = v'.some_room;
        small = v'.small;
        head_in = v'.head_in;
        count_in = v'.count_in;
        times = v'.times;
        all_rows = v'.all_rows;
      }

  pub bucket_add-IsTier :
      (t : StoreTier F) (row : List Float) (time : ℤ)
      → IsTier F t
      → IsTier F (bucket_add F t row time)
  unfolding bucket_add
  bucket_add-IsTier t row time v = record {
    some_room = v.some_room;
    small = v.small;
    head_in = v.head_in;
    count_in = v.count_in;
    times = v.times;
    all_rows = v.all_rows;
  }

  pub coarse_push-IsTier :
      (n : ℕ) (t : StoreTier F) (row : List Float) (time : ℤ)
      → IsTier F t
      → IsTier F (coarse_push F n t row time).0
  unfolding coarse_push
  coarse_push-IsTier n t row time v =
      elim (Bool-cases (bucket_due F (bucket_add F t row time) time)) [
        | inl e ↦ rw e (bucket_close-IsTier n _ time (bucket_add-IsTier t row time v))
        | inr e ↦ rw e (bucket_add-IsTier t row time v)
      ]

  -- A push keeps every tier within its array.
  pub store_push-IsStore :
      (s : Store F) (row : List Float) (time : ℤ) → IsStore s → IsStore (store_push F s row time).0
  unfolding store_push
  store_push-IsStore s row time v = record {
    fine_ok = tier_append-IsTier F s.n_metrics s.fine row time v.fine_ok;
    medium_ok = coarse_push-IsTier s.n_metrics s.medium row time v.medium_ok;
    coarse_ok = coarse_push-IsTier s.n_metrics s.coarse row time v.coarse_ok;
  }

  -- The sampler's pushes, one after the other.
  unfoldable pub push_all : Store F → List (List Float × ℤ) → Store F
  push_all s [] = s
  push_all s ((row, time) ∷ samples) = push_all (store_push F s row time).0 samples

  -- The entry that a sample makes.
  abbrev pub entry_of : ℕ → List Float × ℤ → Entry F
  entry_of n (row, time) = (take n row, time)

  abbrev pub entries_of : ℕ → List (List Float × ℤ) → List (Entry F)
  entries_of n [] = []
  entries_of n (x ∷ xs) = entry_of n x ∷ entries_of n xs

  pub contents_fit :
      (n : ℕ) {t : StoreTier F} → IsTier F t → length (tier_contents F n t) ≤ t.capacity
  contents_fit n {t} v = rw length-contents v.count_in

  pub capacity-tier_append :
      (n : ℕ) (t : StoreTier F) (row : List Float) (time : ℤ)
      → (tier_append F n t row time).capacity ≡ t.capacity
  unfolding tier_append
  capacity-tier_append n t row time = refl

  pub append_keep :
      (n : ℕ) (t : StoreTier F) (row : List Float) (time : ℤ)
      → IsTier F t
      → tier_contents F n (tier_append F n t row time)
        ≡ keep t.capacity (tier_contents F n t ++ (entry_of n (row, time) ∷ []))
  append_keep n t row time v =
      contents-tier_append F n t row time v
      ∙ push_bounded-keep t.capacity (tier_contents F n t) (entry_of n (row, time)) v.some_room
          (contents_fit n v)

  -- After any run of pushes the fine tier holds the newest `capacity` of what it held before and of
  -- the samples pushed, oldest first, and its invariant.
  pub push_all-fine :
      (samples : List (List Float × ℤ)) (s : Store F)
      → IsStore s
      → (tier_contents F s.n_metrics (push_all s samples).fine
          ≡ keep s.fine.capacity
              (tier_contents F s.n_metrics s.fine ++ entries_of s.n_metrics samples))
        × IsStore (push_all s samples)
  unfolding push_all store_push
  push_all-fine [] s v = (
    sym (
        rw append-nil (
          keep_all s.fine.capacity (tier_contents F s.n_metrics s.fine)
            (contents_fit s.n_metrics v.fine_ok))),
    v,
  )
  push_all-fine ((row, time) ∷ samples) s v =
      let (ih, v') =
        push_all-fine samples (store_push F s row time).0 (store_push-IsStore s row time v) in
      (
        ih
            ∙ rw
                (
                  capacity-tier_append s.n_metrics s.fine row time,
                  append_keep s.n_metrics s.fine row time v.fine_ok,
                )
                (keep-keep s.fine.capacity
                    (tier_contents F s.n_metrics s.fine ++ (entry_of s.n_metrics (row, time) ∷ []))
                    (entries_of s.n_metrics samples)
                  ∙ ap (keep s.fine.capacity)
                      (append_assoc (tier_contents F s.n_metrics s.fine) _ _)),
        v',
      )

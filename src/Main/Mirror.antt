-- ===== src/Main/Mirror.antt =====
-- What it is for an open history file to mirror its tier, and what a push does to each tier.
use axis_cam_metrics.Base.{
  ℕ, ◌≡◌, refl, sym, ap, ◌∙◌, ◌⊎◌, inl, inr, List, [], ◌∷◌, ◌++◌, Option, none, some, true, length,
  tail, take, map, ltb, if◌then◌else◌, length-map, Bool-cases, if_ind,
}
use axis_cam_metrics.Base.Int.{ℤ}
use axis_cam_metrics.Floats.{Floats}
use axis_cam_metrics.Ring.{push_bounded}
use axis_cam_metrics.Metrics.{count as registry_count}
use axis_cam_metrics.Store.{
  StoreTier, Notice, notice, tier_append, bucket_add, bucket_due, bucket_close, coarse_push,
  mean_row,
}
use axis_cam_metrics.Store.Inv.{IsTier, tier_contents, tier_append-IsTier, contents-tier_append}
use axis_cam_metrics.Store.Push.{bucket_close-IsTier, bucket_add-IsTier}
use axis_cam_metrics.Persist.{Persist, persist_append}
use axis_cam_metrics.Persist.Slots.{IsFile, logged, logged-persist_append}
use axis_cam_metrics.Persist.Load.Reload.{record_of}
use axis_cam_metrics.Main.{App}

map-append {ℓ κ} :
    {A : Type ℓ} {B : Type κ} (f : A → B) (xs ys : List A) → map f (xs ++ ys) ≡ map f xs ++ map f ys
map-append f [] ys = refl
map-append f (x ∷ xs) ys = ap (λ l. f x ∷ l) (map-append f xs ys)

map-tail {ℓ κ} :
    {A : Type ℓ} {B : Type κ} (f : A → B) (xs : List A) → map f (tail xs) ≡ tail (map f xs)
map-tail f [] = refl
map-tail f (x ∷ xs) = refl

map-push_bounded {ℓ κ} :
    {A : Type ℓ} {B : Type κ} (f : A → B) (size : ℕ) (l : List A) (x : A)
    → map f (push_bounded size l x) ≡ push_bounded size (map f l) (f x)
map-push_bounded f size l x =
    map-append f (if ltb (length l) size then l else tail l) (x ∷ [])
    ∙ ap (λ k. k ++ (f x ∷ [])) shorter
  where
    shorter :
        map f (if ltb (length l) size then l else tail l)
        ≡ (if ltb (length (map f l)) size then map f l else tail (map f l))
    shorter = rw (length-map f l) (elim (Bool-cases (ltb (length l) size)) [
      | inl e ↦ rw e refl
      | inr e ↦ rw e (map-tail f l)
    ])

module _ (F : Floats) where
  open F use {Float}

  -- An open file holds what its tier holds, has its layout, and hears of its samples.
  pub record IsMirror (n i : ℕ) (t : StoreTier F) (p : Persist F) : Type 0 where
    pub tier_ok : IsTier F t
    pub file_ok : IsFile F p
    pub heard : t.callback ≡ some i
    pub same_room : p.capacity ≡ t.capacity
    pub same_width : p.n_metrics ≡ n
    pub same_entries : logged F p ≡ map (record_of F n) (tier_contents F n t)

  -- A tier with no file has no callback.
  pub record IsAlone (t : StoreTier F) : Type 0 where
    pub tier_ok : IsTier F t
    pub unheard : t.callback ≡ none

  abbrev pub Follows : ℕ → ℕ → StoreTier F → Option (Persist F) → Type 0
  Follows n i t none = IsAlone t
  Follows n i t (some p) = IsMirror n i t p

  pub Follows-IsTier :
      (n i : ℕ) (t : StoreTier F) (o : Option (Persist F)) → Follows n i t o → IsTier F t
  Follows-IsTier n i t none m = m.tier_ok
  Follows-IsTier n i t (some p) m = m.tier_ok

  pub record IsApp (a : App F) : Type 0 where
    pub width : a.store.n_metrics ≡ registry_count a.store.registry
    pub fine_ok : Follows a.store.n_metrics 0 a.store.fine a.fine
    pub medium_ok : Follows a.store.n_metrics 1 a.store.medium a.medium
    pub coarse_ok : Follows a.store.n_metrics 2 a.store.coarse a.coarse

  -- What a push does to a tier: nothing to its entries and no call, or one entry with its call.
  pub record Quiet (n : ℕ) (t t' : StoreTier F) (calls : List (Notice F)) : Type 0 where
    pub no_calls : calls ≡ []
    pub entries : tier_contents F n t' ≡ tier_contents F n t

  pub record Grown (n : ℕ) (t t' : StoreTier F) (calls : List (Notice F)) (row : List Float)
      (time : ℤ) : Type 0 where
    pub one_call : calls ≡ notice F t row time
    pub entries : tier_contents F n t' ≡ push_bounded t.capacity (tier_contents F n t) (row, time)

  pub record Step (n : ℕ) (t t' : StoreTier F) (calls : List (Notice F)) : Type 0 where
    pub tier_ok : IsTier F t'
    pub capacity : t'.capacity ≡ t.capacity
    pub callback : t'.callback ≡ t.callback
    pub change :
        Quiet n t t' calls ⊎ ((row : List Float) × ((time : ℤ) × Grown n t t' calls row time))

  pub fine-Step :
      (n : ℕ) (t : StoreTier F) (row : List Float) (time : ℤ)
      → IsTier F t
      → Step n t (tier_append F n t row time) (notice F t (take n row) time)
  unfolding tier_append
  fine-Step n t row time v = record {
    tier_ok = tier_append-IsTier F n t row time v;
    capacity = refl;
    callback = refl;
    change = inr (
      take n row,
      (time, record { one_call = refl; entries = contents-tier_append F n t row time v }),
    );
  }

  bucket_close-Step :
      (n : ℕ) (t : StoreTier F) (row : List Float) (time : ℤ)
      → IsTier F t
      → let t' = bucket_add F t row time in
        Step n t (bucket_close F n t' time) (notice F t' (take n (mean_row F t'.acc t'.acc_n)) time)
  unfolding bucket_close bucket_add tier_append
  bucket_close-Step n t row time v = record {
    tier_ok = bucket_close-IsTier F n _ time (bucket_add-IsTier F t row time v);
    capacity = refl;
    callback = refl;
    change = inr (
      take n (mean_row F (bucket_add F t row time).acc (bucket_add F t row time).acc_n),
      (
        time,
        record {
          one_call = refl;
          entries =
              contents-tier_append F n (bucket_add F t row time) _ time
                (bucket_add-IsTier F t row time v);
        },
      ),
    );
  }

  bucket_add-Step :
      (n : ℕ) (t : StoreTier F) (row : List Float) (time : ℤ)
      → IsTier F t
      → Step n t (bucket_add F t row time) []
  unfolding bucket_add
  bucket_add-Step n t row time v = record {
    tier_ok = bucket_add-IsTier F t row time v;
    capacity = refl;
    callback = refl;
    change = inl (record { no_calls = refl; entries = refl });
  }

  pub coarse-Step :
      (n : ℕ) (t : StoreTier F) (row : List Float) (time : ℤ)
      → IsTier F t
      → Step n t (coarse_push F n t row time).0 (coarse_push F n t row time).1
  unfolding coarse_push
  coarse-Step n t row time v =
      if_ind (λ (r : StoreTier F × List (Notice F)). Step n t r.0 r.1)
        (bucket_due F (bucket_add F t row time) time) (λ e. bucket_close-Step n t row time v)
        (λ e. bucket_add-Step n t row time v)

  pub append_mirrors :
      (n i : ℕ) (t t' : StoreTier F) (p : Persist F) (row : List Float) (time : ℤ)
      → IsMirror n i t p
      → IsTier F t'
      → t'.capacity ≡ t.capacity
      → t'.callback ≡ t.callback
      → tier_contents F n t' ≡ push_bounded t.capacity (tier_contents F n t) (row, time)
      → IsMirror n i t' (persist_append F p true row time)
  append_mirrors n i t t' p row time m v c b e =
      let (file, grown, room, width, header) = logged-persist_append F p row time m.file_ok in
      record {
        tier_ok = v;
        file_ok = file;
        heard = b ∙ m.heard;
        same_room = room ∙ m.same_room ∙ sym c;
        same_width = width ∙ m.same_width;
        same_entries =
            grown
            ∙ ap (λ (k : ℕ). push_bounded p.capacity (logged F p) (time, take k row)) m.same_width
            ∙ ap (λ (k : ℕ). push_bounded k (logged F p) (time, take n row)) m.same_room
            ∙ ap (λ l. push_bounded t.capacity l (time, take n row)) m.same_entries
            ∙ sym (map-push_bounded (record_of F n) t.capacity (tier_contents F n t) (row, time))
            ∙ ap (map (record_of F n)) (sym e);
      }

  pub quiet_mirrors :
      (n i : ℕ) (t t' : StoreTier F) (p : Persist F)
      → IsMirror n i t p
      → IsTier F t'
      → t'.capacity ≡ t.capacity
      → t'.callback ≡ t.callback
      → tier_contents F n t' ≡ tier_contents F n t
      → IsMirror n i t' p
  quiet_mirrors n i t t' p m v c b e = record {
    tier_ok = v;
    file_ok = m.file_ok;
    heard = b ∙ m.heard;
    same_room = m.same_room ∙ sym c;
    same_width = m.same_width;
    same_entries = m.same_entries ∙ ap (map (record_of F n)) (sym e);
  }

-- ===== src/Store/Bucket.antt =====
-- The coarse tiers hold the means of the buckets: an account of a bucket by the samples in it, which
-- the sums and counts of a tier are shown to keep.
use axis_cam_metrics.Base.{
  ℕ, zero, suc, ◌+◌, ◌≤◌, ◌≡◌, refl, ap, inl, inr, List, [], ◌∷◌, ◌++◌, arith, length, get_or,
  tabulate, filter, filter-append, if◌then◌else◌, not, Bool, Bool-cases, ◌==◌, map, append-nil,
}
use axis_cam_metrics.Base.Int.{ℤ, pos, ◌-ℤ◌, leb_ℤ, is_zero_ℤ}
use axis_cam_metrics.Base.Words.{u32}
use axis_cam_metrics.Floats.{Floats}
use axis_cam_metrics.Store.{StoreTier, acc_add, acc_n_add, mean_row, coarse_push}
use axis_cam_metrics.Store.Inv.{Entry}

module _ (F : Floats) where
  open F use {Float, Double, nan, is_nan, widen, of_nat, narrow, add, div}

  abbrev pub Row : Type 0
  Row = List Float

  -- The readings of one metric in a bucket, without the absent ones.
  abbrev pub readings : ℕ → List Row → List Float
  readings m rows = filter (λ (v : Float). not (is_nan v)) (map (λ (r : Row). get_or r m nan) rows)

  abbrev pub sum_onto : Double → List Float → Double
  sum_onto a [] = a
  sum_onto a (v ∷ vs) = sum_onto (add a (widen v)) vs

  -- The mean of some readings, absent if there are none.
  abbrev pub mean : List Float → Float
  mean [] = nan
  mean (v ∷ vs) = narrow (div (sum_onto (of_nat 0) (v ∷ vs)) (of_nat (length (v ∷ vs))))

  -- The row of a bucket: each metric's mean over the samples that have it.
  abbrev pub means : ℕ → List Row → Row
  means n rows = tabulate n (λ m. mean (readings m rows))

  -- The rows that a tier of this interval should append: `bucket` has the samples since `start`, and
  -- is closed by the first sample that is `interval` seconds later.
  unfoldable pub bucket_rows : ℕ → ℕ → ℤ → List Row → List (Row × ℤ) → List (Entry F)
  bucket_rows n interval start bucket [] = []
  bucket_rows n interval start bucket ((row, time) ∷ samples) =
      let start' = if is_zero_ℤ start then time else start in
      let bucket' = bucket ++ (row ∷ []) in
      let closed = (means n bucket', time) ∷ bucket_rows n interval time [] samples in
      let open' = bucket_rows n interval start' bucket' samples in
      if leb_ℤ (pos interval) (time -ℤ start') then closed else open'

  unfoldable pub coarse_push_all : ℕ → StoreTier F → List (Row × ℤ) → StoreTier F
  coarse_push_all n t [] = t
  coarse_push_all n t ((row, time) ∷ samples) =
      coarse_push_all n (coarse_push F n t row time).0 samples

  -- The sums and counts of a tier are those of the bucket's samples.
  pub record Holds (n : ℕ) (t : StoreTier F) (bucket : List Row) : Type 0 where
    pub sums : t.acc ≡ tabulate n (λ m. sum_onto (of_nat 0) (readings m bucket))
    pub counts : t.acc_n ≡ tabulate n (λ m. length (readings m bucket))

  pub acc_add-tabulate :
      (n : ℕ) (f : ℕ → Double) (row : Row)
      → length row ≡ n
      → acc_add F (tabulate n f) row
        ≡ tabulate n
            (λ m. let v = get_or row m nan in if is_nan v then f m else add (f m) (widen v))
  unfolding acc_add
  acc_add-tabulate zero f row h = refl
  acc_add-tabulate (suc n) f [] h = absurd (omega arith)
  acc_add-tabulate (suc n) f (v ∷ row) h =
      ap (λ l. (if is_nan v then f 0 else add (f 0) (widen v)) ∷ l)
        (acc_add-tabulate n (λ m. f (suc m)) row (omega arith))

  pub acc_n_add-tabulate :
      (n : ℕ) (f : ℕ → ℕ) (row : Row)
      → length row ≡ n
      → acc_n_add F (tabulate n f) row
        ≡ tabulate n (λ m. if is_nan (get_or row m nan) then f m else u32 (f m + 1))
  unfolding acc_n_add
  acc_n_add-tabulate zero f row h = refl
  acc_n_add-tabulate (suc n) f [] h = absurd (omega arith)
  acc_n_add-tabulate (suc n) f (v ∷ row) h =
      ap (λ l. (if is_nan v then f 0 else u32 (f 0 + 1)) ∷ l)
        (acc_n_add-tabulate n (λ m. f (suc m)) row (omega arith))

  pub mean_row-tabulate :
      (n : ℕ) (f : ℕ → Double) (g : ℕ → ℕ)
      → mean_row F (tabulate n f) (tabulate n g)
        ≡ tabulate n (λ m. if g m == 0 then nan else narrow (div (f m) (of_nat (g m))))
  unfolding mean_row
  mean_row-tabulate zero f g = refl
  mean_row-tabulate (suc n) f g =
      ap (λ l. (if g 0 == 0 then nan else narrow (div (f 0) (of_nat (g 0)))) ∷ l)
        (mean_row-tabulate n (λ m. f (suc m)) (λ m. g (suc m)))

  pub sum_onto-append :
      (a : Double) (vs : List Float) (v : Float)
      → sum_onto a (vs ++ (v ∷ [])) ≡ add (sum_onto a vs) (widen v)
  sum_onto-append a [] v = refl
  sum_onto-append a (x ∷ vs) v = sum_onto-append (add a (widen x)) vs v

  map-append_one :
      (f : Row → Float) (rows : List Row) (row : Row)
      → map f (rows ++ (row ∷ [])) ≡ map f rows ++ (f row ∷ [])
  map-append_one f [] row = refl
  map-append_one f (r ∷ rows) row = ap (λ l. f r ∷ l) (map-append_one f rows row)

  pub readings-append :
      (m : ℕ) (rows : List Row) (row : Row)
      → readings m (rows ++ (row ∷ [])) ≡ (
          if is_nan (get_or row m nan)
          then readings m rows
          else readings m rows ++ (get_or row m nan ∷ []))
  readings-append m rows row =
      rw
        (
          map-append_one (λ (r : Row). get_or r m nan) rows row,
          filter-append (λ (v : Float). not (is_nan v)) (map (λ (r : Row). get_or r m nan) rows)
              (get_or row m nan ∷ []),
        )
        (elim (Bool-cases (is_nan (get_or row m nan))) [
          | inl e ↦ rw e (append-nil _)
          | inr e ↦ rw e refl
        ])

  pub length-filter-le : (p : Float → Bool) (vs : List Float) → length (filter p vs) ≤ length vs
  length-filter-le p [] = omega arith
  length-filter-le p (v ∷ vs) = ground (arith, length-filter-le p vs)

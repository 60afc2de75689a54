-- ===== src/Tests/Stores.antt =====
-- The history store at a small store.
use axis_cam_metrics.Base.{
  ℕ, leb, zero, suc, ◌<◌, ◌≤◌, ◌*◌, ◌/◌, ◌^◌, Option, none, true, leb→le, ◌+◌, ◌≡◌, refl, [], ◌++◌,
  some, false, arith,
}
use axis_cam_metrics.Base.Int.{pos}
use native.Mathlib.Nat.{div-le_of_le-mul}
use axis_cam_metrics.Ring.{keep}
use axis_cam_metrics.Store.{store_series, store_new}
use axis_cam_metrics.Store.Inv.{IsTier, tier_contents}
use axis_cam_metrics.Store.Push.{IsStore, push_all, push_all-fine, entries_of}
use axis_cam_metrics.Store.Series.{points_since, store_series-points}
use axis_cam_metrics.Store.Bucket.{coarse_push_all, bucket_rows}
use axis_cam_metrics.Store.Means.{coarse_push_all-contents}
use axis_cam_metrics.Store.New.{Rounds, Sized, store_new-IsStore}
use axis_cam_metrics.Tests.Samples.{
  whole, both, at_most, or_zero, registry, full_tier, empty_tier, store, samples,
}

full_tier-IsTier : IsTier whole full_tier
full_tier-IsTier = record {
  some_room = omega arith;
  small = omega arith;
  head_in = omega arith;
  count_in = omega arith;
  times = refl;
  all_rows = refl;
}

empty_tier-IsTier : IsTier whole empty_tier
empty_tier-IsTier = record {
  some_room = omega arith;
  small = omega arith;
  head_in = omega arith;
  count_in = omega arith;
  times = refl;
  all_rows = refl;
}

store-IsStore : IsStore whole store
store-IsStore = record {
  fine_ok = full_tier-IsTier;
  medium_ok = empty_tier-IsTier;
  coarse_ok = empty_tier-IsTier;
}

coarse_push_all_example :
    tier_contents whole 1 (coarse_push_all whole 1 empty_tier samples)
    ≡ keep 2 ([] ++ bucket_rows whole 1 15 (pos 0) [] samples)
coarse_push_all_example =
    coarse_push_all-contents whole 1 samples empty_tier [] empty_tier-IsTier
      (record { sums = refl; counts = refl }) (refl, (refl, tt)) (omega arith)

push_all_example :
    (tier_contents whole 1 (push_all whole store samples).fine
      ≡ keep 2 (tier_contents whole 1 full_tier ++ entries_of whole 1 samples))
    × IsStore whole (push_all whole store samples)
push_all_example = push_all-fine whole samples store store-IsStore

store_series_example :
    store_series whole store 0 0 (pos 8) 10
    ≡ points_since whole 0 (pos 8) 10 (tier_contents whole 1 full_tier)
store_series_example =
    store_series-points whole store 0 full_tier 0 (pos 8) 10 refl full_tier-IsTier (omega arith)

le_leb : (a b : ℕ) → a ≤ b → leb a b ≡ true
le_leb a b h = ground arith

div_unit :
    (x : Option ℕ) (n : ℕ)
    → 0 < n
    → n < 2 ^ 64
    → at_most (some 0) x ≡ true
    → at_most x (some n) ≡ true
    → (at_most (some 0) (both (λ a b. a / b) x (some n)) ≡ true)
      × (at_most (both (λ a b. a / b) x (some n)) (some 1) ≡ true)
div_unit none n some_n fits low high = absurd cc
div_unit (some a) n some_n fits low high =
    (ground arith, le_leb (a / n) 1 (div-le_of_le-mul n (omega (arith, leb→le a n high))))

mul_unit :
    (n : ℕ) (q : Option ℕ)
    → n < 2 ^ 32
    → at_most (some 0) q ≡ true
    → at_most q (some 1) ≡ true
    → (at_most (some 0) (both (λ a b. a * b) (some n) q) ≡ true)
      × (at_most (both (λ a b. a * b) (some n) q) (some n) ≡ true)
mul_unit n none small low high = absurd cc
mul_unit n (some zero) small low high = (ground arith, ground arith)
mul_unit n (some (suc zero)) small low high = (ground arith, ground arith)
mul_unit n (some (suc (suc a))) small low high = absurd (omega (arith, leb→le (suc (suc a)) 1 high))

truncate_le :
    (x : Option ℕ) (n : ℕ)
    → n < 2 ^ 32
    → at_most (some 0) x ≡ true
    → at_most x (some n) ≡ true
    → or_zero x ≤ n
truncate_le none n small low high = omega arith
truncate_le (some a) n small low high = leb→le a n high

pub whole-Rounds : Rounds whole
whole-Rounds = record {
  of_nat_le = λ a b h fits. ground arith;
  div_unit = div_unit;
  mul_unit = mul_unit;
  truncate_le = truncate_le;
}

store_new_example :
    let s = store_new whole (some 1) 4000 registry 2 in
    Sized whole s
    × IsStore whole s
    × (s.fine.count + s.medium.count + s.coarse.count ≡ 0)
    × (s.has_latest ≡ false)
store_new_example = store_new-IsStore whole (some 1) 4000 registry 2 whole-Rounds

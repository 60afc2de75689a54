-- ===== src/Tests/Samples.antt =====
-- The data of the tests: whole numbers with a NaN for `float` and `double`, a registry, tiers and a store.
use axis_cam_metrics.Base.{
  ℕ, ◌+◌, ◌-◌, ◌*◌, ◌/◌, refl, List, [], ◌∷◌, Option, none, some, Bool, false, ltb, leb, is_some,
  not,
}
use axis_cam_metrics.Base.Int.{ℤ, pos, negsuc}
use axis_cam_metrics.Base.Text.{codes}
use axis_cam_metrics.Floats.{Floats}
use axis_cam_metrics.Metrics.{MetricDef, MetricRegistry}
use axis_cam_metrics.Store.{StoreTier, Store}

abbrev pub both : (ℕ → ℕ → ℕ) → Option ℕ → Option ℕ → Option ℕ
both f none b = none
both f (some a) none = none
both f (some a) (some b) = some (f a b)

abbrev pub below : Option ℕ → Option ℕ → Bool
below none b = false
below (some a) none = false
below (some a) (some b) = ltb a b

abbrev pub or_zero : Option ℕ → ℕ
or_zero none = 0
or_zero (some a) = a

abbrev pub at_most : Option ℕ → Option ℕ → Bool
at_most none b = false
at_most (some a) none = false
at_most (some a) (some b) = leb a b

-- Whole numbers have no sign here: what is negative is no number.
abbrev pub from_int : ℤ → Option ℕ
from_int (pos n) = some n
from_int (negsuc n) = none

abbrev pub whole : Floats
whole = record {
  Float = Option ℕ;
  Double = Option ℕ;
  nan = none;
  is_nan = λ v. not (is_some v);
  is_inf = λ v. false;
  nan_double = none;
  is_nan_double = λ v. not (is_some v);
  widen = λ v. v;
  of_nat = λ n. some n;
  of_int = from_int;
  narrow = λ v. v;
  add = both (λ a b. a + b);
  mul = both (λ a b. a * b);
  div = both (λ a b. a / b);
  sub = both (λ a b. a - b);
  lt = below;
  le = at_most;
  truncate = or_zero;
  nan_is_nan = refl;
  nan_double_is_nan = refl;
  narrow_nan = refl;
}

abbrev pub cpu : MetricDef
cpu = record { id = codes "cpu"; label = codes "CPU"; unit = codes "%"; group = codes "cpu" }

abbrev pub registry : MetricRegistry
registry = record { defs = cpu ∷ []; capacity = 64 }

-- A full tier of two entries.
abbrev pub full_tier : StoreTier whole
full_tier = record {
  interval_s = 1;
  capacity = 2;
  count = 2;
  head = 1;
  timestamps = pos 8 ∷ pos 7 ∷ [];
  rows = (some 80 ∷ []) ∷ (some 70 ∷ []) ∷ [];
  acc = [];
  acc_n = [];
  acc_start = pos 0;
  callback = none;
}

-- An empty tier that takes means.
abbrev pub empty_tier : StoreTier whole
empty_tier = record {
  interval_s = 15;
  capacity = 2;
  count = 0;
  head = 0;
  timestamps = pos 0 ∷ pos 0 ∷ [];
  rows = [] ∷ [] ∷ [];
  acc = some 0 ∷ [];
  acc_n = 0 ∷ [];
  acc_start = pos 0;
  callback = none;
}

abbrev pub store : Store whole
store = record {
  registry = registry;
  n_metrics = 1;
  fine = full_tier;
  medium = empty_tier;
  coarse = empty_tier;
  latest = none ∷ [];
  latest_ts = pos 0;
  has_latest = false;
}

abbrev pub samples : List (List (Option ℕ) × ℤ)
samples = ((some 4 ∷ []), pos 100) ∷ ((some 6 ∷ []), pos 115) ∷ []

-- ===== src/Store/Inv.antt =====
-- The representation invariant of a tier, what a tier holds, and what an append does to it.
use axis_cam_metrics.Base.{
  ℕ, zero, suc, ◌+◌, ◌-◌, ◌%◌, ◌^◌, ◌≤◌, ◌<◌, ◌≡◌, refl, sym, ap, ap₂, ◌∙◌, List, [], ◌∷◌, some,
  arith, length, take, get_elem?, length-set, get_or-set_self, get_or-set_ne, get_elem?-tabulate,
  get_elem?-length, length-tabulate, lt→ltb, le→ltb,
}
use axis_cam_metrics.Base.Int.{ℤ, pos}
use axis_cam_metrics.Base.Words.{u32, sub32}
use axis_cam_metrics.Floats.{Floats}
use axis_cam_metrics.Ring.{oldest, contents, push_bounded, contents-append, oldest-lt}
use axis_cam_metrics.Store.{
  StoreTier, Store, tier_at, tier_append, slot_of, row_at, timestamp_at, store_tier_sample,
}
use native.Mathlib.Nat.{mod-lt}
use native.Mathlib.Decide.{dec_lt}

pub take-take {ℓ} : {A : Type ℓ} (n : ℕ) (xs : List A) → take n (take n xs) ≡ take n xs
take-take zero xs = refl
take-take (suc n) [] = refl
take-take (suc n) (x ∷ xs) = ap (λ l. x ∷ l) (take-take n xs)

pub u32_slot :
    (c h n i : ℕ)
    → c ≤ 2 ^ 31
    → h < c
    → n ≤ c
    → i < n
    → u32 (sub32 (u32 (h + c)) n % c + i) % c ≡ (oldest c h n + i) % c
u32_slot c h n i small hh nc l =
    let e : sub32 (u32 (h + c)) n ≡ h + c - n = omega arith in
    rw e (ap (λ (k : ℕ). k % c) (omega (arith, oldest-lt hh nc)))

pub u32_succ : (a c : ℕ) → c ≤ 2 ^ 31 → a ≤ c → u32 (a + 1) ≡ a + 1
u32_succ a c small h = omega arith

module _ (F : Floats) where
  open F use {Float}

  -- One entry of a tier: the row and its time.
  abbrev pub Entry : Type 0
  Entry = List Float × ℤ

  pub record IsTier (t : StoreTier F) : Type 0 where
    pub some_room : 0 < t.capacity
    pub small : t.capacity ≤ 2 ^ 31
    pub head_in : t.head < t.capacity
    pub count_in : t.count ≤ t.capacity
    pub times : length t.timestamps ≡ t.capacity
    pub all_rows : length t.rows ≡ t.capacity

  abbrev pub entry_at : ℕ → StoreTier F → ℕ → Entry
  entry_at n t slot = (take n (row_at F t slot), timestamp_at F t slot)

  -- What a tier holds, oldest first.
  abbrev pub tier_contents : ℕ → StoreTier F → List Entry
  tier_contents n t = contents (entry_at n t) t.capacity t.head t.count

  -- The slots that `store_tier_sample` and `store_series` compute do not wrap.
  pub slot_of_lem :
      (t : StoreTier F) (i : ℕ)
      → IsTier t
      → i < t.count
      → slot_of F t i ≡ (oldest t.capacity t.head t.count + i) % t.capacity
  slot_of_lem t i v l = u32_slot t.capacity t.head t.count i v.small v.head_in v.count_in l

  pub tier_append-IsTier :
      (n : ℕ) (t : StoreTier F) (row : List Float) (time : ℤ)
      → IsTier t
      → IsTier (tier_append F n t row time)
  unfolding tier_append
  tier_append-IsTier n t row time v = ground (
    arith,
    length-set t.timestamps t.head time,
    length-set t.rows t.head (take n row),
    mod-lt (u32 (t.head + 1)) v.some_room,
  )

  -- An append adds the entry at the end, and drops the oldest one of a full tier.
  pub contents-tier_append :
      (n : ℕ) (t : StoreTier F) (row : List Float) (time : ℤ)
      → IsTier t
      → tier_contents n (tier_append F n t row time)
        ≡ push_bounded t.capacity (tier_contents n t) (take n row, time)
  unfolding tier_append
  contents-tier_append n t row time v =
      rw
        (
          u32_succ t.head t.capacity v.small (omega arith),
          u32_succ t.count t.capacity v.small v.count_in,
        )
        (contents-append (entry_at n t) (entry_at n t') (take n row, time) v.head_in
          (ap₂ (λ r k. (r, k))
            (ap (take n) (get_or-set_self t.rows t.head (take n row) [] (omega arith))
              ∙ take-take n row)
            (get_or-set_self t.timestamps t.head time (pos 0) (omega arith)))
          (λ j ne.
            ap₂ (λ r k. (r, k)) (ap (take n) (get_or-set_ne t.rows t.head j (take n row) [] ne))
              (get_or-set_ne t.timestamps t.head j time (pos 0) ne))
          t.count v.count_in)
    where
      t' : StoreTier F
      t' = tier_append F n t row time

  -- `store_tier_sample` reads the entry of that number, counted from the oldest, and refuses a number
  -- past the end.
  pub sample-get_elem? :
      (s : Store F) (i : ℕ) (t : StoreTier F) (index : ℕ)
      → tier_at F s i ≡ some t
      → IsTier t
      → store_tier_sample F s i index ≡ get_elem? (tier_contents s.n_metrics t) index
  unfolding store_tier_sample
  sample-get_elem? s i t index e v =
      rw (e, store_tier_sample)
        (elim (dec_lt index t.count) [
          | yes p ↦ rw (lt→ltb index t.count p) (
              ap (λ k. some (entry_at s.n_metrics t k)) (slot_of_lem t index v p)
              ∙ sym (get_elem?-tabulate t.count _ index p))
          | no p ↦ rw (le→ltb index t.count (omega arith)) (
              sym (
                get_elem?-length (tier_contents s.n_metrics t) index (
                  rw
                    (length-tabulate t.count (λ k.
                      entry_at s.n_metrics t ((oldest t.capacity t.head t.count + k) % t.capacity)))
                    (omega arith))))
        ])

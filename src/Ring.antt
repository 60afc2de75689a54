-- ===== src/Ring.antt =====
-- What a circular buffer holds, and what writing at its head does to that: shared by the history
-- tiers in memory and by their files. A buffer is given by how a slot is read.
use axis_cam_metrics.Base.{
  ℕ, zero, suc, ◌+◌, ◌-◌, ◌%◌, ◌≤◌, ◌<◌, ◌≡◌, ◌≢◌, refl, ap, ap₂, ◌∙◌, ◌⊎◌, inl, inr, List, [], ◌∷◌,
  ◌++◌, arith, drop, length-append, tabulate, tail, length, length-tabulate, tabulate-eq,
  tabulate-suc, ltb, if◌then◌else◌, lt→ltb, le→ltb,
}
use native.Mathlib.Nat.{suc-add, mod-eq_of_lt, mod-eq-sub-mod}
use native.Mathlib.Decide.{dec_lt}
use native.Mathlib.Numerals.{add-one}

-- A sum of two slots needs one subtraction at most.
pub wrap_once :
    (a size : ℕ)
    → a < size + size
    → ((a < size) × (a % size ≡ a)) ⊎ ((size ≤ a) × (a % size ≡ a - size))
wrap_once a size h = elim (dec_lt a size) [
  | yes p ↦ inl (p, mod-eq_of_lt p)
  | no p ↦ inr (
    omega arith,
    mod-eq-sub-mod {n = a} {m = size} (omega arith)
        ∙ mod-eq_of_lt {n = a - size} {m = size} (omega arith),
  )
]

-- The slot of the oldest entry.
abbrev pub oldest : ℕ → ℕ → ℕ → ℕ
oldest size head count = (head + size - count) % size

-- The entries of a ring, oldest first.
abbrev pub contents {ℓ} : {A : Type ℓ} → (ℕ → A) → ℕ → ℕ → ℕ → List A
contents read size head count = tabulate count (λ i. read ((oldest size head count + i) % size))

-- A list that keeps its newest `size` entries.
abbrev pub push_bounded {ℓ} : {A : Type ℓ} → ℕ → List A → A → List A
push_bounded size l x = (if ltb (length l) size then l else tail l) ++ (x ∷ [])

module _ {size head count : ℕ} (h : head < size) where
  oldest_cases :
      count ≤ size
      → ((head + size - count < size) × (oldest size head count ≡ head + size - count))
        ⊎ ((size ≤ head + size - count) × (oldest size head count ≡ head + size - count - size))
  oldest_cases c = elim (dec_lt 0 count) [
    | yes p ↦ wrap_once (head + size - count) size (omega arith)
    | no p ↦ inr (
      omega arith,
      mod-eq-sub-mod {n = head + size - count} {m = size} (omega arith)
          ∙ mod-eq_of_lt {n = head + size - count - size} {m = size} (omega arith),
    )
  ]

  pub oldest-lt : count ≤ size → oldest size head count < size
  oldest-lt c = omega (arith, oldest_cases c)

  -- The slot after the newest entry is the head, where there is room.
  newest_slot : count < size → (oldest size head count + count) % size ≡ head
  newest_slot c = omega (
    arith,
    oldest_cases (omega arith),
    wrap_once (oldest size head count + count) size (omega (arith, oldest-lt (omega arith))),
  )

  -- No entry stands in the head's slot, where there is room.
  entry_slot_ne : (i : ℕ) → count < size → i < count → head ≢ (oldest size head count + i) % size
  entry_slot_ne i c l = omega (
    arith,
    oldest_cases (omega arith),
    wrap_once (oldest size head count + i) size (omega (arith, oldest-lt (omega arith))),
  )

  -- Advancing head and count together leaves the oldest slot where it is.
  oldest_stays : count < size → oldest size ((head + 1) % size) (count + 1) ≡ oldest size head count
  oldest_stays c = omega (
    arith,
    oldest_cases (omega arith),
    wrap_once (head + 1) size (omega arith),
    wrap_once ((head + 1) % size + size - (count + 1)) size
        (omega (arith, wrap_once (head + 1) size (omega arith))),
  )

  -- In a full ring the oldest slot is the head's.
  oldest_full : count ≡ size → oldest size head count ≡ head
  oldest_full e = omega (arith, oldest_cases (omega arith))

module _ {size head : ℕ} (h : head < size) where
  -- In a full ring, the entries after the oldest are those from the next slot on.
  next_slot : (i : ℕ) → suc i < size → ((head + 1) % size + i) % size ≡ (head + suc i) % size
  next_slot i l = omega (
    arith,
    wrap_once (head + 1) size (omega arith),
    wrap_once (head + suc i) size (omega arith),
    wrap_once ((head + 1) % size + i) size (omega (arith, wrap_once (head + 1) size (omega arith))),
  )

  next_slot_ne : (i : ℕ) → suc i < size → head ≢ (head + suc i) % size
  next_slot_ne i l = omega (arith, wrap_once (head + suc i) size (omega arith))

  last_slot : (n : ℕ) → suc n ≡ size → ((head + 1) % size + n) % size ≡ head
  last_slot n e = omega (
    arith,
    wrap_once (head + 1) size (omega arith),
    wrap_once ((head + 1) % size + n) size (omega (arith, wrap_once (head + 1) size (omega arith))),
  )

-- `read'` is `read` with `x` written at the head.
module _ {ℓ} {A : Type ℓ} (read read' : ℕ → A) (x : A) {size head : ℕ} (h : head < size)
    (here : read' head ≡ x) (elsewhere : (j : ℕ) → head ≢ j → read' j ≡ read j) where
  append_room :
      (count : ℕ)
      → count < size
      → contents read' size ((head + 1) % size) (count + 1)
        ≡ contents read size head count ++ (x ∷ [])
  append_room count c =
      rw (oldest_stays h c, add-one count)
        (tabulate-suc count (λ i. read' ((oldest size head count + i) % size))
          ∙ ap₂ (λ l y. l ++ (y ∷ []))
              (tabulate-eq count _ _ (λ i l. elsewhere _ (entry_slot_ne h i c l)))
              (ap read' (newest_slot h c) ∙ here))

  append_full :
      (count : ℕ)
      → count ≡ size
      → contents read' size ((head + 1) % size) count
        ≡ tail (contents read size head count) ++ (x ∷ [])
  append_full zero e = absurd (omega arith)
  append_full (suc n) e =
      rw
        (
          oldest_full {head = (head + 1) % size}
              (omega (arith, wrap_once (head + 1) size (omega arith))) e,
          oldest_full h e,
        )
        (tabulate-suc n (λ i. read' (((head + 1) % size + i) % size))
          ∙ ap₂ (λ l y. l ++ (y ∷ []))
              (tabulate-eq n _ _ (λ i l.
                ap read' (next_slot h i (omega arith))
                ∙ elsewhere _ (next_slot_ne h i (omega arith))))
              (ap read' (last_slot h n e) ∙ here))

  -- Writing at the head and advancing keeps the newest `size` entries, in their order.
  pub contents-append :
      (count : ℕ)
      → count ≤ size
      → contents read' size ((head + 1) % size) (if ltb count size then count + 1 else count)
        ≡ push_bounded size (contents read size head count) x
  contents-append count c =
      rw (length-tabulate count (λ i. read ((oldest size head count + i) % size)))
        (elim (dec_lt count size) [
          | yes p ↦ rw (lt→ltb count size p) (append_room count p)
          | no p ↦ rw (le→ltb count size (omega arith)) (append_full count (omega arith))
        ])

pub length-contents {ℓ} :
    {A : Type ℓ} (read : ℕ → A) (size head count : ℕ)
    → length (contents read size head count) ≡ count
length-contents read size head count = length-tabulate count _

-- The newest `size` entries of a history.
abbrev pub keep {ℓ} : {A : Type ℓ} → ℕ → List A → List A
keep size l = drop (length l - size) l

module _ {ℓ} {A : Type ℓ} where
  drop-drop : (a b : ℕ) (l : List A) → drop b (drop a l) ≡ drop (a + b) l
  drop-drop zero b l = ap (λ (k : ℕ). drop k l) (omega arith)
  drop-drop (suc a) zero [] = rw suc-add
  drop-drop (suc a) (suc b) [] = rw suc-add
  drop-drop (suc a) b (x ∷ l) = rw suc-add (drop-drop a b l)

  drop-append : (a : ℕ) (l m : List A) → a ≤ length l → drop a (l ++ m) ≡ drop a l ++ m
  drop-append zero l m h = refl
  drop-append (suc a) [] m h = absurd (omega arith)
  drop-append (suc a) (x ∷ l) m h = drop-append a l m (omega arith)

  tail-drop : (l : List A) → tail l ≡ drop 1 l
  tail-drop [] = refl
  tail-drop (x ∷ l) = refl

  length-drop : (a : ℕ) (l : List A) → length (drop a l) ≡ length l - a
  length-drop zero l = omega arith
  length-drop (suc a) [] = omega arith
  length-drop (suc a) (x ∷ l) = omega (arith, length-drop a l)

  -- What was dropped before is dropped later too.
  pub keep-keep : (size : ℕ) (l m : List A) → keep size (keep size l ++ m) ≡ keep size (l ++ m)
  keep-keep size l m = rw (← drop-append (length l - size) l m (omega arith)) (
      drop-drop (length l - size) _ (l ++ m)
      ∙ ap (λ (k : ℕ). drop k (l ++ m))
          (omega (arith, length-append l m, length-drop (length l - size) (l ++ m))))

  pub push_bounded-keep :
      (size : ℕ) (l : List A) (x : A)
      → 0 < size
      → length l ≤ size
      → push_bounded size l x ≡ keep size (l ++ (x ∷ []))
  push_bounded-keep size l x s h = elim (dec_lt (length l) size) [
    | yes p ↦
        let e : ◌≡◌ {A = ℕ} 0 (length (l ++ (x ∷ [])) - size) =
          omega (arith, length-append l (x ∷ [])) in
        rw (lt→ltb (length l) size p) (ap (λ (k : ℕ). drop k (l ++ (x ∷ []))) e)
    | no p ↦
        let e : ◌≡◌ {A = ℕ} 1 (length (l ++ (x ∷ [])) - size) =
          omega (arith, length-append l (x ∷ [])) in
        rw
          (
            le→ltb (length l) size (omega arith),
            tail-drop l,
            ← drop-append 1 l (x ∷ []) (omega arith),
          )
          (ap (λ (k : ℕ). drop k (l ++ (x ∷ []))) e)
  ]

  pub keep_all : (size : ℕ) (l : List A) → length l ≤ size → keep size l ≡ l
  keep_all size l h =
      let e : ◌≡◌ {A = ℕ} (length l - size) 0 = omega arith in ap (λ (k : ℕ). drop k l) e

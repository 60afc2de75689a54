-- ===== src/Http/Request/Find.antt =====
-- What `strstr` finds in a text, and in one that goes on.
use axis_cam_metrics.Base.{
  ℕ, ◌+◌, ◌≤◌, ◌<◌, ◌≡◌, ◌≢◌, ◌⊎◌, refl, sym, ap, ◌∙◌, [], ◌∷◌, ◌++◌, none, some, true, false,
  arith, length, All, Bool-cases, Option-cases, inl, inr, ne→==,
}
use axis_cam_metrics.Base.Text.{Text, has_prefix, c_str}
use axis_cam_metrics.Http.Request.{find_text}

has_prefix-append :
    (s x name : Text) → length name ≤ length s → has_prefix (s ++ x) name ≡ has_prefix s name
unfolding has_prefix
has_prefix-append s x [] h = refl
has_prefix-append [] x (n ∷ ns) h = absurd (omega arith)
has_prefix-append (c ∷ cs) x (n ∷ ns) h = ground (arith, has_prefix-append cs x ns)

has_prefix-length : (s name : Text) → has_prefix s name ≡ true → length name ≤ length s
unfolding has_prefix
has_prefix-length s [] h = omega arith
has_prefix-length [] (n ∷ ns) h = cc
has_prefix-length (c ∷ cs) (n ∷ ns) h = ground (arith, has_prefix-length cs ns)

-- Where a find in a text that goes on was made.
abbrev Found : Text → ℕ → Text → ℕ → Type 0
Found name c cs k =
    ((has_prefix (c ∷ cs) name ≡ true) × (0 ≡ k))
    ⊎ ((has_prefix (c ∷ cs) name ≡ false) × ((j : ℕ) × (find_text name cs ≡ some j) × (j + 1 ≡ k)))

find_text-Found :
    (name : Text) (c : ℕ) (cs : Text) (k : ℕ) → find_text name (c ∷ cs) ≡ some k → Found name c cs k
unfolding find_text
find_text-Found name c cs k h = elim (Bool-cases (has_prefix (c ∷ cs) name)) [
  | inl e ↦ inl (e, some_inj (rw e at h))
  | inr e ↦ elim (Option-cases (find_text name cs)) [
    | inl n ↦ absurd (cc (rw (e, n) at h))
    | inr (j, f) ↦ inr (e, (j, f, some_inj (rw (e, f) at h)))
  ]
]
  where
    some_inj : {a b : ℕ} → some a ≡ some b → a ≡ b
    some_inj e = cc

find_text-length : (name s : Text) (k : ℕ) → find_text name s ≡ some k → k + length name ≤ length s
unfolding find_text
find_text-length name [] k h = ground (arith, has_prefix-length [] name)
find_text-length name (c ∷ cs) k h = elim (find_text-Found name c cs k h) [
  | inl (e, z) ↦ omega (arith, has_prefix-length (c ∷ cs) name e, z)
  | inr (e, (j, f, n)) ↦ omega (arith, find_text-length name cs j f, n)
]

pub find_text-append :
    (name s x : Text) (k : ℕ) → find_text name s ≡ some k → find_text name (s ++ x) ≡ some k
unfolding find_text
find_text-append [] [] [] k h = h
find_text-append [] [] (y ∷ ys) k h = h
find_text-append (n ∷ ns) [] x k h = absurd (cc h)
find_text-append name (c ∷ cs) x k h = elim (find_text-Found name c cs k h) [
  | inl (e, z) ↦
      let whole = has_prefix-append (c ∷ cs) x name (has_prefix-length (c ∷ cs) name e) in
      rw (whole, e) (ap some z)
  | inr (e, (j, f, n)) ↦
      let bound = find_text-length name cs j f in
      let whole = has_prefix-append (c ∷ cs) x name (omega arith) in
      rw (whole, e, find_text-append name cs x j f) (ap some n)
]

-- A text that stops before the end of the first find holds none.
pub find_text-none :
    (name s x : Text) (k : ℕ)
    → find_text name (s ++ x) ≡ some k
    → length s < k + length name
    → find_text name s ≡ none
find_text-none name s x k h b = elim (Option-cases (find_text name s)) [
  | inl e ↦ e
  | inr (j, e) ↦
      let same = find_text-append name s x j e in
      let bound = find_text-length name s j e in
      let eq : some j ≡ some k = sym same ∙ h in let jk : j ≡ k = cc eq in absurd (omega arith)
]

pub c_str-append : (s x : Text) → All (λ c. c ≢ 0) s → c_str (s ++ x) ≡ s ++ c_str x
unfolding c_str
c_str-append [] x h = refl
c_str-append (c ∷ cs) x (n, h) = rw (ne→== c 0 n) (ap (λ l. c ∷ l) (c_str-append cs x h))

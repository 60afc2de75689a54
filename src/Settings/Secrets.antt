-- ===== src/Settings/Secrets.antt =====
-- What the settings JSON tells of secrets, and what a settings body may change.
use axis_cam_metrics.Base.{
  ℕ, ◌+◌, ◌≡◌, ◌≢◌, refl, sym, ap, ◌∙◌, List, [], ◌∷◌, ◌++◌, Bool, true, false, ◌==◌, inl, inr, All,
  arith, Bool-cases,
}
use axis_cam_metrics.Base.Text.{Text, codes, str_eq_refl, str_eq_ne}
use axis_cam_metrics.Settings.{
  Parameter, find_parameter, shown, parameter_value, settings_from, settings_entry, settings_json,
}

abbrev pub is_empty : Text → Bool
is_empty [] = true
is_empty (c ∷ cs) = false

-- Names are distinct.
abbrev pub Distinct : List Parameter → Type 0
Distinct [] = Unit
Distinct (p ∷ ps) = All (λ (q : Parameter). p.name ≢ q.name) ps × Distinct ps

-- Two entries that differ at most in what a secret is.
pub record Alike (p q : Parameter) : Type 0 where
  pub same_name : p.name ≡ q.name
  pub same_kind : p.secret ≡ q.secret
  pub same_set : is_empty (shown p) ≡ is_empty (shown q)
  pub same_shown : p.secret ≡ false → shown p ≡ shown q

abbrev pub AllAlike : List Parameter → List Parameter → Type 0
AllAlike [] [] = Unit
AllAlike [] (q ∷ qs) = ⊥
AllAlike (p ∷ ps) [] = ⊥
AllAlike (p ∷ ps) (q ∷ qs) = Alike p q × AllAlike ps qs

value-head : (p : Parameter) (all : List Parameter) → parameter_value (p ∷ all) p.name ≡ shown p
unfolding parameter_value find_parameter
value-head p all = ground (arith, str_eq_refl p.name)

value-tail :
    (p : Parameter) (all : List Parameter) (name : Text)
    → p.name ≢ name
    → parameter_value (p ∷ all) name ≡ parameter_value all name
unfolding parameter_value find_parameter
value-tail p all name h =
    let e = str_eq_ne p.name name h in rw (e, parameter_value, find_parameter) refl

-- A lookup by an entry's own name finds the entry.
abbrev Own : List Parameter → Parameter → Type 0
Own all p = parameter_value all p.name ≡ shown p

Own-tail :
    (p : Parameter) (all ps : List Parameter)
    → All (λ (q : Parameter). p.name ≢ q.name) ps
    → All (Own all) ps
    → All (Own (p ∷ all)) ps
unfolding parameter_value find_parameter
Own-tail p all [] f h = tt
Own-tail p all (q ∷ ps) f h = (value-tail p all q.name f.0 ∙ h.0, Own-tail p all ps f.1 h.1)

Own-All : (ps : List Parameter) → Distinct ps → All (Own ps) ps
unfolding parameter_value find_parameter
Own-All [] d = tt
Own-All (p ∷ ps) d = (value-head p ps, Own-tail p ps ps d.0 (Own-All ps d.1))

settings_entry-secret :
    (out : Text) (first : Bool) (name v w : Text)
    → is_empty v ≡ is_empty w
    → settings_entry out first name true v ≡ settings_entry out first name true w
unfolding settings_entry
settings_entry-secret out first name [] [] h = refl
settings_entry-secret out first name [] (c ∷ cs) h = cc
settings_entry-secret out first name (c ∷ cs) [] h = cc
settings_entry-secret out first name (c ∷ cs) (d ∷ ds) h = refl

settings_entry-Alike :
    (out : Text) (first : Bool) (p q : Parameter)
    → Alike p q
    → settings_entry out first p.name p.secret (shown p)
      ≡ settings_entry out first q.name q.secret (shown q)
settings_entry-Alike out first p q a = elim (Bool-cases p.secret) [
  | inl e ↦
      rw (← a.same_name, ← a.same_kind, e)
        (settings_entry-secret out first p.name (shown p) (shown q) a.same_set)
  | inr e ↦ rw (← a.same_name, ← a.same_kind, a.same_shown e) refl
]

step-Alike :
    (all all' : List Parameter) (out : Text) (first : Bool) (p q : Parameter)
    → Alike p q
    → Own all p
    → Own all' q
    → settings_entry out first p.name p.secret (parameter_value all p.name)
      ≡ settings_entry out first q.name q.secret (parameter_value all' q.name)
step-Alike all all' out first p q a o o' =
    ap (settings_entry out first p.name p.secret) o
    ∙ settings_entry-Alike out first p q a
    ∙ ap (settings_entry out first q.name q.secret) (sym o')

settings_from-alike :
    (all all' : List Parameter) (i : ℕ) (ps qs : List Parameter) (out : Text)
    → AllAlike ps qs
    → All (Own all) ps
    → All (Own all') qs
    → settings_from all i ps out ≡ settings_from all' i qs out
unfolding settings_from
settings_from-alike all all' i [] [] out a o o' = refl
settings_from-alike all all' i [] (q ∷ qs) out a o o' = absurd a
settings_from-alike all all' i (p ∷ ps) [] out a o o' = absurd a
settings_from-alike all all' i (p ∷ ps) (q ∷ qs) out a o o' =
    ap (settings_from all (i + 1) ps) (step-Alike all all' out (i == 0) p q a.0 o.0 o'.0)
    ∙ settings_from-alike all all' (i + 1) ps qs _ a.1 o.1 o'.1

-- The settings JSON tells of a secret only whether one is set: two tables of distinct names that
-- agree but for what their non-empty secrets are give the same text.
pub settings_json-hides :
    (ps qs : List Parameter)
    → Distinct ps
    → Distinct qs
    → AllAlike ps qs
    → settings_json ps ≡ settings_json qs
unfolding settings_json
settings_json-hides ps qs d d' a =
    ap (λ out. out ++ codes "}")
      (settings_from-alike ps qs 0 ps qs (codes "{") a (Own-All ps d) (Own-All qs d'))

-- ===== src/Settings/Body.antt =====
-- What a settings body may change.
use axis_cam_metrics.Base.{
  ◌≡◌, refl, sym, ap, ◌∙◌, ◌⊎◌, List, [], ◌∷◌, Option, none, some, Bool, true, false, inl, inr,
  Bool-cases, Option-cases,
}
use axis_cam_metrics.Base.Text.{Text, str_eq, str_eq→eq, split}
use axis_cam_metrics.Query.{url_decode, after, until}
use axis_cam_metrics.Settings.{
  Parameter, find_parameter, set_value, apply_setting, apply_pair, apply_pairs, apply_settings_body,
}

module _ (accepts : Text → Text → Bool) where
  -- An entry keeps its name, its kind and its fallback, and its value or takes one that
  -- `ax_parameter_set` accepted under that name.
  pub record Kept (p q : Parameter) : Type 0 where
    pub name_kept : q.name ≡ p.name
    pub fallback_kept : q.fallback ≡ p.fallback
    pub secret_kept : q.secret ≡ p.secret
    pub value_kept :
        (q.value ≡ p.value) ⊎ ((v : Text) × ((q.value ≡ some v) × (accepts p.name v ≡ true)))

  abbrev pub AllKept : List Parameter → List Parameter → Type 0
  AllKept [] [] = Unit
  AllKept [] (q ∷ qs) = ⊥
  AllKept (p ∷ ps) [] = ⊥
  AllKept (p ∷ ps) (q ∷ qs) = Kept p q × AllKept ps qs

  Kept-refl : (p : Parameter) → Kept p p
  Kept-refl p = record {
    name_kept = refl;
    fallback_kept = refl;
    secret_kept = refl;
    value_kept = inl refl;
  }

  Kept-trans : (p q r : Parameter) → Kept p q → Kept q r → Kept p r
  Kept-trans p q r a b = record {
    name_kept = b.name_kept ∙ a.name_kept;
    fallback_kept = b.fallback_kept ∙ a.fallback_kept;
    secret_kept = b.secret_kept ∙ a.secret_kept;
    value_kept = elim b.value_kept [
      | inl e ↦ elim a.value_kept [ inl f ↦ inl (e ∙ f) | inr (v, (f, g)) ↦ inr (v, (e ∙ f, g)) ]
      | inr (v, (f, g)) ↦ inr (v, (f, ap (λ n. accepts n v) (sym a.name_kept) ∙ g))
    ];
  }

  AllKept-refl : (ps : List Parameter) → AllKept ps ps
  AllKept-refl [] = tt
  AllKept-refl (p ∷ ps) = (Kept-refl p, AllKept-refl ps)

  AllKept-trans : (ps qs rs : List Parameter) → AllKept ps qs → AllKept qs rs → AllKept ps rs
  AllKept-trans [] [] rs a b = b
  AllKept-trans [] (q ∷ qs) rs a b = absurd a
  AllKept-trans (p ∷ ps) [] rs a b = absurd a
  AllKept-trans (p ∷ ps) (q ∷ qs) [] a b = absurd b
  AllKept-trans (p ∷ ps) (q ∷ qs) (r ∷ rs) a b =
      (Kept-trans p q r a.0 b.0, AllKept-trans ps qs rs a.1 b.1)

  set_value-AllKept :
      (ps : List Parameter) (name value : Text)
      → accepts name value ≡ true
      → AllKept ps (set_value ps name value)
  unfolding set_value
  set_value-AllKept [] name value h = tt
  set_value-AllKept (p ∷ ps) name value h = elim (Bool-cases (str_eq p.name name)) [
    | inl e ↦
        rw (e, set_value)
          (
            record {
              name_kept = refl;
              fallback_kept = refl;
              secret_kept = refl;
              value_kept =
                  inr (value, (refl, ap (λ n. accepts n value) (str_eq→eq p.name name e) ∙ h));
            },
            AllKept-refl ps,
          )
    | inr e ↦ rw (e, set_value) (Kept-refl p, set_value-AllKept ps name value h)
  ]

  -- What one round, and a run of rounds, does.
  abbrev Round : List Parameter × Bool → List Parameter × Bool → Type 0
  Round (ps, c) (qs, d) = AllKept ps qs × (d ≡ false → (c ≡ false) × (qs ≡ ps))

  Round-refl : (st : List Parameter × Bool) → Round st st
  Round-refl (ps, c) = (AllKept-refl ps, λ e. (e, refl))

  Round-trans : (a b c : List Parameter × Bool) → Round a b → Round b c → Round a c
  Round-trans (ps, a) (qs, b) (rs, c) (k, f) (k', g) =
      (AllKept-trans ps qs rs k k', λ e. let (x, y) = g e in let (z, w) = f x in (z, y ∙ w))

  find_parameter-name :
      (ps : List Parameter) (name : Text) (p : Parameter)
      → find_parameter ps name ≡ some p
      → p.name ≡ name
  unfolding find_parameter
  find_parameter-name [] name p h = cc
  find_parameter-name (q ∷ ps) name p h = elim (Bool-cases (str_eq q.name name)) [
    | inl e ↦ let f : q ≡ p = cc (rw (e, find_parameter) at h) in rw (← f) (str_eq→eq q.name name e)
    | inr e ↦ find_parameter-name ps name p (rw (e, find_parameter) at h)
  ]

  apply_setting-Round :
      (st : List Parameter × Bool) (name value : Text)
      → Round st (apply_setting accepts st name value)
  unfolding apply_setting
  apply_setting-Round (ps, c) name value = elim (Option-cases (find_parameter ps name)) [
    | inl e ↦ rw (e, apply_setting) (Round-refl (ps, c))
    | inr (p, e) ↦
        rw (e, apply_setting)
          (elim (Bool-cases (elim p.value [ none ↦ false | some v ↦ str_eq v value ])) [
            | inl f ↦ rw f (Round-refl (ps, c))
            | inr f ↦ rw f (elim (Bool-cases (accepts p.name value)) [
              | inl g ↦ rw g (
                set_value-AllKept ps name value
                    (ap (λ n. accepts n value) (sym (find_parameter-name ps name p e)) ∙ g),
                λ t. cc,
              )
              | inr g ↦ rw g (Round-refl (ps, c))
            ])
          ])
  ]

  apply_pair-Round :
      (st : List Parameter × Bool) (pair : Text) → Round st (apply_pair accepts st pair)
  unfolding apply_pair
  apply_pair-Round st pair = elim (Option-cases (after 61 pair)) [
    | inl e ↦ rw (e, apply_pair) (Round-refl st)
    | inr (v, e) ↦
        rw (e, apply_pair) (apply_setting-Round st (url_decode (until 61 pair)) (url_decode v))
  ]

  apply_pairs-Round :
      (pairs : List Text) (st : List Parameter × Bool) → Round st (apply_pairs accepts st pairs)
  unfolding apply_pairs
  apply_pairs-Round [] st = Round-refl st
  apply_pairs-Round (pair ∷ pairs) st =
      Round-trans st (apply_pair accepts st pair) _ (apply_pair-Round st pair)
        (apply_pairs-Round pairs (apply_pair accepts st pair))

  -- Whatever its body, a request keeps the table's entries, their names, kinds and fallbacks: each value
  -- stays, or becomes one that `ax_parameter_set` accepted under the entry's name. If it reports no
  -- change, the table is as it was.
  pub apply_settings_body-AllKept :
      (ps : List Parameter) (body : Option Text)
      → let (ps', changed) = apply_settings_body accepts ps body in
        AllKept ps ps' × (changed ≡ false → ps' ≡ ps)
  unfolding apply_settings_body
  apply_settings_body-AllKept ps body =
      let (k, f) =
        apply_pairs-Round (split 38 (elim body [ none ↦ [] | some b ↦ b ])) (ps, false) in
      (k, λ e. (f e).1)

-- ===== src/Selection/Enabled.antt =====
-- Which ids a posted list hides.
use axis_cam_metrics.Base.{
  ◌≡◌, refl, sym, ap, ◌∙◌, List, [], ◌∷◌, ◌++◌, some, Bool, true, false, not, ◌||◌, inl, inr,
  Bool-cases,
}
use axis_cam_metrics.Base.Text.{Text, str_eq, str_eq→eq, split}
use axis_cam_metrics.Selection.{
  Selection, SelectScope, display, transmit, contains, add, selection_enabled, add_pieces,
  selection_set_disabled,
}

or_true : (a : Bool) → (a || true) ≡ true
or_true true = refl
or_true false = refl

or_false : (b : Bool) → (b || false) ≡ b
or_false true = refl
or_false false = refl

or_assoc : (a b c : Bool) → ((a || b) || c) ≡ (a || (b || c))
or_assoc true b c = refl
or_assoc false b c = refl

contains-append :
    (ids : List Text) (t id : Text)
    → contains (ids ++ (t ∷ [])) id ≡ (contains ids id || str_eq t id)
unfolding contains
contains-append [] t id = or_false (str_eq t id)
contains-append (x ∷ ids) t id =
    ap (λ b. str_eq x id || b) (contains-append ids t id)
    ∙ sym (or_assoc (str_eq x id) (contains ids id) (str_eq t id))

-- An added id is found, and no other is lost or found anew.
contains-add :
    (ids : List Text) (t id : Text) → contains (add ids t) id ≡ (contains ids id || str_eq t id)
unfolding add
contains-add ids t id = elim (Bool-cases (contains ids t)) [
  | inl e ↦ rw e (elim (Bool-cases (str_eq t id)) [
    | inl f ↦
        rw f (ap (contains ids) (sym (str_eq→eq t id f)) ∙ e ∙ sym (or_true (contains ids id)))
    | inr f ↦ rw f (sym (or_false (contains ids id)))
  ])
  | inr e ↦ rw e (contains-append ids t id)
]

abbrev pub other_scope : SelectScope → SelectScope
other_scope display = transmit
other_scope transmit = display

module _ (strip : Text → Text) where
  -- The id is one of the pieces, stripped, that are not empty.
  abbrev piece_is : Text → Text → Bool
  piece_is [] id = false
  piece_is (c ∷ cs) id = str_eq (c ∷ cs) id

  unfoldable pub listed_in : List Text → Text → Bool
  listed_in [] id = false
  listed_in (p ∷ ps) id = piece_is (strip p) id || listed_in ps id

  unfoldable pub listed : Text → Text → Bool
  unfolding listed_in
  listed csv id = listed_in (split 44 csv) id

  contains-add_piece :
      (ids : List Text) (t id : Text)
      → contains (elim t [ [] ↦ ids | c ∷ cs ↦ add ids (c ∷ cs) ]) id
        ≡ (contains ids id || piece_is t id)
  contains-add_piece ids [] id = sym (or_false (contains ids id))
  contains-add_piece ids (c ∷ cs) id = contains-add ids (c ∷ cs) id

  pub contains-add_pieces :
      (ps ids : List Text) (id : Text)
      → contains (add_pieces strip ids ps) id ≡ (contains ids id || listed_in ps id)
  unfolding add_pieces listed_in
  contains-add_pieces [] ids id = sym (or_false (contains ids id))
  contains-add_pieces (p ∷ ps) ids id =
      contains-add_pieces ps _ id
      ∙ ap (λ b. b || listed_in ps id) (contains-add_piece ids (strip p) id)
      ∙ or_assoc (contains ids id) (piece_is (strip p) id) (listed_in ps id)

  -- A posted list hides in its scope exactly the ids that it has between its commas, stripped and not
  -- empty, whatever was hidden before; the other scope stays as it was.
  pub selection_enabled-set_disabled :
      (s : Selection) (scope : SelectScope) (csv id : Text)
      → let s' = selection_set_disabled strip s scope csv in
        (selection_enabled (some s') scope id ≡ not (listed csv id))
        × (selection_enabled (some s') (other_scope scope) id
            ≡ selection_enabled (some s) (other_scope scope) id)
  unfolding selection_set_disabled selection_enabled contains listed
  selection_enabled-set_disabled s display csv id =
      (ap not (contains-add_pieces (split 44 csv) [] id), refl)
  selection_enabled-set_disabled s transmit csv id =
      (ap not (contains-add_pieces (split 44 csv) [] id), refl)

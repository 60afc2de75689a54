-- ===== src/Selection/Saved.antt =====
-- A selection that was saved, loaded again.
use axis_cam_metrics.Base.{
  ℕ, ◌≡◌, ◌≢◌, refl, sym, ap, ◌∙◌, List, [], ◌∷◌, ◌++◌, some, not, ◌||◌, All, ne→==, append_assoc,
  append-nil,
}
use axis_cam_metrics.Base.Text.{Text, str_eq, split, split_go}
use axis_cam_metrics.Selection.{
  Selection, SelectScope, display, transmit, contains, selection_enabled, add_pieces,
  selection_load, selection_new, csv_from, save,
}
use axis_cam_metrics.Selection.Enabled.{listed_in, contains-add_pieces}

-- An id that a list can hold: not empty, without a comma, and with no space at its ends to strip.
abbrev pub IsId : (Text → Text) → Text → Type 0
IsId strip t = (t ≢ []) × All (λ c. c ≢ 44) t × (strip t ≡ t)

-- Ids with a comma before each.
abbrev tails : List Text → Text
tails [] = []
tails (t ∷ ts) = 44 ∷ (t ++ tails ts)

csv_from-tails :
    (c : ℕ) (cs : Text) (ids : List Text) → csv_from (c ∷ cs) ids ≡ (c ∷ cs) ++ tails ids
unfolding csv_from
csv_from-tails c cs [] = sym (append-nil (c ∷ cs))
csv_from-tails c cs (id ∷ ids) =
    csv_from-tails c (cs ++ (44 ∷ id)) ids ∙ append_assoc (c ∷ cs) (44 ∷ id) (tails ids)

split_go-append :
    (piece t rest : Text)
    → All (λ c. c ≢ 44) t
    → split_go 44 piece (t ++ rest) ≡ split_go 44 (piece ++ t) rest
unfolding split_go
split_go-append piece [] rest h = ap (λ p. split_go 44 p rest) (sym (append-nil piece))
split_go-append piece (c ∷ cs) rest (n, h) = rw (ne→== c 44 n) (
    split_go-append (piece ++ (c ∷ [])) cs rest h
    ∙ ap (λ p. split_go 44 p rest) (append_assoc piece (c ∷ []) cs))

module _ (strip : Text → Text) where
  split_go-tails :
      (piece : Text) (ids : List Text)
      → All (IsId strip) ids
      → split_go 44 piece (tails ids) ≡ piece ∷ ids
  unfolding split_go
  split_go-tails piece [] h = refl
  split_go-tails piece (id ∷ ids) ((_, plain, _), h) =
      ap (λ l. piece ∷ l) (split_go-append [] id (tails ids) plain ∙ split_go-tails id ids h)

  split-csv_from : (ids : List Text) → All (IsId strip) ids → split 44 (csv_from [] ids) ≡ ids
  unfolding split csv_from
  split-csv_from [] h = refl
  split-csv_from ([] ∷ ids) ((ne, _, _), h) = absurd (ne refl)
  split-csv_from ((c ∷ cs) ∷ ids) ((_, plain, _), h) =
      ap (split 44) (csv_from-tails c cs ids)
      ∙ split_go-append [] (c ∷ cs) (tails ids) plain
      ∙ split_go-tails (c ∷ cs) ids h

  listed_in-contains :
      (ids : List Text) (id : Text)
      → All (IsId strip) ids
      → listed_in strip ids id ≡ contains ids id
  unfolding listed_in contains
  listed_in-contains [] id h = refl
  listed_in-contains ([] ∷ ids) id ((ne, _, _), h) = absurd (ne refl)
  listed_in-contains ((c ∷ cs) ∷ ids) id ((_, _, same), h) =
      rw same (ap (λ b. str_eq (c ∷ cs) id || b) (listed_in-contains ids id h))

  contains-saved :
      (ids : List Text) (id : Text)
      → All (IsId strip) ids
      → contains (add_pieces strip [] (split 44 (csv_from [] ids))) id ≡ contains ids id
  unfolding contains
  contains-saved ids id h =
      ap (λ ps. contains (add_pieces strip [] ps) id) (split-csv_from ids h)
      ∙ contains-add_pieces strip ids [] id
      ∙ listed_in-contains ids id h

  -- A selection that is loaded from the file of another hides the same ids in each scope, where the ids
  -- of both scopes are not empty, have no comma and are as `strip` leaves them.
  pub selection_new-save :
      (s : Selection) (scope : SelectScope) (id : Text)
      → All (IsId strip) s.display_disabled
      → All (IsId strip) s.transmit_disabled
      → selection_enabled (some (selection_new strip (some (save s).0) (some (save s).1))) scope id
        ≡ selection_enabled (some s) scope id
  unfolding selection_new selection_load selection_enabled save
  selection_new-save s display id d t = ap not (contains-saved s.display_disabled id d)
  selection_new-save s transmit id d t = ap not (contains-saved s.transmit_disabled id t)

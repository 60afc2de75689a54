-- ===== src/Selection.antt =====
-- The metric selection of app/selection.c: which ids are hidden from the display and from the exports.
-- A hash table is a list without repetition, whose order is that of insertion; the key file has a
-- string for each scope. `strip` stands for `g_strstrip` of GLib.
pub mod Enabled
pub mod Saved
use axis_cam_metrics.Base.{
  ℕ, List, [], ◌∷◌, ◌++◌, Option, none, some, Bool, true, false, not, ◌||◌, if◌then◌else◌,
}
use axis_cam_metrics.Base.Text.{Text, codes, str_eq, split}

pub data SelectScope : Type 0 where
  display transmit : SelectScope

pub record Selection : Type 0 where
  pub display_disabled : List Text
  pub transmit_disabled : List Text

abbrev pub disabled : Selection → SelectScope → List Text
disabled s display = s.display_disabled
disabled s transmit = s.transmit_disabled

abbrev pub set_scope : Selection → SelectScope → List Text → Selection
set_scope s display ids = record s { display_disabled = ids }
set_scope s transmit ids = record s { transmit_disabled = ids }

unfoldable pub selection_scope_name : SelectScope → Text
selection_scope_name transmit = codes "transmit"
selection_scope_name display = codes "display"

-- `g_hash_table_contains`
unfoldable pub contains : List Text → Text → Bool
unfolding str_eq
contains [] id = false
contains (t ∷ ts) id = str_eq t id || contains ts id

-- `g_hash_table_add`
unfoldable pub add : List Text → Text → List Text
unfolding contains
add ids id = if contains ids id then ids else ids ++ (id ∷ [])

-- No selection, a NULL, hides nothing.
unfoldable pub selection_enabled : Option Selection → SelectScope → Text → Bool
unfolding contains
selection_enabled none scope id = true
selection_enabled (some s) scope id = not (contains (disabled s scope) id)

module _ (strip : Text → Text) where
  -- The loop over the pieces.
  unfoldable pub add_pieces : List Text → List Text → List Text
  unfolding add
  add_pieces ids [] = ids
  add_pieces ids (piece ∷ pieces) =
      add_pieces (elim (strip piece) [ [] ↦ ids | c ∷ cs ↦ add ids (c ∷ cs) ]) pieces

  -- The posted list replaces the scope's.
  unfoldable pub selection_set_disabled : Selection → SelectScope → Text → Selection
  unfolding add_pieces split
  selection_set_disabled s scope csv = set_scope s scope (add_pieces [] (split 44 csv))

  -- `load` from the key file: the list of each scope, where the file has one.
  abbrev pub load_scope : Selection → SelectScope → Option Text → Selection
  load_scope s scope none = s
  load_scope s scope (some csv) = set_scope s scope (add_pieces (disabled s scope) (split 44 csv))

  unfoldable pub selection_load : Selection → Option Text → Option Text → Selection
  selection_load s display_csv transmit_csv =
      load_scope (load_scope s display display_csv) transmit transmit_csv

  -- An empty selection, loaded.
  unfoldable pub selection_new : Option Text → Option Text → Selection
  unfolding selection_load
  selection_new = selection_load (record { display_disabled = []; transmit_disabled = [] })

-- The loop over the ids of a scope, with the string so far.
unfoldable pub csv_from : Text → List Text → Text
csv_from csv [] = csv
csv_from csv (id ∷ ids) = csv_from (elim csv [ [] ↦ id | c ∷ cs ↦ (c ∷ cs) ++ (44 ∷ id) ]) ids

-- The strings of the two scopes in the file that `save` writes.
unfoldable pub save : Selection → Text × Text
unfolding csv_from
save s = (csv_from [] s.display_disabled, csv_from [] s.transmit_disabled)

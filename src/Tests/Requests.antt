-- ===== src/Tests/Requests.antt =====
-- The HTTP routes and the metric selection at small requests.
use axis_cam_metrics.Base.{
  ◌∷◌, All, arith, ℕ, ◌≡◌, refl, [], Option, none, some, Bool, true, false, inl, not,
}
use axis_cam_metrics.Base.Text.{Text, codes}
use axis_cam_metrics.Settings.{parameters}
use axis_cam_metrics.Selection.{
  Selection, display, transmit, selection_enabled, selection_set_disabled, selection_new, save,
}
use axis_cam_metrics.Selection.Saved.{IsId, selection_new-save}
use axis_cam_metrics.Selection.Enabled.{selection_enabled-set_disabled, listed}
use axis_cam_metrics.Http.{World, handle_request}
use axis_cam_metrics.Http.ReadOnly.{Reads, handle_request-Reads}
use axis_cam_metrics.Tests.Samples.{whole}

abbrev pub strtod : Text → Option ℕ
strtod t = some 1

abbrev pub strtoull : Text → ℕ
strtoull t = 5

abbrev pub strip : Text → Text
strip t = t

abbrev pub accepts : Text → Text → Bool
accepts name value = true

abbrev pub world : World whole strtod strtoull strip accepts none
world = record {
  parameters = parameters;
  rules = record { rules = []; events = false; notify = false };
  selection = record { display_disabled = []; transmit_disabled = [] };
}

handle_request_example :
    Reads whole strtod strtoull strip accepts none
      (codes "/settings")
      (codes "SampleInterval=9")
      world
      false
      (handle_request whole strtod strtoull strip accepts none true
        (codes "POST")
        (codes "/settings")
        (codes "SampleInterval=9")
        world)
handle_request_example =
    handle_request-Reads whole strtod strtoull strip accepts none (codes "/settings")
      (codes "SampleInterval=9") world true (codes "POST") (inl refl)

selection_example :
    let s' = selection_set_disabled strip world.selection display (codes "cpu,mem") in
    (selection_enabled (some s') display (codes "mem")
      ≡ not (listed strip (codes "cpu,mem") (codes "mem")))
    × (selection_enabled (some s') transmit (codes "mem")
        ≡ selection_enabled (some world.selection) transmit (codes "mem"))
selection_example =
    selection_enabled-set_disabled strip world.selection display (codes "cpu,mem") (codes "mem")

-- A selection of two hidden ids.
abbrev hiding : Selection
hiding = record { display_disabled = codes "cpu" ∷ codes "mem" ∷ []; transmit_disabled = [] }

hiding-IsId : All (IsId strip) hiding.display_disabled
hiding-IsId = (((λ e. cc e), grind arith, refl), (((λ e. cc e), grind arith, refl), tt))

saved_example :
    selection_enabled
      (some (selection_new strip (some (save hiding).0) (some (save hiding).1)))
      display
      (codes "mem")
    ≡ selection_enabled (some hiding) display (codes "mem")
saved_example = selection_new-save strip hiding display (codes "mem") hiding-IsId tt

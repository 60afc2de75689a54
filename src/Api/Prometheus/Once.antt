-- ===== src/Api/Prometheus/Once.antt =====
-- The order of declarations and readings on the Prometheus page.
use axis_cam_metrics.Base.{
  ◌≡◌, refl, ap, List, [], ◌∷◌, true, false, ◌||◌, if◌then◌else◌, Bool-cases, inl, inr,
}
use axis_cam_metrics.Base.Text.{Text, str_eq, str_eq_refl}
use axis_cam_metrics.Floats.{Floats}
use axis_cam_metrics.Metrics.{MetricDef}
use axis_cam_metrics.Api.Series.{is_listed}
use axis_cam_metrics.Api.Prometheus.{Name, Line, declaration, reading, prometheus_name, page_lines}

-- Each name is declared once at most, and before every reading under it; `known` has those declared.
abbrev pub IsPage : List Text → List Line → Type 0
IsPage known [] = Unit
IsPage known (declaration name label ∷ ls) =
    (is_listed name known ≡ false) × IsPage (name ∷ known) ls
IsPage known (reading n value ∷ ls) = (is_listed n.name known ≡ true) × IsPage known ls

abbrev pub readings : List Line → List (Name × Text)
readings [] = []
readings (declaration name label ∷ ls) = readings ls
readings (reading n value ∷ ls) = (n, value) ∷ readings ls

module _ (F : Floats) (format : F.Float → Text) where
  open F use {Float}

  -- The metrics that have a reading, with their names on the page and their printed values.
  unfoldable pub present : List MetricDef → List Float → List (Name × Text)
  present [] values = []
  present (d ∷ ds) [] = []
  present (d ∷ ds) (v ∷ vs) =
      let rest = present ds vs in if F.is_nan v then rest else (prometheus_name d, format v) ∷ rest

  abbrev Holds : List Text → List (Name × Text) → List Line → Type 0
  Holds known ps ls = IsPage known ls × (readings ls ≡ ps)

  -- From any table of declared names, every name on the rest of the page is declared at most once, never
  -- again and always before the readings under it, although several metrics share a name; and the
  -- readings are those of exactly the metrics that have one, in the order of the registry.
  pub page_lines-IsPage :
      (known : List Text) (ds : List MetricDef) (vs : List Float)
      → IsPage known (page_lines F format known ds vs)
        × (readings (page_lines F format known ds vs) ≡ present ds vs)
  unfolding page_lines present is_listed
  page_lines-IsPage known [] vs = (tt, refl)
  page_lines-IsPage known (d ∷ ds) [] = (tt, refl)
  page_lines-IsPage known (d ∷ ds) (v ∷ vs) = elim (Bool-cases (F.is_nan v)) [
    | inl e ↦ rw e (page_lines-IsPage known ds vs)
    | inr e ↦
        let n = prometheus_name d in
        let here : Name × Text = (n, format v) in
        elim (Bool-cases (is_listed n.name known)) [
          | inl f ↦
              let (page, same) = page_lines-IsPage known ds vs in
              rw (e, f) ((f, page), ap (λ l. here ∷ l) same)
          | inr f ↦
              let (page, same) = page_lines-IsPage (n.name ∷ known) ds vs in
              let listed : (str_eq n.name n.name || is_listed n.name known) ≡ true =
                rw (str_eq_refl n.name) refl in
              rw (e, f) ((f, (listed, page)), ap (λ l. here ∷ l) same)
        ]
  ]

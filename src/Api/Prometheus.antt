-- ===== src/Api/Prometheus.antt =====
-- The Prometheus page of app/api.c: the name and the label of each metric, and the lines.
pub mod Once
use axis_cam_metrics.Base.{
  ℕ, List, [], ◌∷◌, ◌++◌, Option, none, some, Bool, true, false, not, ◌&&◌, if◌then◌else◌, drop,
}
use axis_cam_metrics.Base.Text.{Text, codes, str_eq, strlcpy, has_prefix, split}
use axis_cam_metrics.Floats.{Floats}
use axis_cam_metrics.Metrics.{MetricDef}
use axis_cam_metrics.Store.{store_latest}
use axis_cam_metrics.Api.Json.{Api}
use axis_cam_metrics.Api.Series.{is_listed}

unfoldable pub unit_suffix : Text → Text
unfolding str_eq
unit_suffix unit =
    if str_eq unit (codes "%")
    then codes "_percent"
    else if str_eq unit (codes "B")
    then codes "_bytes"
    else if str_eq unit (codes "B/s")
    then codes "_bytes_per_second"
    else if str_eq unit (codes "C")
    then codes "_celsius"
    else if str_eq unit (codes "MHz")
    then codes "_megahertz"
    else if str_eq unit (codes "Mb/s")
    then codes "_megabits_per_second"
    else if str_eq unit (codes "s")
    then codes "_seconds"
    else if str_eq unit (codes "/s")
    then codes "_per_second"
    else []

unfoldable pub label_key_for : Text → Text
unfolding str_eq
label_key_for prefix =
    if str_eq prefix (codes "net")
    then codes "interface"
    else if str_eq prefix (codes "disk")
    then codes "device"
    else if str_eq prefix (codes "fs")
    then codes "filesystem"
    else if str_eq prefix (codes "cpu")
    then codes "core"
    else codes "instance"

-- What `prometheus_name` fills in.
pub record Name : Type 0 where
  pub name : Text
  pub label_key : Text
  pub label_value : Text

-- `g_strjoinv("_", parts)`
unfoldable pub join_parts : List Text → Text
join_parts [] = []
join_parts (p ∷ []) = p
join_parts (p ∷ q ∷ qs) = p ++ (95 ∷ join_parts (q ∷ qs))

-- An id of three parts.
unfoldable pub device_name : Text → Text → Text → Text → Name
unfolding label_key_for unit_suffix str_eq has_prefix
device_name prefix device leaf unit =
    let key = strlcpy 32 (label_key_for prefix) in
    if str_eq prefix (codes "cpu") && has_prefix device (codes "core")
    then record {
      name = strlcpy 160 (codes "axis_cpu_core_" ++ (leaf ++ unit_suffix unit));
      label_key = key;
      label_value = strlcpy 96 (drop 4 device);
    }
    else record {
      name = strlcpy 160 (codes "axis_" ++ (prefix ++ (codes "_" ++ (leaf ++ unit_suffix unit))));
      label_key = key;
      label_value = strlcpy 96 device;
    }

unfoldable pub name_of_parts : List Text → Text → Name
unfolding device_name join_parts unit_suffix
name_of_parts (prefix ∷ device ∷ leaf ∷ []) unit = device_name prefix device leaf unit
name_of_parts parts unit = record {
  name = strlcpy 160 (codes "axis_" ++ (join_parts parts ++ unit_suffix unit));
  label_key = [];
  label_value = [];
}

unfoldable pub prometheus_name : MetricDef → Name
unfolding name_of_parts split
prometheus_name d = name_of_parts (split 46 d.id) d.unit

-- What the page says of a metric: the two comments that declare a name, or a reading.
pub data Line : Type 0 where
  declaration : Text → Text → Line
  reading : Name → Text → Line

unfoldable pub line_text : Line → Text
line_text (declaration name label) =
    codes "# HELP "
    ++ (name ++ (codes " " ++ (label ++ (codes "\n# TYPE " ++ (name ++ codes " gauge\n")))))
line_text (reading n value) = elim n.label_value [
  | [] ↦ n.name ++ (codes " " ++ (value ++ codes "\n"))
  | c ∷ cs ↦
      n.name
      ++ (codes "{"
          ++ (n.label_key
              ++ (codes "=\"" ++ ((c ∷ cs) ++ (codes "\"} " ++ (value ++ codes "\n"))))))
]

unfoldable pub page_text : List Line → Text
unfolding line_text
page_text [] = []
page_text (l ∷ ls) = line_text l ++ page_text ls

module _ (F : Floats) (format : F.Float → Text) where
  open F use {Float}

  -- The loop over the metrics; `declared` is the table of names.
  unfoldable pub page_lines : List Text → List MetricDef → List Float → List Line
  unfolding prometheus_name is_listed
  page_lines declared [] values = []
  page_lines declared (d ∷ ds) [] = []
  page_lines declared (d ∷ ds) (v ∷ vs) =
      let n = prometheus_name d in
      let skipped = page_lines declared ds vs in
      let known = reading n (format v) ∷ page_lines declared ds vs in
      let unknown =
        declaration n.name d.label ∷ reading n (format v) ∷ page_lines (n.name ∷ declared) ds vs in
      if F.is_nan v then skipped else if is_listed n.name declared then known else unknown

  unfoldable pub api_prometheus_text : Api F → Text
  unfolding page_lines page_text
  api_prometheus_text api = elim (store_latest F api.store) [
    | none ↦ []
    | some (values, timestamp) ↦
        codes "# HELP axis_device_info Device identity, always 1.\n"
        ++ (codes "# TYPE axis_device_info gauge\naxis_device_info{model=\""
            ++ (api.device.model
                ++ (codes "\",serial=\""
                    ++ (api.device.serial
                        ++ (codes "\",firmware=\""
                            ++ (api.device.firmware
                                ++ (codes "\"} 1\n"
                                    ++ page_text (page_lines [] api.registry.defs values))))))))
  ]

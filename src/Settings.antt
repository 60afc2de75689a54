-- ===== src/Settings.antt =====
-- The settings of app/main.c: the table of parameters, the JSON that shows it, and the form body that
-- changes it.
pub mod Secrets
pub mod Body
pub mod Config
use axis_cam_metrics.Base.{
  ℕ, ◌+◌, ◌/◌, ◌%◌, List, [], ◌∷◌, ◌++◌, Option, none, some, Bool, true, false, ltb, ◌==◌,
  if◌then◌else◌, is_some,
}
use axis_cam_metrics.Base.Text.{Text, codes, str_eq, split}
use axis_cam_metrics.Query.{url_decode, after, until}

-- `Parameter`; a NULL value is `none`.
pub record Parameter : Type 0 where
  pub name : Text
  pub fallback : Text
  pub secret : Bool
  pub value : Option Text

abbrev pub entry : Text → Text → Bool → Parameter
entry name fallback secret = record {
  name = name;
  fallback = fallback;
  secret = secret;
  value = none;
}

abbrev pub parameters : List Parameter
parameters =
    entry (codes "SampleInterval") (codes "1") false
    ∷ entry (codes "MqttEnabled") (codes "no") false
    ∷ entry (codes "MqttHost") (codes "") false
    ∷ entry (codes "MqttPort") (codes "1883") false
    ∷ entry (codes "MqttTls") (codes "no") false
    ∷ entry (codes "MqttUsername") (codes "") false
    ∷ entry (codes "MqttPassword") (codes "") true
    ∷ entry (codes "MqttTopicPrefix") (codes "") false
    ∷ entry (codes "MqttInterval") (codes "30") false
    ∷ entry (codes "MqttDiscovery") (codes "yes") false
    ∷ entry (codes "MqttDiscoveryAll") (codes "no") false
    ∷ entry (codes "InfluxEnabled") (codes "no") false
    ∷ entry (codes "InfluxVersion") (codes "v2") false
    ∷ entry (codes "InfluxUrl") (codes "") false
    ∷ entry (codes "InfluxDatabase") (codes "") false
    ∷ entry (codes "InfluxOrg") (codes "") false
    ∷ entry (codes "InfluxToken") (codes "") true
    ∷ entry (codes "InfluxUsername") (codes "") false
    ∷ entry (codes "InfluxPassword") (codes "") true
    ∷ entry (codes "InfluxMeasurement") (codes "axis_metrics") false
    ∷ entry (codes "InfluxInterval") (codes "30") false
    ∷ []

-- The first entry of that name.
unfoldable pub find_parameter : List Parameter → Text → Option Parameter
unfolding str_eq
find_parameter [] name = none
find_parameter (p ∷ ps) name =
    let rest = find_parameter ps name in if str_eq p.name name then some p else rest

-- A write through the pointer that `find_parameter` returns.
unfoldable pub set_value : List Parameter → Text → Text → List Parameter
set_value [] name value = []
set_value (p ∷ ps) name value =
    let rest = set_value ps name value in
    if str_eq p.name name then record p { value = some value } ∷ ps else p ∷ rest

abbrev pub shown : Parameter → Text
shown p = elim p.value [ none ↦ p.fallback | some v ↦ v ]

unfoldable pub parameter_value : List Parameter → Text → Text
unfolding find_parameter
parameter_value ps name = elim (find_parameter ps name) [ none ↦ [] | some p ↦ shown p ]

-- `load_parameter` on the entry `p`: `got` is the value that `ax_parameter_get` gives, NULL included,
-- or its failure.
unfoldable pub load_parameter : Parameter → Option (Option Text) → Parameter
load_parameter p none = record p {
  value = elim p.value [ none ↦ some p.fallback | some v ↦ some v ];
}
load_parameter p (some none) = record p { value = some [] }
load_parameter p (some (some v)) = record p { value = some v }

abbrev hex_digit : ℕ → ℕ
hex_digit n = if ltb n 10 then 48 + n else 87 + n

-- One byte in a JSON string.
unfoldable pub escape_byte : ℕ → Text
escape_byte b =
    if b == 34
    then codes "\\\""
    else if b == 92
    then codes "\\\\"
    else if b == 10
    then codes "\\n"
    else if b == 13
    then codes "\\r"
    else if b == 9
    then codes "\\t"
    else if ltb b 32
    then codes "\\u00" ++ (hex_digit (b / 16) ∷ hex_digit (b % 16) ∷ [])
    else b ∷ []

unfoldable pub json_append_escaped : Text → Text → Text
unfolding escape_byte
json_append_escaped out [] = out
json_append_escaped out (b ∷ bs) = json_append_escaped (out ++ escape_byte b) bs

-- One round of the loop of `settings_json`.
unfoldable pub settings_entry : Text → Bool → Text → Bool → Text → Text
unfolding json_append_escaped
settings_entry out first name secret value =
    let named =
      json_append_escaped ((if first then out else out ++ codes ",") ++ codes "\"") name
      ++ codes "\":\"" in
    let public_entry = json_append_escaped named value ++ codes "\"" in
    let secret_entry =
      json_append_escaped (named ++ codes "\"" ++ codes ",\"") name
      ++ codes "IsSet\":\""
      ++ (elim value [ [] ↦ codes "no" | c ∷ cs ↦ codes "yes" ])
      ++ codes "\"" in
    if secret then secret_entry else public_entry

-- The loop over the entries from `i` on; `all` is the whole table.
unfoldable pub settings_from : List Parameter → ℕ → List Parameter → Text → Text
unfolding parameter_value settings_entry
settings_from all i [] out = out
settings_from all i (p ∷ ps) out =
    settings_from all (i + 1) ps
      (settings_entry out (i == 0) p.name p.secret (parameter_value all p.name))

unfoldable pub settings_json : List Parameter → Text
unfolding settings_from
settings_json ps = settings_from ps 0 ps (codes "{") ++ codes "}"

-- `accepts` is what `ax_parameter_set` returns for a name and a value.
module _ (accepts : Text → Text → Bool) where
  -- One `name=value` of the body, decoded: the table and `changed` after it.
  unfoldable pub apply_setting : List Parameter × Bool → Text → Text → List Parameter × Bool
  unfolding find_parameter set_value
  apply_setting (ps, changed) name value = elim (find_parameter ps name) [
    | none ↦ (ps, changed)
    | some p ↦
        if elim p.value [ none ↦ false | some v ↦ str_eq v value ]
        then (ps, changed)
        else if accepts p.name value
        then (set_value ps name value, true)
        else (ps, changed)
  ]

  unfoldable pub apply_pair : List Parameter × Bool → Text → List Parameter × Bool
  unfolding apply_setting until after url_decode
  apply_pair st pair = elim (after 61 pair) [
    | none ↦ st
    | some value ↦ apply_setting st (url_decode (until 61 pair)) (url_decode value)
  ]

  unfoldable pub apply_pairs : List Parameter × Bool → List Text → List Parameter × Bool
  unfolding apply_pair
  apply_pairs st [] = st
  apply_pairs st (pair ∷ pairs) = apply_pairs (apply_pair st pair) pairs

  -- A NULL body is empty. The table afterwards, and `changed`.
  unfoldable pub apply_settings_body : List Parameter → Option Text → List Parameter × Bool
  unfolding apply_pairs split
  apply_settings_body ps body =
      apply_pairs (ps, false) (split 38 (elim body [ none ↦ [] | some b ↦ b ]))

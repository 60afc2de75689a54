-- ===== src/Api/Json.antt =====
-- The JSON answers of app/api.c other than the series: the latest values, the description of the store
-- and the metrics, and the health. How numbers print is a parameter.
pub mod Values
use axis_cam_metrics.Base.{
  ℕ, List, [], ◌∷◌, ◌++◌, Option, none, some, Bool, true, false, not, ◌&&◌, ◌||◌, ◌==◌,
  if◌then◌else◌,
}
use axis_cam_metrics.Base.Int.{ℤ, ◌-ℤ◌}
use axis_cam_metrics.Base.Text.{Text, codes}
use axis_cam_metrics.Floats.{Floats}
use axis_cam_metrics.Metrics.{MetricDef, MetricRegistry, count}
use axis_cam_metrics.Selection.{Selection, display, transmit, selection_enabled}
use axis_cam_metrics.Settings.{escape_byte}
use axis_cam_metrics.Store.{Store, StoreTier, store_latest, store_bytes, store_tier_span_s}
use axis_cam_metrics.Api.{DeviceInfo}

-- What `append_escaped` appends; the switch is that of the settings.
unfoldable pub escaped_text : Text → Text
unfolding escape_byte
escaped_text [] = []
escaped_text (c ∷ cs) = escape_byte c ++ escaped_text cs

-- What `append_kv` appends.
unfoldable pub kv : Text → Text → Bool → Text
unfolding escaped_text
kv key value comma =
    (if comma then codes "," else [])
    ++ (codes "\"" ++ (escaped_text key ++ (codes "\":\"" ++ (escaped_text value ++ codes "\""))))

module _ (F : Floats) where
  open F use {Float}

  -- `Api`
  pub record Api : Type 0 where
    pub registry : MetricRegistry
    pub store : Store F
    pub selection : Option Selection
    pub device : DeviceInfo
    pub app_version : Text
    pub persist_path : Option Text
    pub mqtt_status : Text
    pub influx_status : Text
    pub started : ℤ

  -- `format` is `g_ascii_formatd` with "%.7g"; `print_u` and `print_time` are `%u` and `%lld`.
  module _ (format : Float → Text) (print_u : ℕ → Text) (print_time : ℤ → Text) where
    -- What `append_number` appends.
    unfoldable pub number : Float → Text
    number v = if F.is_nan v || F.is_inf v then codes "null" else format v

    -- The entries of an object of values, where `shows` says which ids it has.
    unfoldable pub entries : (Text → Bool) → Bool → List MetricDef → List Float → Text
    unfolding escaped_text number
    entries shows first [] values = []
    entries shows first (d ∷ ds) [] = []
    entries shows first (d ∷ ds) (v ∷ vs) =
        let skipped = entries shows first ds vs in
        let shown =
          (if first then [] else codes ",")
          ++ (codes "\""
              ++ (escaped_text d.id ++ (codes "\":" ++ (number v ++ entries shows false ds vs)))) in
        if F.is_nan v || not (shows d.id) then skipped else shown

    -- What `append_values_object` appends.
    unfoldable pub values_object : MetricRegistry → List Float → Text
    unfolding entries
    values_object registry values =
        codes "{" ++ (entries (λ id. true) true registry.defs values ++ codes "}")

    unfoldable pub api_current_json : Api → Text
    unfolding values_object
    api_current_json api = elim (store_latest F api.store) [
      | none ↦ codes "{\"timestamp\":0,\"values\":{}}"
      | some (values, timestamp) ↦
          codes "{\"timestamp\":"
          ++ (print_time timestamp
              ++ (codes ",\"values\":" ++ (values_object api.registry values ++ codes "}")))
    ]

    unfoldable pub api_current_values_json : Api → Text
    unfolding entries
    api_current_values_json api = elim (store_latest F api.store) [
      | none ↦ codes "{}"
      | some (values, timestamp) ↦
          codes "{"
          ++ (entries (selection_enabled api.selection transmit) true api.registry.defs values
              ++ codes "}")
    ]

    abbrev yes_no : Bool → Text
    yes_no b = if b then codes "true" else codes "false"

    abbrev is_persisted : Api → Bool
    is_persisted api = elim api.persist_path [ none ↦ false | some path ↦ true ]

    -- One round of the loop over the tiers.
    unfoldable pub tier_entry : Api → ℕ → StoreTier F → Text
    unfolding store_tier_span_s
    tier_entry api i tier =
        (if i == 0 then [] else codes ",")
        ++ (codes "{\"interval\":"
            ++ (print_u tier.interval_s
                ++ (codes ",\"capacity\":"
                    ++ (print_u tier.capacity
                        ++ (codes ",\"span\":"
                            ++ (print_u (store_tier_span_s F api.store i)
                                ++ (codes ",\"points\":"
                                    ++ (print_u tier.count
                                        ++ (codes ",\"persisted\":"
                                            ++ (yes_no (is_persisted api && i == 2)
                                                ++ codes "}"))))))))))

    -- One round of the loop over the metrics.
    unfoldable pub metric_entry : Api → Bool → MetricDef → Text
    unfolding kv selection_enabled
    metric_entry api first d =
        (if first then codes "{" else codes ",{")
        ++ (kv (codes "id") d.id false
            ++ (kv (codes "label") d.label true
                ++ (kv (codes "unit") d.unit true
                    ++ (kv (codes "group") d.group true
                        ++ (codes ",\"display\":"
                            ++ (yes_no (selection_enabled api.selection display d.id)
                                ++ (codes ",\"transmit\":"
                                    ++ (yes_no (selection_enabled api.selection transmit d.id)
                                        ++ codes "}"))))))))

    unfoldable pub metric_entries : Api → Bool → List MetricDef → Text
    unfolding metric_entry
    metric_entries api first [] = []
    metric_entries api first (d ∷ ds) = metric_entry api first d ++ metric_entries api false ds

    unfoldable pub device_object : DeviceInfo → Text
    unfolding kv
    device_object d =
        kv (codes "model") d.model false
        ++ (kv (codes "product") d.product true
            ++ (kv (codes "type") d.type true
                ++ (kv (codes "serial") d.serial true
                    ++ (kv (codes "soc") d.soc true
                        ++ (kv (codes "architecture") d.arch true
                            ++ (kv (codes "firmware") d.firmware true
                                ++ kv (codes "hostname") d.hostname true))))))

    unfoldable pub api_meta_json : Api → Text
    unfolding kv device_object tier_entry metric_entries store_bytes
    api_meta_json api =
        codes "{\"app\":{"
        ++ (kv (codes "name") (codes "Metrics") false
            ++ (kv (codes "version") api.app_version true
                ++ (codes "},\"device\":{"
                    ++ (device_object api.device
                        ++ (codes "},\"store\":{\"persisted\":"
                            ++ (yes_no (is_persisted api)
                                ++ (codes ","
                                    ++ (kv (codes "persistPath")
                                          (elim api.persist_path [ none ↦ [] | some path ↦ path ])
                                          false
                                        ++ (codes ",\"tiers\":[" ++ rest api)))))))))
      where
        tiers : Api → Text
        tiers a =
            tier_entry a 0 a.store.fine
            ++ (tier_entry a 1 a.store.medium ++ tier_entry a 2 a.store.coarse)

        windows : Text
        windows = codes "},\"windows\":[300,900,1800,3600,21600,86400,604800,2592000],\"metrics\":["

        rest : Api → Text
        rest a =
            tiers a
            ++ (codes "],\"bytes\":"
                ++ (print_u (store_bytes F a.store)
                    ++ (windows ++ (metric_entries a true a.registry.defs ++ codes "]}"))))

    abbrev or_disabled : Text → Text
    or_disabled [] = codes "disabled"
    or_disabled (c ∷ cs) = c ∷ cs

    -- `now` is what `time` gives.
    unfoldable pub api_health_json : Api → ℤ → Text
    unfolding store_bytes
    api_health_json api now =
        codes "{\"ok\":true,\"metrics\":"
        ++ (print_u (count api.registry)
            ++ (codes ",\"uptime\":"
                ++ (print_time (now -ℤ api.started)
                    ++ (codes ",\"samples\":"
                        ++ (print_u api.store.fine.count
                            ++ (codes ",\"bytes\":"
                                ++ (print_u (store_bytes F api.store)
                                    ++ (codes ",\"persisted\":"
                                        ++ (yes_no (is_persisted api)
                                            ++ (codes ",\"mqtt\":\""
                                                ++ (or_disabled api.mqtt_status
                                                    ++ (codes "\",\"influx\":\""
                                                        ++ (or_disabled api.influx_status
                                                            ++ codes "\"}")))))))))))))

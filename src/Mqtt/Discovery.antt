-- ===== src/Mqtt/Discovery.antt =====
-- The discovery messages of app/mqtt.c: which metrics become Home Assistant entities, and the retained
-- message of each.
pub mod Retained
use axis_cam_metrics.Base.{
  ℕ, List, [], ◌∷◌, ◌++◌, Option, none, some, Bool, true, false, not, ◌&&◌, ◌||◌, ◌==◌, leb, drop,
  map, if◌then◌else◌,
}
use axis_cam_metrics.Base.Text.{Text, codes, str_eq, strlcpy, has_prefix, has_suffix}
use axis_cam_metrics.Api.{DeviceInfo}
use axis_cam_metrics.Metrics.{MetricDef, MetricRegistry}
use axis_cam_metrics.Selection.{Selection, transmit, selection_enabled}
use axis_cam_metrics.Settings.Config.{MqttConfig}

-- The text before the first `.`, if there is one, and whether it has a `_`.
unfoldable pub underscore_before_dot : Bool → Text → Bool
underscore_before_dot found [] = false
underscore_before_dot found (c ∷ cs) =
    let rest = underscore_before_dot (found || c == 95) cs in if c == 46 then found else rest

unfoldable pub interface_is_vlan : Text → Bool
unfolding underscore_before_dot
interface_is_vlan id = underscore_before_dot false (drop 4 id)

abbrev pub essential_ids : List Text
essential_ids =
    codes "cpu.usage"
    ∷ codes "mem.usage"
    ∷ codes "mem.used"
    ∷ codes "load.1"
    ∷ codes "sys.uptime"
    ∷ codes "flash.life_used"
    ∷ codes "flash.pre_eol"
    ∷ codes "poe.total"
    ∷ codes "poe.budget"
    ∷ []

unfoldable pub is_in : List Text → Text → Bool
unfolding str_eq
is_in [] id = false
is_in (t ∷ ts) id = str_eq id t || is_in ts id

unfoldable pub is_essential : Text → Bool → Bool
unfolding is_in has_prefix has_suffix interface_is_vlan
is_essential id named_sensors =
    if is_in essential_ids id || has_prefix id (codes "sensor.")
    then true
    else if has_prefix id (codes "temp.")
    then not named_sensors
    else if has_prefix id (codes "fs.") && has_suffix id (codes ".usage")
    then not (has_prefix id (codes "fs.mnt_"))
    else if has_prefix id (codes "net.")
        && (has_suffix id (codes ".rx_bps") || has_suffix id (codes ".tx_bps"))
    then not (interface_is_vlan id)
    else false

unfoldable pub has_named_sensors : List MetricDef → Bool
unfolding has_prefix
has_named_sensors [] = false
has_named_sensors (d ∷ ds) = has_prefix d.id (codes "sensor.") || has_named_sensors ds

unfoldable pub device_class_for : Text → Option Text
unfolding str_eq
device_class_for unit =
    if str_eq unit (codes "C")
    then some (codes "temperature")
    else if str_eq unit (codes "B")
    then some (codes "data_size")
    else if str_eq unit (codes "B/s")
    then some (codes "data_rate")
    else if str_eq unit (codes "s")
    then some (codes "duration")
    else if str_eq unit (codes "MHz")
    then some (codes "frequency")
    else none

-- The units that Home Assistant writes in another way; the degree sign is two bytes of UTF-8.
unfoldable pub ha_unit_for : Text → Text
unfolding str_eq
ha_unit_for unit =
    if str_eq unit (codes "C")
    then 194 ∷ 176 ∷ codes "C"
    else if str_eq unit (codes "Mb/s")
    then codes "Mbit/s"
    else unit

unfoldable pub ha_suggested_unit : MetricDef → Option Text
unfolding str_eq has_prefix
ha_suggested_unit def =
    if str_eq def.unit (codes "B")
    then some (if has_prefix def.id (codes "fs.") then codes "GB" else codes "MB")
    else if str_eq def.unit (codes "B/s")
    then some (codes "MB/s")
    else none

-- `topic` into an array of 256 bytes.
unfoldable pub topic_text : MqttConfig → Text → Text
topic_text config leaf = strlcpy 256 (config.topic_prefix ++ (codes "/" ++ leaf))

abbrev pub is_alnum : ℕ → Bool
is_alnum c = (leb 48 c && leb c 57) || ((leb 65 c && leb c 90) || (leb 97 c && leb c 122))

unfoldable pub object_id : DeviceInfo → MetricDef → Text
object_id device def =
    map (λ (c : ℕ). if is_alnum c then c else 95)
      (strlcpy 128 (device.serial ++ (codes "_" ++ def.id)))

unfoldable pub config_topic : DeviceInfo → MetricDef → Text
unfolding object_id
config_topic device def =
    strlcpy 256 (codes "homeassistant/sensor/" ++ (object_id device def ++ codes "/config"))

-- A member of the JSON object, with the comma after it.
abbrev pub member : Text → Text → Text
member key value = codes "\"" ++ (key ++ (codes "\":\"" ++ (value ++ codes "\",")))

abbrev pub unit_member : MetricDef → Text
unit_member def = elim def.unit [
  | [] ↦ []
  | c ∷ cs ↦ member (codes "unit_of_measurement") (ha_unit_for def.unit)
]

abbrev pub class_member : MetricDef → Text
class_member def = elim (device_class_for def.unit) [
  | none ↦ []
  | some c ↦ member (codes "device_class") c
]

abbrev pub suggested_members : MetricDef → Text
suggested_members def = elim (ha_suggested_unit def) [
  | none ↦ []
  | some u ↦
      member (codes "suggested_unit_of_measurement") u ++ codes "\"suggested_display_precision\":1,"
]

abbrev pub model_name : DeviceInfo → Text
model_name device = elim device.model [ [] ↦ codes "Axis device" | c ∷ cs ↦ device.model ]

abbrev pub device_object : DeviceInfo → Text
device_object device =
    codes "\"device\":{\"identifiers\":[\"axis_"
    ++ (device.serial
        ++ (codes "\"],\"name\":\""
            ++ (model_name device
                ++ (codes "\",\"manufacturer\":\"Axis\",\"model\":\""
                    ++ (device.model
                        ++ (codes "\",\"sw_version\":\"" ++ (device.firmware ++ codes "\"}}")))))))

unfoldable pub config_payload : MqttConfig → DeviceInfo → MetricDef → Text
unfolding object_id topic_text ha_unit_for device_class_for ha_suggested_unit
config_payload config device def =
    codes "{"
    ++ (member (codes "name") def.label
        ++ (member (codes "unique_id") (codes "axis_" ++ object_id device def)
            ++ (member (codes "state_topic") (topic_text config (codes "state"))
                ++ (member (codes "availability_topic") (topic_text config (codes "status"))
                    ++ (member (codes "value_template")
                          (codes "{{ value_json['" ++ (def.id ++ codes "'] }}"))
                        ++ (unit_member def
                            ++ (class_member def
                                ++ (suggested_members def
                                    ++ (codes "\"state_class\":\"measurement\","
                                        ++ device_object device)))))))))

module _ (config : MqttConfig) (device : DeviceInfo) (selection : Option Selection) where
  unfoldable pub is_wanted : Bool → MetricDef → Bool
  unfolding selection_enabled is_essential
  is_wanted named_sensors def =
      selection_enabled selection transmit def.id
      && (config.discovery_all || is_essential def.id named_sensors)

  -- The retained messages of one metric: a topic and a payload.
  unfoldable pub metric_messages : Bool → Bool → MetricDef → List (Text × Text)
  unfolding is_wanted config_topic config_payload
  metric_messages named_sensors withdraw_stale def =
      if is_wanted named_sensors def
      then (config_topic device def, config_payload config device def) ∷ []
      else if withdraw_stale
      then (config_topic device def, []) ∷ []
      else []

  unfoldable pub messages_from : Bool → Bool → List MetricDef → List (Text × Text)
  unfolding metric_messages
  messages_from named_sensors withdraw_stale [] = []
  messages_from named_sensors withdraw_stale (d ∷ ds) =
      metric_messages named_sensors withdraw_stale d
      ++ messages_from named_sensors withdraw_stale ds

  -- What `publish_discovery` publishes where there is a client.
  unfoldable pub discovery_messages : MetricRegistry → Bool → List (Text × Text)
  unfolding has_named_sensors messages_from
  discovery_messages registry withdraw_stale =
      messages_from (has_named_sensors registry.defs) withdraw_stale registry.defs

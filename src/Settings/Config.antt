-- ===== src/Settings/Config.antt =====
-- What app/main.c makes of the settings: the sampler's interval and the configurations of the exports.
-- `strtoull` is `g_ascii_strtoull` in base 10; its result is cast to guint.
use axis_cam_metrics.Base.{
  ℕ, ◌-◌, ◌≤◌, ◌<◌, List, [], ◌∷◌, ◌++◌, Bool, true, false, ltb, ◌==◌, ◌||◌, ◌&&◌, if◌then◌else◌,
  length, arith, length-take,
}
use axis_cam_metrics.Base.Words.{u32}
use axis_cam_metrics.Base.Text.{Text, codes, str_eq, strlcpy}
use axis_cam_metrics.Settings.{Parameter, parameter_value}

-- `MqttConfig`
pub record MqttConfig : Type 0 where
  pub enabled : Bool
  pub host : Text
  pub port : ℕ
  pub tls : Bool
  pub username : Text
  pub password : Text
  pub topic_prefix : Text
  pub interval_s : ℕ
  pub discovery : Bool
  pub discovery_all : Bool

-- `InfluxConfig`; `is_v1` is `version == INFLUX_V1`.
pub record InfluxConfig : Type 0 where
  pub enabled : Bool
  pub is_v1 : Bool
  pub url : Text
  pub database : Text
  pub org : Text
  pub token : Text
  pub username : Text
  pub password : Text
  pub measurement : Text
  pub interval_s : ℕ

-- `CLAMP`
abbrev pub clamp : ℕ → ℕ → ℕ → ℕ
clamp x low high = if ltb high x then high else if ltb x low then low else x

abbrev pub or_if_empty : Text → Text → Text
or_if_empty [] d = d
or_if_empty (c ∷ cs) d = c ∷ cs

abbrev pub InRange : ℕ → ℕ → ℕ → Type 0
InRange low x high = (low ≤ x) × (x ≤ high)

clamp-InRange : (x low high : ℕ) → low ≤ high → InRange low (clamp x low high) high
clamp-InRange x low high h = ground arith

strlcpy_fit : (size : ℕ) (t : Text) → 0 < size → length (strlcpy size t) < size
strlcpy_fit size t h = omega (arith, length-take (size - 1) t)

port_range :
    (port fallback : ℕ)
    → InRange 1 fallback 65535
    → InRange 1 (if port == 0 || ltb 65535 port then fallback else port) 65535
port_range port fallback h = ground arith

-- `restart_sampler` from the interval that it reads, on `sample_interval_s` and on whether there is a
-- timer: the interval afterwards, and whether a new timer was started.
unfoldable pub restart_at : ℕ → ℕ → Bool → ℕ × Bool
restart_at interval sample_interval_s timer =
    if interval == sample_interval_s && timer then (sample_interval_s, false) else (interval, true)

restart_range :
    (x old : ℕ) (timer : Bool) → InRange 1 x 10 → InRange 1 (restart_at x old timer).0 10
unfolding restart_at
restart_range x old timer h = ground arith

module _ (strtoull : Text → ℕ) where
  unfoldable pub parameter_is_yes : List Parameter → Text → Bool
  unfolding parameter_value str_eq
  parameter_is_yes ps name = str_eq (parameter_value ps name) (codes "yes")

  abbrev pub number : List Parameter → Text → ℕ
  number ps name = u32 (strtoull (parameter_value ps name))

  -- The configuration that `apply_mqtt_settings` hands to `mqtt_apply`; `serial` is the device's.
  unfoldable pub mqtt_settings : List Parameter → Text → MqttConfig
  unfolding parameter_is_yes
  mqtt_settings ps serial =
      let tls = parameter_is_yes ps (codes "MqttTls") in
      let port = number ps (codes "MqttPort") in
      record {
        enabled = parameter_is_yes ps (codes "MqttEnabled");
        host = strlcpy 128 (parameter_value ps (codes "MqttHost"));
        port = if port == 0 || ltb 65535 port then (if tls then 8883 else 1883) else port;
        tls = tls;
        username = strlcpy 64 (parameter_value ps (codes "MqttUsername"));
        password = strlcpy 128 (parameter_value ps (codes "MqttPassword"));
        topic_prefix = strlcpy 128 (
            or_if_empty (parameter_value ps (codes "MqttTopicPrefix"))
              (codes "axis/" ++ or_if_empty serial (codes "device") ++ codes "/metrics"));
        interval_s = clamp (number ps (codes "MqttInterval")) 1 3600;
        discovery = parameter_is_yes ps (codes "MqttDiscovery");
        discovery_all = parameter_is_yes ps (codes "MqttDiscoveryAll");
      }

  -- The configuration that `apply_influx_settings` hands to `influx_apply`.
  unfoldable pub influx_settings : List Parameter → InfluxConfig
  unfolding parameter_is_yes
  influx_settings ps = record {
    enabled = parameter_is_yes ps (codes "InfluxEnabled");
    is_v1 = str_eq (parameter_value ps (codes "InfluxVersion")) (codes "v1");
    url = strlcpy 256 (parameter_value ps (codes "InfluxUrl"));
    database = strlcpy 96 (parameter_value ps (codes "InfluxDatabase"));
    org = strlcpy 96 (parameter_value ps (codes "InfluxOrg"));
    token = strlcpy 256 (parameter_value ps (codes "InfluxToken"));
    username = strlcpy 64 (parameter_value ps (codes "InfluxUsername"));
    password = strlcpy 128 (parameter_value ps (codes "InfluxPassword"));
    measurement =
        strlcpy 64
          (or_if_empty (parameter_value ps (codes "InfluxMeasurement")) (codes "axis_metrics"));
    interval_s = clamp (number ps (codes "InfluxInterval")) 1 3600;
  }

  unfoldable pub restart_sampler : List Parameter → ℕ → Bool → ℕ × Bool
  unfolding restart_at
  restart_sampler ps sample_interval_s timer =
      restart_at (clamp (number ps (codes "SampleInterval")) 1 10) sample_interval_s timer

  -- Whatever the settings and however `strtoull` reads them, what the program configures is in range:
  -- a TCP port, intervals of 1 to 3600 s, a sampler of 1 to 10 s, and strings that fit their fields.
  pub configured-InRange :
      (ps : List Parameter) (serial : Text) (sample_interval_s : ℕ) (timer : Bool)
      → let m = mqtt_settings ps serial in
        let i = influx_settings ps in
        InRange 1 m.port 65535
        × InRange 1 m.interval_s 3600
        × InRange 1 i.interval_s 3600
        × InRange 1 (restart_sampler ps sample_interval_s timer).0 10
        × (length m.host < 128)
        × (length m.topic_prefix < 128)
        × (length i.url < 256)
        × (length i.token < 256)
  unfolding mqtt_settings influx_settings restart_sampler
  configured-InRange ps serial sample_interval_s timer = (
    port_range (number ps (codes "MqttPort")) _ (ground arith),
    clamp-InRange (number ps (codes "MqttInterval")) 1 3600 (omega arith),
    clamp-InRange (number ps (codes "InfluxInterval")) 1 3600 (omega arith),
    restart_range _ sample_interval_s timer
        (clamp-InRange (number ps (codes "SampleInterval")) 1 10 (omega arith)),
    strlcpy_fit 128 _ (omega arith),
    strlcpy_fit 128 _ (omega arith),
    strlcpy_fit 256 _ (omega arith),
    strlcpy_fit 256 _ (omega arith),
  )

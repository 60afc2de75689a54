-- ===== src/Collect/Slow.antt =====
-- The slow sources in app/collect.c: their fields of the collector, the named sensors that VAPIX answers
-- for, and the marks of their metrics.
pub mod Poe
pub mod Flash
use axis_cam_metrics.Base.{
  ℕ, ◌-◌, max, List, [], ◌∷◌, ◌++◌, Option, none, some, Bool, true, not, ◌&&◌, if◌then◌else◌, ◌==◌,
  get_or, length, ltb, set, drop, is_some,
}
use axis_cam_metrics.Base.Words.{u32}
use axis_cam_metrics.Base.Text.{Text, codes, strlcpy, has_prefix, split}
use axis_cam_metrics.Floats.{Floats}
use axis_cam_metrics.Metrics.{MetricRegistry, metric_id_max}
use axis_cam_metrics.Http.{after_name}
use axis_cam_metrics.Collect.{sanitize, metric_label_max}
use axis_cam_metrics.Collect.Device.{Device, Scanning, read_text, reg, set_reading}

abbrev pub max_sensors : ℕ
max_sensors = 16

abbrev pub max_poe_ports : ℕ
max_poe_ports = 16

-- `Sensor`
pub record Sensor : Type 0 where
  pub name : Text
  pub idx : ℕ

-- `PoePort`
pub record PoePort : Type 0 where
  pub port : ℕ
  pub idx_power : ℕ
  pub idx_allocated : ℕ
  pub idx_class : ℕ
  pub idx_connected : ℕ

-- The fields of `Collector` for the slow sources.
pub record Slow : Type 0 where
  pub sensors : List Sensor
  pub idx_fan_rpm : ℕ
  pub idx_heater : ℕ
  pub poe : List PoePort
  pub idx_poe_total : ℕ
  pub idx_poe_budget : ℕ
  pub idx_flash_life : ℕ
  pub idx_flash_eol : ℕ
  pub flash_life_path : Text
  pub flash_eol_path : Text

abbrev pub no_slow : Slow
no_slow = record {
  sensors = [];
  idx_fan_rpm = 0;
  idx_heater = 0;
  poe = [];
  idx_poe_total = 0;
  idx_poe_budget = 0;
  idx_flash_life = 0;
  idx_flash_eol = 0;
  flash_life_path = [];
  flash_eol_path = [];
}

-- What `strstr` points at: the text from the first `name` on.
unfoldable pub from_name : Text → Text → Option Text
unfolding has_prefix
from_name name [] = if has_prefix [] name then some [] else none
from_name name (c ∷ cs) =
    let rest = from_name name cs in if has_prefix (c ∷ cs) name then some (c ∷ cs) else rest

abbrev is_set : ℕ → Bool
is_set i = not (i == 0)

module _ (F : Floats) (scanning : Scanning F) where
  open F use {Float, Double}

  -- The loop of `discover_sensors` over the lines of the answer.
  unfoldable pub discover_sensors_from :
      MetricRegistry × List Sensor → List Text → MetricRegistry × List Sensor
  unfolding reg sanitize
  discover_sensors_from s [] = s
  discover_sensors_from (r, sensors) (line ∷ lines) =
      if not (ltb (length sensors) max_sensors)
      then (r, sensors)
      else elim (scanning.scan_sensor line) [
        | none ↦ discover_sensors_from (r, sensors) lines
        | some (index, scanned) ↦
            let name = scanning.strip scanned in
            let (r', idx) =
              reg r (strlcpy metric_id_max (codes "sensor." ++ sanitize name 48))
                (strlcpy metric_label_max (name ++ codes " temperature")) (codes "C")
                (codes "temperature") in
            discover_sensors_from
              (
                r',
                sensors
                    ++ (record {
                      name =
                          strlcpy 48
                            (codes "Sensor.S" ++ (scanning.print_u index ++ codes ".Celsius"));
                      idx = idx;
                    }
                        ∷ []),
              )
              lines
      ]

  unfoldable pub discover_sensors : Device → MetricRegistry × Slow → MetricRegistry × Slow
  unfolding discover_sensors_from from_name reg split
  discover_sensors device (r0, slow) = elim (device.vapix_get (codes "temperaturecontrol.cgi")) [
    | none ↦ (r0, slow)
    | some body ↦
        let (r1, sensors) = discover_sensors_from (r0, []) (split 10 body) in
        let (r2, fan) : MetricRegistry × ℕ =
          if is_some (from_name (codes "Fan.F0.") body)
          then reg r1 (codes "sensor.fan_rpm") (codes "Fan speed") (codes "rpm")
              (codes "temperature")
          else (r1, 0) in
        let (r3, heater) : MetricRegistry × ℕ =
          if is_some (from_name (codes "Heater.H0.") body)
          then reg r2 (codes "sensor.heater") (codes "Heater running") [] (codes "temperature")
          else (r2, 0) in
        (r3, record slow { sensors = sensors; idx_fan_rpm = fan; idx_heater = heater })
  ]

  -- The loop of `sample_sensors`.
  unfoldable pub set_sensors : Text → List Sensor → List Float → List Float
  unfolding after_name set_reading
  set_sensors body [] values = values
  set_sensors body (s ∷ ss) values = elim (after_name s.name body) [
    | none ↦ set_sensors body ss values
    | some rest ↦ set_sensors body ss (set_reading F values s.idx (scanning.strtod (drop 1 rest)))
  ]

  -- What follows the first `[`; `none` is the NULL of `strchr`.
  unfoldable pub after_bracket : Text → Option Text
  after_bracket [] = none
  after_bracket (c ∷ cs) = let rest = after_bracket cs in if c == 91 then some cs else rest

  unfoldable pub set_fan : Slow → Text → List Float → List Float
  unfolding from_name after_bracket set_reading
  set_fan slow body values = elim (from_name (codes "Fan.F0.Status=") body) [
    | none ↦ values
    | some fan ↦
        let speed : Double = elim (after_bracket fan) [
          | none ↦ F.of_nat 0
          | some text ↦ scanning.strtod text
        ] in
        if is_set slow.idx_fan_rpm then set_reading F values slow.idx_fan_rpm speed else values
  ]

  unfoldable pub set_heater : Slow → Text → List Float → List Float
  unfolding from_name has_prefix set_reading
  set_heater slow body values = elim (from_name (codes "Heater.H0.Status=") body) [
    | none ↦ values
    | some heater ↦
        if is_set slow.idx_heater
        then set_reading F values slow.idx_heater
            (if has_prefix (drop 17 heater) (codes "Running") then F.of_nat 1 else F.of_nat 0)
        else values
  ]

  unfoldable pub sample_sensors : Device → Slow → List Float → List Float
  unfolding set_sensors set_fan set_heater
  sample_sensors device slow values =
      let answered : List Float = elim (device.vapix_get (codes "temperaturecontrol.cgi")) [
        | none ↦ values
        | some body ↦
            set_heater slow body (set_fan slow body (set_sensors body slow.sensors values))
      ] in
      if length slow.sensors == 0 && (not (is_set slow.idx_fan_rpm) && not (is_set slow.idx_heater))
      then values
      else answered

abbrev mark_one : ℕ → List Bool → List Bool
mark_one i marks = if not (i == 0) then set marks i true else marks

unfoldable pub mark_sensors : List Sensor → List Bool → List Bool
mark_sensors [] marks = marks
mark_sensors (s ∷ ss) marks = mark_sensors ss (set marks s.idx true)

unfoldable pub mark_ports : List PoePort → List Bool → List Bool
mark_ports [] marks = marks
mark_ports (p ∷ ps) marks = mark_ports ps (
    set (set (set (set marks p.idx_power true) p.idx_allocated true) p.idx_class true)
      p.idx_connected true)

unfoldable pub mark_slow : Slow → List Bool → List Bool
unfolding mark_sensors mark_ports
mark_slow slow marks =
    let heated =
      mark_one slow.idx_heater (mark_one slow.idx_fan_rpm (mark_sensors slow.sensors marks)) in
    let ports = mark_one slow.idx_poe_total (mark_ports slow.poe heated) in
    mark_one slow.idx_flash_eol (mark_one slow.idx_flash_life (mark_one slow.idx_poe_budget ports))

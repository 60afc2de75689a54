-- ===== src/Tests/Entities.antt =====
-- Discovery for a registry of two metrics, one of them transmitted but not essential.
use axis_cam_metrics.Base.{◌≡◌, ◌≢◌, refl, sym, ap, ◌∙◌, [], ◌∷◌, none, true, false}
use axis_cam_metrics.Base.Text.{Text, codes, str_eq, str_eq_refl}
use axis_cam_metrics.Metrics.{MetricDef, MetricRegistry}
use axis_cam_metrics.Settings.Config.{MqttConfig}
use axis_cam_metrics.Mqtt.Discovery.{has_named_sensors, config_topic, discovery_messages, object_id}
use axis_cam_metrics.Mqtt.Discovery.Retained.{Broker, deliver, settled, Apart, discovery-settled}
use axis_cam_metrics.Tests.Lines.{device}

abbrev usage : MetricDef
usage = record {
  id = codes "cpu.usage";
  label = codes "CPU usage";
  unit = codes "%";
  group = codes "cpu";
}

abbrev load : MetricDef
load = record usage { id = codes "load.15"; unit = [] }

abbrev two : MetricRegistry
two = record { defs = usage ∷ load ∷ []; capacity = 64 }

abbrev config : MqttConfig
config = record {
  enabled = true;
  host = codes "broker";
  port = 1883;
  tls = false;
  username = [];
  password = [];
  topic_prefix = codes "axis";
  interval_s = 30;
  discovery = true;
  discovery_all = false;
}

differ : (a b : Text) → str_eq a b ≡ false → a ≢ b
differ a b h e = absurd (cc (sym h ∙ ap (str_eq a) (sym e) ∙ str_eq_refl a))

abbrev stale : Broker
stale topic = codes "old"

usage-Apart : Apart device load (usage ∷ [])
unfolding config_topic object_id str_eq
usage-Apart = (differ (config_topic device usage) (config_topic device load) refl, tt)

discovery_example :
    deliver stale (discovery_messages config device none two true) (config_topic device load)
    ≡ settled config device none
        (has_named_sensors two.defs)
        true
        load
        (stale (config_topic device load))
discovery_example =
    discovery-settled config device none two true (usage ∷ []) load [] stale refl usage-Apart tt

-- ===== src/Tests/Brokers.antt =====
-- The MQTT client on one run: it is configured, connects, and is switched off.
use axis_cam_metrics.Base.{◌≡◌, refl, List, [], ◌++◌, some, Bool, true, false}
use axis_cam_metrics.Base.Text.{codes}
use axis_cam_metrics.Settings.Config.{MqttConfig}
use axis_cam_metrics.Mqtt.{Mqtt, Request, mqtt_apply, on_connected}
use axis_cam_metrics.Mqtt.Life.{Run, Step, IsMqtt, follow, Run-follow}

abbrev config : Bool → MqttConfig
config enabled = record {
  enabled = enabled;
  host = codes "h";
  port = 1883;
  tls = false;
  username = [];
  password = [];
  topic_prefix = codes "t";
  interval_s = 30;
  discovery = true;
  discovery_all = false;
}

abbrev fresh : Mqtt
fresh = record {
  config = config false;
  client = false;
  connected = false;
  discovery_sent = false;
  last_publish = 0;
}

fresh-IsMqtt : IsMqtt fresh
fresh-IsMqtt = record { connected_client = λ e. cc; client_enabled = λ e. cc }

abbrev applied : Mqtt × List Request
applied = mqtt_apply fresh (config true) true

abbrev up : Mqtt × List Request
up = on_connected applied.0

abbrev down : Mqtt × List Request
down = mqtt_apply up.0 (config false) true

abbrev requests : List Request
requests = applied.1 ++ (up.1 ++ (down.1 ++ []))

life : Run fresh requests down.0
unfolding mqtt_apply
life =
    Run.more (Step.apply (config true) true)
      (Run.more (Step.connected refl) (Run.more (Step.apply (config false) true) Run.done))

Run-follow_example : IsMqtt down.0 × (follow fresh.client requests ≡ some down.0.client)
Run-follow_example = Run-follow life fresh-IsMqtt

-- ===== src/Mqtt.antt =====
-- The MQTT client's life in app/mqtt.c: when it is created, connected and destroyed, and what the
-- program asks of the paho library. The address and the client id, which are printed from the
-- configuration, are not modelled, and a call of `publish_discovery`, whose messages are a module of
-- their own, stands as one request.
pub mod Life
pub mod Discovery
pub mod Alert
use axis_cam_metrics.Base.{
  ℕ, ◌+◌, ◌-◌, List, [], ◌∷◌, ◌++◌, Option, none, some, Bool, true, false, not, ◌&&◌, ◌||◌, ◌==◌,
  ltb, if◌then◌else◌,
}
use axis_cam_metrics.Base.Text.{Text, codes, str_eq}
use axis_cam_metrics.Settings.Config.{MqttConfig}

abbrev pub bool_eq : Bool → Bool → Bool
bool_eq true b = b
bool_eq false b = not b

-- `struct Mqtt`; `client` says that there is one. Times are seconds of the monotonic clock.
pub record Mqtt : Type 0 where
  pub config : MqttConfig
  pub client : Bool
  pub connected : Bool
  pub discovery_sent : Bool
  pub last_publish : ℕ

-- What is asked of the library, in order; `create` with what it answers.
pub data Request : Type 0 where
  create : Bool → Request
  connect : Option Text → Option Text → Bool → Request
  publish : Text → Text → Request
  discovery : Bool → Request
  disconnect : Request
  destroy : Request

abbrev pub topic : Mqtt → Text → Text
topic m leaf = m.config.topic_prefix ++ codes "/" ++ leaf

-- `disconnect`
unfoldable pub mqtt_disconnect : Mqtt → Mqtt × List Request
mqtt_disconnect m =
    let goodbye : List Request =
      if m.connected
      then Request.publish (topic m (codes "status")) (codes "offline") ∷ Request.disconnect ∷ []
      else [] in
    let gone : Mqtt = record m { client = false; connected = false; discovery_sent = false } in
    if m.client then (gone, goodbye ++ (Request.destroy ∷ [])) else (m, [])

unfoldable pub connection_differs : MqttConfig → MqttConfig → Bool
unfolding str_eq
connection_differs a b =
    not (bool_eq a.enabled b.enabled)
    || (not (a.port == b.port)
        || (not (bool_eq a.tls b.tls)
            || (not (str_eq a.host b.host)
                || (not (str_eq a.username b.username)
                    || (not (str_eq a.password b.password)
                        || not (str_eq a.topic_prefix b.topic_prefix))))))

abbrev pub if_set : Text → Option Text
if_set [] = none
if_set (c ∷ cs) = some (c ∷ cs)

-- `connect_now`; `created` says that `MQTTAsync_createWithOptions` succeeded. The connect request
-- carries the user name and password that are set, and whether TLS is used.
unfoldable pub connect_now : Mqtt → Bool → Mqtt × List Request
connect_now m created =
    let username : Option Text = if_set m.config.username in
    let password : Option Text = elim username [
      | none ↦ none
      | some u ↦ if_set m.config.password
    ] in
    if created
    then (
      record m { client = true },
      Request.create created ∷ Request.connect username password m.config.tls ∷ [],
    )
    else (record m { client = false }, Request.create created ∷ [])

-- `publish_discovery`, of which only the flag is kept.
abbrev pub publish_discovery : Mqtt → Bool → Mqtt × List Request
publish_discovery m retract = (record m { discovery_sent = true }, Request.discovery retract ∷ [])

abbrev pub then_connect : Mqtt × List Request → Bool → Mqtt × List Request
then_connect (m, requests) created =
    let (m', more) = connect_now m created in (m', requests ++ more)

-- The end of `mqtt_apply`, where MQTT is enabled and has a host.
unfoldable pub settle : Mqtt → Bool → Bool → Bool → Mqtt × List Request
unfolding mqtt_disconnect connect_now
settle m reconnect rediscover created =
    if reconnect
    then then_connect (mqtt_disconnect m) created
    else if rediscover
    then publish_discovery m true
    else (m, [])

unfoldable pub rediscovers : Mqtt → MqttConfig → Bool → Bool
rediscovers m config reconnect =
    not reconnect
    && (m.connected
        && (config.discovery
            && (not (bool_eq config.discovery m.config.discovery)
                || not (bool_eq config.discovery_all m.config.discovery_all))))

unfoldable pub mqtt_apply : Mqtt → MqttConfig → Bool → Mqtt × List Request
unfolding mqtt_disconnect connection_differs rediscovers settle
mqtt_apply m config created =
    let reconnect = connection_differs m.config config || not m.client in
    let rediscover = rediscovers m config reconnect in
    let m' : Mqtt = record m { config = config } in
    if not config.enabled then mqtt_disconnect m' else elim config.host [
      | [] ↦ mqtt_disconnect m'
      | c ∷ cs ↦ settle m' reconnect rediscover created
    ]

unfoldable pub on_connected : Mqtt → Mqtt × List Request
on_connected m =
    let m' : Mqtt = record m { connected = true } in
    let online = Request.publish (topic m (codes "status")) (codes "online") in
    let sent : Mqtt = record m' { discovery_sent = true; last_publish = 0 } in
    let quiet : Mqtt = record m' { last_publish = 0 } in
    if m.config.discovery
    then (sent, online ∷ Request.discovery (not m.discovery_sent) ∷ [])
    else (quiet, online ∷ [])

unfoldable pub on_connection_lost : Mqtt → Mqtt
on_connection_lost m = record m { connected = false }

-- `mqtt_tick` at the time `now`, with the JSON that `api_current_values_json` gives.
unfoldable pub mqtt_tick : Mqtt → ℕ → Text → Mqtt × List Request
mqtt_tick m now json =
    let wait = not (m.last_publish == 0) && ltb (now - m.last_publish) m.config.interval_s in
    if not m.connected || not m.config.enabled
    then (m, [])
    else if wait
    then (m, [])
    else (record m { last_publish = now }, Request.publish (topic m (codes "state")) json ∷ [])

unfoldable pub mqtt_state : Mqtt → Text
mqtt_state m =
    if not m.config.enabled
    then codes "disabled"
    else if not m.client
    then codes "error"
    else if m.connected
    then codes "connected"
    else codes "connecting"

-- ===== src/Mqtt/Life.antt =====
-- The states that an MQTT client can reach, and what the library is asked on the way.
use axis_cam_metrics.Base.{
  ℕ, ◌-◌, ◌&&◌, ◌==◌, ltb, ◌≡◌, refl, sym, ap, ◌∙◌, List, [], ◌∷◌, ◌++◌, Option, none, some, Bool,
  true, false, not, ◌||◌, inl, inr, Bool-cases, if_ind,
}
use axis_cam_metrics.Base.Text.{Text}
use axis_cam_metrics.Settings.Config.{MqttConfig}
use axis_cam_metrics.Mqtt.{
  Mqtt, Request, mqtt_disconnect, connection_differs, connect_now, mqtt_apply, on_connected,
  on_connection_lost, mqtt_tick, then_connect, settle, rediscovers,
}

-- What can happen to a client. The library calls back only for a client that there is.
pub data Step : Mqtt → List Request → Mqtt → Type 0 where
  apply :
      {m : Mqtt} (config : MqttConfig) (created : Bool)
      → Step m (mqtt_apply m config created).1 (mqtt_apply m config created).0
  connected : {m : Mqtt} → m.client ≡ true → Step m (on_connected m).1 (on_connected m).0
  lost : {m : Mqtt} → m.client ≡ true → Step m [] (on_connection_lost m)
  tick :
      {m : Mqtt} (now : ℕ) (json : Text) → Step m (mqtt_tick m now json).1 (mqtt_tick m now json).0

pub record IsMqtt (m : Mqtt) : Type 0 where
  pub connected_client : m.connected ≡ true → m.client ≡ true
  pub client_enabled : m.client ≡ true → m.config.enabled ≡ true

-- The library's rules: whether it has a client after the requests, from whether it had one. A client
-- is created where there is none; all else is asked of the one that there is.
unfoldable pub follow : Bool → List Request → Option Bool
follow live [] = some live
follow false (Request.create created ∷ rs) = follow created rs
follow true (Request.create created ∷ rs) = none
follow false (Request.connect username password tls ∷ rs) = none
follow true (Request.connect username password tls ∷ rs) = follow true rs
follow false (Request.publish t payload ∷ rs) = none
follow true (Request.publish t payload ∷ rs) = follow true rs
follow false (Request.discovery retract ∷ rs) = none
follow true (Request.discovery retract ∷ rs) = follow true rs
follow false (Request.disconnect ∷ rs) = none
follow true (Request.disconnect ∷ rs) = follow true rs
follow false (Request.destroy ∷ rs) = none
follow true (Request.destroy ∷ rs) = follow false rs

-- A step's outcome is right: the invariant, and the rules kept.
abbrev Right : Mqtt → Mqtt × List Request → Type 0
Right m (m', rs) = IsMqtt m' × (follow m.client rs ≡ some m'.client)

follow-append :
    (live mid : Bool) (rs more : List Request)
    → follow live rs ≡ some mid
    → follow live (rs ++ more) ≡ follow mid more
unfolding follow
follow-append live mid [] more h = let e : live ≡ mid = cc in rw e refl
follow-append false mid (Request.create created ∷ rs) more h = follow-append created mid rs more h
follow-append true mid (Request.create created ∷ rs) more h = cc
follow-append false mid (Request.connect username password tls ∷ rs) more h = cc
follow-append true mid (Request.connect username password tls ∷ rs) more h =
    follow-append true mid rs more h
follow-append false mid (Request.publish t payload ∷ rs) more h = cc
follow-append true mid (Request.publish t payload ∷ rs) more h = follow-append true mid rs more h
follow-append false mid (Request.discovery retract ∷ rs) more h = cc
follow-append true mid (Request.discovery retract ∷ rs) more h = follow-append true mid rs more h
follow-append false mid (Request.disconnect ∷ rs) more h = cc
follow-append true mid (Request.disconnect ∷ rs) more h = follow-append true mid rs more h
follow-append false mid (Request.destroy ∷ rs) more h = cc
follow-append true mid (Request.destroy ∷ rs) more h = follow-append false mid rs more h

-- Disconnecting leaves no client and no connection.
disconnect_lem :
    (m : Mqtt)
    → (m.connected ≡ true → m.client ≡ true)
    → let (m', rs) = mqtt_disconnect m in
      (m'.client ≡ false)
      × (m'.connected ≡ false)
      × (m'.config ≡ m.config)
      × (follow m.client rs ≡ some false)
unfolding mqtt_disconnect follow
disconnect_lem m h = elim (Bool-cases m.client) [
  | inl e ↦ elim (Bool-cases m.connected) [
    | inl f ↦ rw (e, f) (refl, refl, refl, refl)
    | inr f ↦ rw (e, f) (refl, refl, refl, refl)
  ]
  | inr e ↦ elim (Bool-cases m.connected) [
    | inl f ↦ absurd (cc (h f))
    | inr f ↦ rw e (refl, f, refl, refl)
  ]
]

connect_lem :
    (m : Mqtt) (created : Bool)
    → m.client ≡ false
    → m.connected ≡ false
    → m.config.enabled ≡ true
    → Right m (connect_now m created)
unfolding connect_now follow
connect_lem m true c d e =
    (record { connected_client = λ f. refl; client_enabled = λ f. e }, rw c refl)
connect_lem m false c d e =
    (record { connected_client = λ f. cc; client_enabled = λ f. e }, rw c refl)

gone_Right :
    (m m' : Mqtt)
    → m'.client ≡ m.client
    → (m.connected ≡ true → m.client ≡ true)
    → m'.connected ≡ m.connected
    → Right m (mqtt_disconnect m')
gone_Right m m' c h d =
    let (gone, off, same, f) = disconnect_lem m' (λ k. c ∙ h (sym d ∙ k)) in
    (
      record { connected_client = λ k. cc; client_enabled = λ k. cc },
      ap (λ b. follow b (mqtt_disconnect m').1) (sym c) ∙ f ∙ ap some (sym gone),
    )

-- Disconnecting, then connecting again.
reconnect_Right :
    (m m' : Mqtt) (created : Bool)
    → m'.client ≡ m.client
    → (m.connected ≡ true → m.client ≡ true)
    → m'.connected ≡ m.connected
    → m'.config.enabled ≡ true
    → Right m (then_connect (mqtt_disconnect m') created)
reconnect_Right m m' created c h d e =
    let (gone, off, same, f) = disconnect_lem m' (λ k. c ∙ h (sym d ∙ k)) in
    let m'' = (mqtt_disconnect m').0 in
    let (v, g) = connect_lem m'' created gone off (ap (λ (k : MqttConfig). k.enabled) same ∙ e) in
    (
      v,
      ap (λ b. follow b ((mqtt_disconnect m').1 ++ (connect_now m'' created).1)) (sym c)
          ∙ follow-append m'.client m''.client (mqtt_disconnect m').1 (connect_now m'' created).1
              (f ∙ ap some (sym gone))
          ∙ g,
    )

settle-Right :
    (m m' : Mqtt) (reconnect rediscover created : Bool)
    → m'.client ≡ m.client
    → (m.connected ≡ true → m.client ≡ true)
    → m'.connected ≡ m.connected
    → m'.config.enabled ≡ true
    → (reconnect ≡ false → m.client ≡ true)
    → Right m (settle m' reconnect rediscover created)
unfolding settle follow
settle-Right m m' true rediscover created c h d e g = reconnect_Right m m' created c h d e
settle-Right m m' false true created c h d e g = (
  record { connected_client = λ k. c ∙ g refl; client_enabled = λ k. e },
  rw (g refl) (ap some (sym (c ∙ g refl))),
)
settle-Right m m' false false created c h d e g =
    (record { connected_client = λ k. c ∙ g refl; client_enabled = λ k. e }, ap some (sym c))

not-false : {b : Bool} → not b ≡ false → b ≡ true
not-false {b = true} h = refl
not-false {b = false} h = cc

or_left : (a b : Bool) → (a || b) ≡ false → a ≡ false
or_left true b h = cc
or_left false b h = refl

client_of : (a b : Bool) → (a || not b) ≡ false → b ≡ true
client_of true b h = cc
client_of false true h = refl
client_of false false h = cc

apply_Right :
    (m : Mqtt) (config : MqttConfig) (created : Bool)
    → IsMqtt m
    → Right m (mqtt_apply m config created)
unfolding mqtt_apply
apply_Right m config created v =
    if_ind (Right m) (not config.enabled) (λ e. gone_Right m m' refl v.connected_client refl)
      (λ e.
        elim config.host
          as (λ (host : Text). Right m (elim host [
            | [] ↦ mqtt_disconnect m'
            | c ∷ cs ↦ settle m' reconnect (rediscovers m config reconnect) created
          ])) [
            | [] ↦ gone_Right m m' refl v.connected_client refl
            | c ∷ cs ↦
                settle-Right m m' reconnect (rediscovers m config reconnect) created refl
                  v.connected_client refl (not-false e)
                  (client_of (connection_differs m.config config) m.client)
          ])
  where
    m' : Mqtt
    m' = record m { config = config }

    reconnect : Bool
    reconnect = connection_differs m.config config || not m.client

on_connected-Right : (m : Mqtt) → IsMqtt m → m.client ≡ true → Right m (on_connected m)
unfolding on_connected follow
on_connected-Right m v c = elim (Bool-cases m.config.discovery) [
  | inl e ↦
      rw e (record { connected_client = λ f. c; client_enabled = v.client_enabled }, rw c refl)
  | inr e ↦
      rw e (record { connected_client = λ f. c; client_enabled = v.client_enabled }, rw c refl)
]

tick_Right : (m : Mqtt) (now : ℕ) (json : Text) → IsMqtt m → Right m (mqtt_tick m now json)
unfolding mqtt_tick follow
tick_Right m now json v =
    if_ind (Right m) (not m.connected || not m.config.enabled) (λ e. (v, refl))
      (λ e.
        if_ind (Right m)
          (not (m.last_publish == 0) && ltb (now - m.last_publish) m.config.interval_s)
          (λ w. (v, refl))
          (λ w.
            let c =
              v.connected_client (not-false (or_left (not m.connected) (not m.config.enabled) e)) in
            (
              record { connected_client = v.connected_client; client_enabled = v.client_enabled },
              rw c refl,
            )))

-- Every step keeps the invariant: there is a client where there is a connection, and MQTT is enabled
-- where there is a client. And it asks the library nothing out of turn: a client is created only where
-- there is none, and everything else is asked of a client that there is.
pub Step-IsMqtt :
    {m m' : Mqtt} {rs : List Request}
    → Step m rs m'
    → IsMqtt m
    → IsMqtt m' × (follow m.client rs ≡ some m'.client)
unfolding on_connection_lost follow
Step-IsMqtt {m} (apply config created) v = apply_Right m config created v
Step-IsMqtt {m} (connected c) v = on_connected-Right m v c
Step-IsMqtt {m} (lost c) v =
    (record { connected_client = λ f. cc; client_enabled = v.client_enabled }, refl)
Step-IsMqtt {m} (tick now json) v = tick_Right m now json v

-- A run: the steps from one state to another, with all that is asked on the way.
pub data Run : Mqtt → List Request → Mqtt → Type 0 where
  done : {m : Mqtt} → Run m [] m
  more :
      {m m' m'' : Mqtt} {rs rest : List Request}
      → Step m rs m'
      → Run m' rest m''
      → Run m (rs ++ rest) m''

-- In any run from a state with the invariant, all requests follow the library's rules, and the
-- program's pointer says at its end whether the library has a client.
pub Run-follow :
    {m m' : Mqtt} {rs : List Request}
    → Run m rs m'
    → IsMqtt m
    → IsMqtt m' × (follow m.client rs ≡ some m'.client)
unfolding follow
Run-follow done v = (v, refl)
Run-follow {m} (more {m' = mid} {rs = rs} {rest = rest} s r) v =
    let (v', e) = Step-IsMqtt s v in
    let (v'', f) = Run-follow r v' in (v'', follow-append m.client mid.client rs rest e ∙ f)

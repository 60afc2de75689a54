-- ===== src/Mqtt/Discovery/Retained.antt =====
-- What a broker retains after the discovery messages.
use axis_cam_metrics.Base.{
  ◌≡◌, ◌≢◌, refl, sym, ap, ◌∙◌, List, [], ◌∷◌, ◌++◌, Option, Bool, All, if◌then◌else◌, Bool-cases,
  inl, inr, none, some, true, false, not, ◌&&◌, ◌||◌, ◌==◌, ℕ, Option-cases, arith,
}
use axis_cam_metrics.Base.Text.{Text, codes, str_eq, str_eq_refl, str_eq_ne, has_prefix, has_suffix}
use axis_cam_metrics.Api.{DeviceInfo}
use axis_cam_metrics.Metrics.{MetricDef, MetricRegistry}
use axis_cam_metrics.Selection.{Selection, contains, selection_enabled}
use axis_cam_metrics.Settings.Config.{MqttConfig}
use axis_cam_metrics.Mqtt.Discovery.{
  has_named_sensors, is_in, is_essential, essential_ids, interface_is_vlan, config_topic,
  config_payload, is_wanted, metric_messages, messages_from, discovery_messages,
}

-- What a broker retains under each topic; nothing is the empty text.
abbrev pub Broker : Type 0
Broker = Text → Text

unfoldable pub deliver : Broker → List (Text × Text) → Broker
deliver broker [] = broker
deliver broker ((topic, payload) ∷ ms) =
    deliver (λ t. if str_eq t topic then payload else broker t) ms

deliver-append :
    (ms ns : List (Text × Text)) (broker : Broker)
    → deliver broker (ms ++ ns) ≡ deliver (deliver broker ms) ns
unfolding deliver
deliver-append [] ns broker = refl
deliver-append ((t, p) ∷ ms) ns broker = deliver-append ms ns _

module _ (id : Text) (named_sensors : Bool) where
  -- The metrics that a broker has without `discovery_all`: those of a fixed list, the named sensors, the
  -- temperatures where no sensor is named, the use of the file systems that are not mounted under /mnt,
  -- and the traffic of the interfaces that are no VLAN's.
  abbrev pub essential : Bool
  essential =
      (is_in essential_ids id || has_prefix id (codes "sensor."))
      || ((has_prefix id (codes "temp.") && not named_sensors)
          || ((has_prefix id (codes "fs.")
                && (has_suffix id (codes ".usage") && not (has_prefix id (codes "fs.mnt_"))))
              || (has_prefix id (codes "net.")
                  && ((has_suffix id (codes ".rx_bps") || has_suffix id (codes ".tx_bps"))
                      && not (interface_is_vlan id)))))

  other_prefix :
      (c d : ℕ) (ps qs s : Text)
      → (c == d) ≡ false
      → has_prefix s (c ∷ ps) ≡ true
      → has_prefix s (d ∷ qs) ≡ false
  unfolding has_prefix
  other_prefix c d ps qs [] ne h = refl
  other_prefix c d ps qs (x ∷ s) ne h = ground arith

  -- Branches of which at most one of three is taken.
  branches_lem :
      (e t s f u m n x v : Bool)
      → (t ≡ true → f ≡ false)
      → (t ≡ true → n ≡ false)
      → (f ≡ true → n ≡ false)
      → (if e
          then true
          else if t
          then not s
          else if f && u
          then not m
          else if n && x
          then not v
          else false)
        ≡ (e || ((t && not s) || ((f && (u && not m)) || (n && (x && not v)))))
  branches_lem true t s f u m n x v tf tn fn = refl
  branches_lem false true s f u m n x v tf tn fn = rw (tf refl, tn refl) (ground arith)
  branches_lem false false s true true m n x v tf tn fn = rw (fn refl) (ground arith)
  branches_lem false false s true false m n x v tf tn fn = rw (fn refl) refl
  branches_lem false false s false u m true true v tf tn fn = refl
  branches_lem false false s false u m true false v tf tn fn = refl
  branches_lem false false s false u m false x v tf tn fn = refl

  is_essential-essential : is_essential id named_sensors ≡ essential
  unfolding is_essential
  is_essential-essential =
      branches_lem (is_in essential_ids id || has_prefix id (codes "sensor."))
        (has_prefix id (codes "temp.")) named_sensors (has_prefix id (codes "fs."))
        (has_suffix id (codes ".usage")) (has_prefix id (codes "fs.mnt_"))
        (has_prefix id (codes "net."))
        (has_suffix id (codes ".rx_bps") || has_suffix id (codes ".tx_bps")) (interface_is_vlan id)
        (other_prefix b't' b'f' (codes "emp.") (codes "s.") id refl)
        (other_prefix b't' b'n' (codes "emp.") (codes "et.") id refl)
        (other_prefix b'f' b'n' (codes "s.") (codes "et.") id refl)

-- Metrics with other topics.
abbrev pub Apart : DeviceInfo → MetricDef → List MetricDef → Type 0
Apart device d ds = All (λ (e : MetricDef). config_topic device e ≢ config_topic device d) ds

module _ (config : MqttConfig) (device : DeviceInfo) (selection : Option Selection)
    (named_sensors withdraw_stale : Bool) where
  abbrev messages : List MetricDef → List (Text × Text)
  messages ds = messages_from config device selection named_sensors withdraw_stale ds

  -- The metric is not among those hidden from the exports.
  abbrev pub transmitted : MetricDef → Bool
  transmitted d = elim selection [ none ↦ true | some s ↦ not (contains s.transmit_disabled d.id) ]

  -- What a broker should have under the topic of a metric.
  abbrev pub settled : MetricDef → Text → Text
  settled d before =
      if transmitted d && (config.discovery_all || essential d.id named_sensors)
      then config_payload config device d
      else if withdraw_stale
      then []
      else before

  is_wanted_lem :
      (d : MetricDef)
      → is_wanted config device selection named_sensors d
        ≡ (transmitted d && (config.discovery_all || essential d.id named_sensors))
  unfolding is_wanted selection_enabled
  is_wanted_lem d =
      let e = is_essential-essential d.id named_sensors in
      elim (Option-cases selection) [
        | inl none_given ↦ rw (none_given, e, is_wanted) refl
        | inr (s, given) ↦ rw (given, e, is_wanted) refl
      ]

  own_topic :
      (d : MetricDef) (broker : Broker)
      → deliver broker
          (metric_messages config device selection named_sensors withdraw_stale d)
          (config_topic device d)
        ≡ settled d (broker (config_topic device d))
  unfolding deliver metric_messages
  own_topic d broker = elim (Bool-cases (is_wanted config device selection named_sensors d)) [
    | inl e ↦ rw (← is_wanted_lem d, e) (rw (str_eq_refl (config_topic device d)) refl)
    | inr e ↦
        rw (← is_wanted_lem d, e)
          (elim (Bool-cases withdraw_stale) [
            | inl w ↦ rw w (rw (str_eq_refl (config_topic device d)) refl)
            | inr w ↦ rw w refl
          ])
  ]

  other_topic :
      (d e : MetricDef) (broker : Broker)
      → config_topic device e ≢ config_topic device d
      → deliver broker
          (metric_messages config device selection named_sensors withdraw_stale e)
          (config_topic device d)
        ≡ broker (config_topic device d)
  unfolding deliver metric_messages
  other_topic d e broker ne =
      let differs = str_eq_ne (config_topic device d) (config_topic device e) (λ p. ne (sym p)) in
      elim (Bool-cases (is_wanted config device selection named_sensors e)) [
        | inl w ↦ rw w (rw differs refl)
        | inr w ↦ rw w (elim (Bool-cases withdraw_stale) [
          | inl s ↦ rw s (rw differs refl)
          | inr s ↦ rw s refl
        ])
      ]

  others :
      (d : MetricDef) (ds : List MetricDef) (broker : Broker)
      → Apart device d ds
      → deliver broker (messages ds) (config_topic device d) ≡ broker (config_topic device d)
  unfolding messages_from deliver
  others d [] broker h = refl
  others d (e ∷ ds) broker h =
      ap (λ b. b (config_topic device d))
        (deliver-append (metric_messages config device selection named_sensors withdraw_stale e)
          (messages ds) broker)
      ∙ others d ds
          (deliver broker (metric_messages config device selection named_sensors withdraw_stale e))
          h.1
      ∙ other_topic d e broker h.0

  messages-settled :
      (before : List MetricDef) (d : MetricDef) (after : List MetricDef) (broker : Broker)
      → Apart device d before
      → Apart device d after
      → deliver broker (messages (before ++ (d ∷ after))) (config_topic device d)
        ≡ settled d (broker (config_topic device d))
  unfolding messages_from
  messages-settled [] d after broker h k =
      ap (λ b. b (config_topic device d))
        (deliver-append (metric_messages config device selection named_sensors withdraw_stale d)
          (messages after) broker)
      ∙ others d after
          (deliver broker (metric_messages config device selection named_sensors withdraw_stale d))
          k
      ∙ own_topic d broker
  messages-settled (e ∷ before) d after broker h k =
      ap (λ b. b (config_topic device d))
        (deliver-append (metric_messages config device selection named_sensors withdraw_stale e)
          (messages (before ++ (d ∷ after))) broker)
      ∙ messages-settled before d after
          (deliver broker (metric_messages config device selection named_sensors withdraw_stale e))
          h.1 k
      ∙ ap (settled d) (other_topic d e broker h.0)

-- After the discovery messages a broker retains under the topic of each metric of the registry its
-- configuration, if the metric is not hidden from the exports and is one of the essential ones, written
-- out above, or all are to be published; else nothing, if stale entities are withdrawn, and what it had before, if they are not. The topic is no other
-- metric's.
pub discovery-settled :
    (config : MqttConfig) (device : DeviceInfo) (selection : Option Selection)
    (registry : MetricRegistry) (withdraw_stale : Bool) (before : List MetricDef) (d : MetricDef)
    (after : List MetricDef) (broker : Broker)
    → registry.defs ≡ before ++ (d ∷ after)
    → Apart device d before
    → Apart device d after
    → deliver broker
        (discovery_messages config device selection registry withdraw_stale)
        (config_topic device d)
      ≡ settled config device selection
          (has_named_sensors registry.defs)
          withdraw_stale
          d
          (broker (config_topic device d))
unfolding discovery_messages
discovery-settled config device selection registry withdraw_stale before d after broker e h k =
    ap
      (λ ds.
        deliver broker
          (messages_from config device selection (has_named_sensors registry.defs) withdraw_stale
            ds)
          (config_topic device d))
      e
    ∙ messages-settled config device selection (has_named_sensors registry.defs) withdraw_stale
        before d after broker h k

-- ===== src/Mqtt/Alert.antt =====
-- The alert messages of app/mqtt.c. `print` stands for the `%g` of `printf`.
use axis_cam_metrics.Base.{List, [], ◌∷◌, ◌++◌, Bool, if◌then◌else◌}
use axis_cam_metrics.Base.Text.{Text, codes, strlcpy}
use axis_cam_metrics.Mqtt.{Mqtt}
use axis_cam_metrics.Mqtt.Discovery.{topic_text}

-- The topic and the payload that are published, if any. Nothing in the texts is escaped.
unfoldable pub mqtt_publish_alert {ℓ} :
    {Double : Type ℓ}
    → (Double → Text)
    → Mqtt
    → Text
    → Text
    → Text
    → Double
    → Bool
    → List (Text × Text)
unfolding topic_text
mqtt_publish_alert print m rule_id name metric value firing =
    let payload =
      codes "{\"rule\":\""
      ++ (rule_id
          ++ (codes "\",\"name\":\""
              ++ (name
                  ++ (codes "\",\"metric\":\""
                      ++ (metric
                          ++ (codes "\",\"value\":"
                              ++ (print value
                                  ++ (codes ",\"state\":\""
                                      ++ ((if firing then codes "firing" else codes "cleared")
                                          ++ codes "\"}"))))))))) in
    if m.connected
    then (topic_text m.config (strlcpy 128 (codes "alert/" ++ rule_id)), payload) ∷ []
    else []

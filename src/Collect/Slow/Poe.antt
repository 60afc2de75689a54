-- ===== src/Collect/Slow/Poe.antt =====
-- The PoE ports in app/collect.c, which VAPIX answers for.
use axis_cam_metrics.Base.{
  ℕ, List, [], ◌∷◌, ◌++◌, none, some, not, if◌then◌else◌, ◌==◌, length, ltb, drop, is_some,
}
use axis_cam_metrics.Base.Words.{u32}
use axis_cam_metrics.Base.Text.{Text, codes, strlcpy, has_prefix}
use axis_cam_metrics.Floats.{Floats}
use axis_cam_metrics.Metrics.{MetricRegistry, metric_id_max}
use axis_cam_metrics.Http.{after_name}
use axis_cam_metrics.Collect.{metric_label_max}
use axis_cam_metrics.Collect.Device.{Device, Scanning, reg, set_reading}
use axis_cam_metrics.Collect.Slow.{Slow, PoePort, from_name, max_poe_ports}

module _ (F : Floats) (scanning : Scanning F) where
  open F use {Float, Double}

  -- `POE_METRIC`
  unfoldable pub poe_metric : MetricRegistry → ℕ → Text → Text → Text → MetricRegistry × ℕ
  unfolding reg
  poe_metric r port suffix text unit =
      reg r
        (strlcpy metric_id_max
          (codes "poe.port" ++ (scanning.print_u port ++ (codes "." ++ suffix))))
        (strlcpy metric_label_max
          (codes "PoE port " ++ (scanning.print_u port ++ (codes " " ++ text))))
        unit (codes "poe")

  unfoldable pub register_port : MetricRegistry → ℕ → MetricRegistry × PoePort
  unfolding poe_metric
  register_port r0 port =
      let (r1, power) = poe_metric r0 port (codes "power") (codes "power draw") (codes "W") in
      let (r2, allocated) =
        poe_metric r1 port (codes "allocated") (codes "allocated power") (codes "W") in
      let (r3, class) = poe_metric r2 port (codes "class") (codes "PoE class") [] in
      let (r4, connected) = poe_metric r3 port (codes "connected") (codes "device connected") [] in
      (
        r4,
        record {
          port = port;
          idx_power = power;
          idx_allocated = allocated;
          idx_class = class;
          idx_connected = connected;
        },
      )

  -- The loop of `discover_poe`, on the text from `cursor` on: a port where "<Port>" stands.
  unfoldable pub discover_ports :
      MetricRegistry × List PoePort → Text → MetricRegistry × List PoePort
  unfolding has_prefix register_port
  discover_ports (r, ports) [] = (r, ports)
  discover_ports (r, ports) (c ∷ cs) =
      let (r', entry) = register_port r (u32 (scanning.strtoull (drop 6 (c ∷ cs)) 10)) in
      let kept = discover_ports (r', ports ++ (entry ∷ [])) cs in
      let skipped = discover_ports (r, ports) cs in
      if has_prefix (c ∷ cs) (codes "<Port>")
      then (if ltb (length ports) max_poe_ports then kept else (r, ports))
      else skipped

  unfoldable pub discover_poe : Device → MetricRegistry × Slow → MetricRegistry × Slow
  unfolding from_name discover_ports reg
  discover_poe device (r0, slow) = elim (device.vapix_get (codes "nvr/poe/getportstatuses.cgi")) [
    | none ↦ (r0, slow)
    | some body ↦
        let (r1, ports) = discover_ports (r0, []) body in
        let (r2, total) =
          reg r1 (codes "poe.total") (codes "PoE total draw") (codes "W") (codes "poe") in
        let (r3, budget) =
          reg r2 (codes "poe.budget") (codes "PoE budget") (codes "W") (codes "poe") in
        if not (is_some (from_name (codes "<PortStatus>") body))
        then (r0, slow)
        else if length ports == 0
        then (r1, record slow { poe = ports })
        else (r3, record slow { poe = ports; idx_poe_total = total; idx_poe_budget = budget })
  ]

  unfoldable pub xml_value : Text → Text → Double
  unfolding after_name
  xml_value cursor tag = elim (after_name (strlcpy 32 (codes "<" ++ (tag ++ codes ">"))) cursor) [
    | none ↦ F.nan_double
    | some text ↦ scanning.strtod text
  ]

  unfoldable pub set_port : PoePort → Text → List Float → List Float
  unfolding xml_value set_reading
  set_port p cursor v0 =
      let v1 = set_reading F v0 p.idx_power (xml_value cursor (codes "PowerConsumption")) in
      let v2 = set_reading F v1 p.idx_allocated (xml_value cursor (codes "AllocatedPower")) in
      let v3 = set_reading F v2 p.idx_class (xml_value cursor (codes "PoeClass")) in
      set_reading F v3 p.idx_connected (
        if F.lt (F.of_nat 0) (xml_value cursor (codes "StatusCode"))
        then F.of_nat 1
        else F.of_nat 0)

  -- The text after `end + 1`, or after `cursor + 1` where the status does not end.
  abbrev next_cursor : Text → Text
  next_cursor cursor = elim (from_name (codes "</PortStatus>") cursor) [
    | none ↦ drop 1 cursor
    | some end ↦ drop 1 end
  ]

  -- The loop of `sample_poe`, with the total so far.
  unfoldable pub set_ports : Text → List PoePort → List Float × Double → List Float × Double
  unfolding from_name set_port
  set_ports body [] s = s
  set_ports body (p ∷ ps) (values, total) = elim (from_name (codes "<PortStatus>") body) [
    | none ↦ (values, total)
    | some cursor ↦
        let power = xml_value cursor (codes "PowerConsumption") in
        set_ports (next_cursor cursor) ps (
          set_port p cursor values,
          if not (F.is_nan_double power) then F.add total power else total,
        )
  ]

  unfoldable pub sample_poe : Device → Slow → List Float → List Float
  unfolding set_ports xml_value set_reading
  sample_poe device slow values =
      let answered : List Float = elim (device.vapix_get (codes "nvr/poe/getportstatuses.cgi")) [
        | none ↦ values
        | some body ↦
            let (values', total) = set_ports body slow.poe (values, F.of_nat 0) in
            let with_total = set_reading F values' slow.idx_poe_total total in
            elim (device.vapix_get (codes "nvr/poe/gettotalpowerlimit.cgi")) [
              | none ↦ with_total
              | some limit ↦
                  set_reading F with_total slow.idx_poe_budget (xml_value limit (codes "Limit"))
            ]
      ] in
      if length slow.poe == 0 then values else answered

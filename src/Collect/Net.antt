-- ===== src/Collect/Net.antt =====
-- The network interfaces in app/collect.c: discovery and sampling.
use axis_cam_metrics.Base.{
  ℕ, List, [], ◌∷◌, ◌++◌, Option, none, some, Bool, not, if◌then◌else◌, ◌==◌, get_or, length, ltb,
  drop,
}
use axis_cam_metrics.Base.Text.{Text, codes, str_eq, strlcpy}
use axis_cam_metrics.Floats.{Floats}
use axis_cam_metrics.Metrics.{MetricRegistry, metric_id_max}
use axis_cam_metrics.Collect.{sanitize, metric_label_max}
use axis_cam_metrics.Collect.Device.{
  Device, Scanning, read_text, reg, read_double, set_reading, rate,
}

abbrev pub max_ifaces : ℕ
max_ifaces = 32

-- `Iface`
pub record Iface : Type 0 where
  pub name : Text
  pub idx_rx_bps : ℕ
  pub idx_tx_bps : ℕ
  pub idx_rx_pps : ℕ
  pub idx_tx_pps : ℕ
  pub idx_rx_err : ℕ
  pub idx_tx_err : ℕ
  pub idx_rx_drop : ℕ
  pub idx_tx_drop : ℕ
  pub idx_link : ℕ
  pub idx_up : ℕ
  pub prev_rx_bytes : ℕ
  pub prev_tx_bytes : ℕ
  pub prev_rx_pkts : ℕ
  pub prev_tx_pkts : ℕ

-- `IFACE_METRIC`
unfoldable pub iface_metric : MetricRegistry → Text → Text → Text → Text → MetricRegistry × ℕ
unfolding reg sanitize
iface_metric r name suffix text unit =
    reg r (strlcpy metric_id_max (codes "net." ++ (sanitize name 32 ++ (codes "." ++ suffix))))
      (strlcpy metric_label_max (name ++ (codes " " ++ text))) unit (codes "network")

-- The ten metrics of an interface.
unfoldable pub register_iface : MetricRegistry → Text → MetricRegistry × Iface
unfolding iface_metric
register_iface r0 name =
    let (r1, rx_bps) = iface_metric r0 name (codes "rx_bps") (codes "receive") (codes "B/s") in
    let (r2, tx_bps) = iface_metric r1 name (codes "tx_bps") (codes "transmit") (codes "B/s") in
    let (r3, rx_pps) =
      iface_metric r2 name (codes "rx_pps") (codes "receive packets") (codes "/s") in
    let (r4, tx_pps) =
      iface_metric r3 name (codes "tx_pps") (codes "transmit packets") (codes "/s") in
    let (r5, rx_err) = iface_metric r4 name (codes "rx_errors") (codes "receive errors") [] in
    let (r6, tx_err) = iface_metric r5 name (codes "tx_errors") (codes "transmit errors") [] in
    let (r7, rx_drop) = iface_metric r6 name (codes "rx_drops") (codes "receive drops") [] in
    let (r8, tx_drop) = iface_metric r7 name (codes "tx_drops") (codes "transmit drops") [] in
    let (r9, link) = iface_metric r8 name (codes "link") (codes "link speed") (codes "Mb/s") in
    let (r10, up) = iface_metric r9 name (codes "up") (codes "link up") [] in
    (
      r10,
      record {
        name = strlcpy 32 name;
        idx_rx_bps = rx_bps;
        idx_tx_bps = tx_bps;
        idx_rx_pps = rx_pps;
        idx_tx_pps = tx_pps;
        idx_rx_err = rx_err;
        idx_tx_err = tx_err;
        idx_rx_drop = rx_drop;
        idx_tx_drop = tx_drop;
        idx_link = link;
        idx_up = up;
        prev_rx_bytes = 0;
        prev_tx_bytes = 0;
        prev_rx_pkts = 0;
        prev_tx_pkts = 0;
      },
    )

-- The parts before and after the first colon; `none` is the NULL of `strchr`.
unfoldable pub at_colon : Text → Option (Text × Text)
at_colon [] = none
at_colon (c ∷ cs) =
    let rest : Option (Text × Text) = elim (at_colon cs) [
      | none ↦ none
      | some (before, after) ↦ some (c ∷ before, after)
    ] in
    if c == 58 then some ([], cs) else rest

-- The counters of a line of /proc/net/dev: bytes, packets, errors and drops, received and sent.
pub record Counters : Type 0 where
  pub rxb : ℕ
  pub rxp : ℕ
  pub rxe : ℕ
  pub rxd : ℕ
  pub txb : ℕ
  pub txp : ℕ
  pub txe : ℕ
  pub txd : ℕ

module _ (F : Floats) (scanning : Scanning F) where
  open F use {Float, Double}

  -- The loop of `discover_ifaces`, after the two lines of the heading.
  unfoldable pub discover_ifaces_from :
      MetricRegistry × List Iface → List Text → MetricRegistry × List Iface
  unfolding at_colon str_eq register_iface
  discover_ifaces_from s [] = s
  discover_ifaces_from (r, ifaces) (line ∷ lines) =
      if not (ltb (length ifaces) max_ifaces) then (r, ifaces) else elim (at_colon line) [
        | none ↦ discover_ifaces_from (r, ifaces) lines
        | some (before, after) ↦
            let name = scanning.strip before in
            let (r', iface) = register_iface r name in
            let kept = discover_ifaces_from (r', ifaces ++ (iface ∷ [])) lines in
            let skipped = discover_ifaces_from (r, ifaces) lines in
            if str_eq name (codes "lo") then skipped else kept
      ]

  unfoldable pub discover_ifaces : Device → MetricRegistry → MetricRegistry × List Iface
  unfolding discover_ifaces_from
  discover_ifaces device r = elim (device.lines (codes "/proc/net/dev") 512) [
    | none ↦ (r, [])
    | some lines ↦ discover_ifaces_from (r, []) (drop 2 lines)
  ]

  -- The eight numbers that `sscanf` reads; those that it does not reach stay 0.
  abbrev pub counters_of : Text → Counters
  counters_of rest =
      let v = scanning.scan_us (codes "%lu %lu %lu %lu %*u %*u %*u %*u %lu %lu %lu %lu") rest in
      record {
        rxb = get_or v 0 0;
        rxp = get_or v 1 0;
        rxe = get_or v 2 0;
        rxd = get_or v 3 0;
        txb = get_or v 4 0;
        txp = get_or v 5 0;
        txe = get_or v 6 0;
        txd = get_or v 7 0;
      }

  unfoldable pub set_rates : Double → Iface → Counters → List Float → List Float
  unfolding set_reading rate
  set_rates seconds iface n v0 =
      let v1 = set_reading F v0 iface.idx_rx_bps (rate F n.rxb iface.prev_rx_bytes seconds) in
      let v2 = set_reading F v1 iface.idx_tx_bps (rate F n.txb iface.prev_tx_bytes seconds) in
      let v3 = set_reading F v2 iface.idx_rx_pps (rate F n.rxp iface.prev_rx_pkts seconds) in
      set_reading F v3 iface.idx_tx_pps (rate F n.txp iface.prev_tx_pkts seconds)

  abbrev state_path : Text → Text → Text
  state_path name leaf = strlcpy 160 (codes "/sys/class/net/" ++ (name ++ leaf))

  -- The rest of the loop's body for the interface of a line.
  unfoldable pub sample_iface :
      Device → Double → Bool → Iface → Counters → List Float → Iface × List Float
  unfolding set_rates set_reading read_double read_text str_eq
  sample_iface device seconds first iface n values =
      let v1 = if not first then set_rates seconds iface n values else values in
      let v2 = set_reading F v1 iface.idx_rx_err (F.of_nat n.rxe) in
      let v3 = set_reading F v2 iface.idx_tx_err (F.of_nat n.txe) in
      let v4 = set_reading F v3 iface.idx_rx_drop (F.of_nat n.rxd) in
      let v5 = set_reading F v4 iface.idx_tx_drop (F.of_nat n.txd) in
      let speed =
        read_double F scanning device (state_path iface.name (codes "/speed")) F.nan_double in
      let v6 =
        set_reading F v5 iface.idx_link (if F.lt speed (F.of_nat 0) then F.nan_double else speed) in
      let v7 : List Float =
        elim (read_text device (state_path iface.name (codes "/operstate")) 32) [
          | none ↦ v6
          | some state ↦
              set_reading F v6 iface.idx_up
                (if str_eq (scanning.strip state) (codes "up") then F.of_nat 1 else F.of_nat 0)
        ] in
      (
        record iface {
          prev_rx_bytes = n.rxb;
          prev_tx_bytes = n.txb;
          prev_rx_pkts = n.rxp;
          prev_tx_pkts = n.txp;
        },
        v7,
      )

  -- The last interface of that name takes the line.
  unfoldable pub sample_named :
      Device
      → Double
      → Bool
      → Text
      → Counters
      → List Iface
      → List Float
      → Option (List Iface × List Float)
  unfolding sample_iface str_eq
  sample_named device seconds first name n [] values = none
  sample_named device seconds first name n (iface ∷ ifaces) values =
      let (iface', values') = sample_iface device seconds first iface n values in
      elim (sample_named device seconds first name n ifaces values) [
        | some (ifaces', later) ↦ some (iface ∷ ifaces', later)
        | none ↦ if str_eq iface.name name then some (iface' ∷ ifaces, values') else none
      ]

  unfoldable pub iface_line :
      Device → Double → Bool → List Iface × List Float → Text → List Iface × List Float
  unfolding at_colon sample_named
  iface_line device seconds first (ifaces, values) line = elim (at_colon line) [
    | none ↦ (ifaces, values)
    | some (before, after) ↦
        elim (sample_named device seconds first (scanning.strip before) (counters_of after) ifaces
          values) [ none ↦ (ifaces, values) | some s ↦ s ]
  ]

  unfoldable pub iface_lines :
      Device → Double → Bool → List Iface × List Float → List Text → List Iface × List Float
  unfolding iface_line
  iface_lines device seconds first s [] = s
  iface_lines device seconds first s (line ∷ lines) =
      iface_lines device seconds first (iface_line device seconds first s line) lines

  unfoldable pub sample_ifaces :
      Device → Double → Bool → List Iface × List Float → List Iface × List Float
  unfolding iface_lines
  sample_ifaces device seconds first s = elim (device.lines (codes "/proc/net/dev") 512) [
    | none ↦ s
    | some lines ↦ iface_lines device seconds first s (drop 2 lines)
  ]

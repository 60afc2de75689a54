-- ===== src/Collect/System/Zones.antt =====
-- The thermal zones in app/collect.c: discovery and sampling.
use axis_cam_metrics.Base.{ℕ, zero, suc, ◌+◌, List, [], ◌∷◌, ◌++◌, none, some}
use axis_cam_metrics.Base.Text.{Text, codes, strlcpy}
use axis_cam_metrics.Floats.{Floats}
use axis_cam_metrics.Metrics.{MetricRegistry, metric_id_max}
use axis_cam_metrics.Collect.{sanitize, metric_label_max}
use axis_cam_metrics.Collect.Device.{Device, Scanning, read_text, reg, read_double, set_reading}

-- `Zone`
pub record Zone : Type 0 where
  pub path : Text
  pub idx : ℕ

module _ (F : Floats) (scanning : Scanning F) where
  open F use {Float, Double}

  abbrev zone_path : ℕ → Text → Text
  zone_path i leaf = codes "/sys/class/thermal/thermal_zone" ++ (scanning.print_u i ++ leaf)

  -- The loop of `discover_zones` from zone `i` on, of which there are `rounds` at most; it ends at the
  -- first that cannot be read.
  unfoldable pub discover_zones :
      Device → ℕ → ℕ → MetricRegistry × List Zone → MetricRegistry × List Zone
  unfolding read_text sanitize reg
  discover_zones device i zero s = s
  discover_zones device i (suc rounds) (r, zones) =
      elim (read_text device (zone_path i (codes "/type")) 64) [
        | none ↦ (r, zones)
        | some text ↦
            let type = scanning.strip text in
            let (r', idx) =
              reg r (strlcpy metric_id_max (codes "temp." ++ sanitize type 64))
                (strlcpy metric_label_max (type ++ codes " temperature")) (codes "C")
                (codes "temperature") in
            discover_zones device (i + 1) rounds (
              r',
              zones
                  ++ (record { path = strlcpy 128 (zone_path i (codes "/temp")); idx = idx } ∷ []),
            )
      ]

  unfoldable pub sample_zones : Device → List Zone → List Float → List Float
  unfolding set_reading read_double
  sample_zones device [] values = values
  sample_zones device (z ∷ zs) values = sample_zones device zs (
      set_reading F values z.idx
        (F.div (read_double F scanning device z.path F.nan_double) (F.of_nat 1000)))

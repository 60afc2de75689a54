-- ===== src/Collect/System/Sample.antt =====
-- The sampling of load, memory and sockets in app/collect.c.
use axis_cam_metrics.Base.{ℕ, List, [], ◌∷◌, none, some, if◌then◌else◌, ◌==◌, get_or}
use axis_cam_metrics.Base.Words.{sub64}
use axis_cam_metrics.Base.Text.{Text, codes}
use axis_cam_metrics.Floats.{Floats}
use axis_cam_metrics.Collect.Device.{Device, Scanning, read_text, read_double, set_reading}
use axis_cam_metrics.Collect.System.{System}

-- The numbers of /proc/meminfo that `sample_memory` collects.
pub record MemInfo : Type 0 where
  pub total : ℕ
  pub available : ℕ
  pub free_kb : ℕ
  pub buffers : ℕ
  pub cached : ℕ
  pub swap_total : ℕ
  pub swap_free : ℕ

abbrev pub no_memory : MemInfo
no_memory = record {
  total = 0;
  available = 0;
  free_kb = 0;
  buffers = 0;
  cached = 0;
  swap_total = 0;
  swap_free = 0;
}

module _ (F : Floats) (scanning : Scanning F) where
  open F use {Float, Double}

  -- The first format that reads the line decides.
  unfoldable pub meminfo_line : MemInfo → Text → MemInfo
  meminfo_line m line = elim (scanning.scan_u (codes "MemTotal: %lu kB") line) [
    | some v ↦ record m { total = v }
    | none ↦ elim (scanning.scan_u (codes "MemFree: %lu kB") line) [
      | some v ↦ record m { free_kb = v }
      | none ↦ elim (scanning.scan_u (codes "MemAvailable: %lu kB") line) [
        | some v ↦ record m { available = v }
        | none ↦ elim (scanning.scan_u (codes "Buffers: %lu kB") line) [
          | some v ↦ record m { buffers = v }
          | none ↦ elim (scanning.scan_u (codes "Cached: %lu kB") line) [
            | some v ↦ record m { cached = v }
            | none ↦ elim (scanning.scan_u (codes "SwapTotal: %lu kB") line) [
              | some v ↦ record m { swap_total = v }
              | none ↦ elim (scanning.scan_u (codes "SwapFree: %lu kB") line) [
                | some v ↦ record m { swap_free = v }
                | none ↦ m
              ]
            ]
          ]
        ]
      ]
    ]
  ]

  unfoldable pub meminfo_lines : MemInfo → List Text → MemInfo
  unfolding meminfo_line
  meminfo_lines m [] = m
  meminfo_lines m (line ∷ lines) = meminfo_lines (meminfo_line m line) lines

  abbrev kilobytes : ℕ → Double
  kilobytes n = F.mul (F.of_nat n) (F.of_nat 1024)

  -- `total ? 100.0 * (double)(total - rest) / (double)total : NAN`
  unfoldable pub share_of : ℕ → ℕ → Double
  share_of total rest =
      if total == 0
      then F.nan_double
      else F.div (F.mul (F.of_nat 100) (F.of_nat (sub64 total rest))) (F.of_nat total)

  unfoldable pub set_memory : System → List Float → MemInfo → List Float
  unfolding set_reading share_of
  set_memory s v0 m =
      let v1 = set_reading F v0 s.idx_mem_total (kilobytes m.total) in
      let v2 = set_reading F v1 s.idx_mem_free (kilobytes m.free_kb) in
      let v3 = set_reading F v2 s.idx_mem_available (kilobytes m.available) in
      let v4 = set_reading F v3 s.idx_mem_buffers (kilobytes m.buffers) in
      let v5 = set_reading F v4 s.idx_mem_cached (kilobytes m.cached) in
      let v6 = set_reading F v5 s.idx_mem_used (kilobytes (sub64 m.total m.available)) in
      let v7 = set_reading F v6 s.idx_mem_usage (share_of m.total m.available) in
      let v8 = set_reading F v7 s.idx_swap_total (kilobytes m.swap_total) in
      let v9 = set_reading F v8 s.idx_swap_used (kilobytes (sub64 m.swap_total m.swap_free)) in
      set_reading F v9 s.idx_swap_usage (share_of m.swap_total m.swap_free)

  unfoldable pub sample_memory : Device → System → List Float → List Float
  unfolding set_memory meminfo_lines
  sample_memory device s values = elim (device.lines (codes "/proc/meminfo") 128) [
    | none ↦ values
    | some lines ↦ set_memory s values (meminfo_lines no_memory lines)
  ]

  unfoldable pub set_load : System → List Float → Text → List Float
  unfolding set_reading
  set_load s v0 text =
      let loads = scanning.scan_doubles (codes "%lf %lf %lf") text in
      let procs = get_or (scanning.scan_us (codes "%*f %*f %*f %*u/%u") text) 0 0 in
      let v1 = set_reading F v0 s.idx_load1 (get_or loads 0 (F.of_nat 0)) in
      let v2 = set_reading F v1 s.idx_load5 (get_or loads 1 (F.of_nat 0)) in
      let v3 = set_reading F v2 s.idx_load15 (get_or loads 2 (F.of_nat 0)) in
      set_reading F v3 s.idx_procs (F.of_nat procs)

  unfoldable pub sockstat_line : System → List Float → Text → List Float
  unfolding set_reading
  sockstat_line s values line = elim (scanning.scan_u (codes "sockets: used %u") line) [
    | some v ↦ set_reading F values s.idx_sockets (F.of_nat v)
    | none ↦ elim (scanning.scan_u (codes "TCP: inuse %u") line) [
      | some v ↦ set_reading F values s.idx_tcp_inuse (F.of_nat v)
      | none ↦ elim (scanning.scan_u (codes "UDP: inuse %u") line) [
        | some v ↦ set_reading F values s.idx_udp_inuse (F.of_nat v)
        | none ↦ values
      ]
    ]
  ]

  unfoldable pub sockstat_lines : System → List Float → List Text → List Float
  unfolding sockstat_line
  sockstat_lines s values [] = values
  sockstat_lines s values (line ∷ lines) = sockstat_lines s (sockstat_line s values line) lines

  unfoldable pub sample_system : Device → System → List Float → List Float
  unfolding set_load sockstat_lines read_text read_double set_reading
  sample_system device s values =
      let loaded : List Float = elim (read_text device (codes "/proc/loadavg") 256) [
        | none ↦ values
        | some text ↦ set_load s values text
      ] in
      let timed =
        set_reading F loaded s.idx_uptime
          (read_double F scanning device (codes "/proc/uptime") F.nan_double) in
      elim (device.lines (codes "/proc/net/sockstat") 128) [
        | none ↦ timed
        | some lines ↦ sockstat_lines s timed lines
      ]

-- ===== src/Collect/Cpu.antt =====
-- The processor in app/collect.c: its fields of the collector and their discovery.
pub mod Sample
pub mod Later
pub mod Shares
use axis_cam_metrics.Base.{
  ℕ, zero, suc, ◌+◌, List, [], ◌∷◌, ◌++◌, Option, none, some, Bool, not, ◌&&◌, if◌then◌else◌, ltb,
  leb, ◌==◌, set, get_or, drop, replicate,
}
use axis_cam_metrics.Base.Words.{u64, sub64}
use axis_cam_metrics.Base.Text.{Text, codes, strlcpy, has_prefix}
use axis_cam_metrics.Floats.{Floats}
use axis_cam_metrics.Metrics.{MetricRegistry, metric_id_max}
use axis_cam_metrics.Collect.{metric_label_max}
use axis_cam_metrics.Collect.Device.{Device, Scanning, reg, read_double, set_reading, rate}

abbrev pub max_cores : ℕ
max_cores = 32

pub record CpuTimes : Type 0 where
  pub total : ℕ
  pub idle : ℕ

-- The fields of `Collector` that /proc/stat and the frequencies fill.
pub record Cpu : Type 0 where
  pub n_cores : ℕ
  pub idx_cpu_usage : ℕ
  pub idx_cpu_user : ℕ
  pub idx_cpu_system : ℕ
  pub idx_cpu_iowait : ℕ
  pub idx_cpu_irq : ℕ
  pub idx_cpu_steal : ℕ
  pub idx_cpu_freq : ℕ
  pub idx_core_usage : List ℕ
  pub idx_core_freq : List ℕ
  pub prev_total : CpuTimes
  pub prev_core : List CpuTimes
  pub prev_cpu_field : List ℕ
  pub prev_ctxt : ℕ

abbrev pub no_times : CpuTimes
no_times = record { total = 0; idle = 0 }

-- The fields after `g_new0`.
abbrev pub zeroed : Cpu
zeroed = record {
  n_cores = 0;
  idx_cpu_usage = 0;
  idx_cpu_user = 0;
  idx_cpu_system = 0;
  idx_cpu_iowait = 0;
  idx_cpu_irq = 0;
  idx_cpu_steal = 0;
  idx_cpu_freq = 0;
  idx_core_usage = replicate max_cores 0;
  idx_core_freq = replicate max_cores 0;
  prev_total = no_times;
  prev_core = replicate max_cores no_times;
  prev_cpu_field = replicate 8 0;
  prev_ctxt = 0;
}

module _ (F : Floats) (scanning : Scanning F) where
  open F use {Float, Double}

  -- The number of a core's line.
  abbrev pub core_of : Text → Option ℕ
  core_of line = scanning.scan_u (codes "cpu%u ") line

  abbrev core_id : ℕ → Text → Text
  core_id core suffix =
      strlcpy metric_id_max (codes "cpu.core" ++ (scanning.print_u core ++ suffix))

  abbrev core_label : ℕ → Text → Text
  core_label core suffix =
      strlcpy metric_label_max (codes "Core " ++ (scanning.print_u core ++ suffix))

  -- The two metrics of a core.
  unfoldable pub register_core : MetricRegistry × Cpu → ℕ → MetricRegistry × Cpu
  unfolding reg
  register_core (r0, c) core =
      let (r1, usage) =
        reg r0 (core_id core (codes ".usage")) (core_label core (codes " usage")) (codes "%")
          (codes "cpu") in
      let (r2, freq) =
        reg r1 (core_id core (codes ".freq")) (core_label core (codes " frequency")) (codes "MHz")
          (codes "cpu") in
      (
        r2,
        record c {
          idx_core_usage = set c.idx_core_usage core usage;
          idx_core_freq = set c.idx_core_freq core freq;
          n_cores = if ltb c.n_cores (core + 1) then core + 1 else c.n_cores;
        },
      )

  -- The loop of `discover_cpu`.
  unfoldable pub discover_cores : MetricRegistry × Cpu → List Text → MetricRegistry × Cpu
  unfolding register_core
  discover_cores (r, c) [] = (r, c)
  discover_cores (r, c) (line ∷ lines) = elim (core_of line) [
    | none ↦ discover_cores (r, c) lines
    | some core ↦
        let kept = discover_cores (register_core (r, c) core) lines in
        let skipped = discover_cores (r, c) lines in if leb max_cores core then skipped else kept
  ]

  -- The metrics of the whole processor.
  unfoldable pub register_cpu : MetricRegistry → Cpu → MetricRegistry × Cpu
  unfolding reg
  register_cpu r0 c =
      let (r1, usage) = reg r0 (codes "cpu.usage") (codes "CPU usage") (codes "%") (codes "cpu") in
      let (r2, user) = reg r1 (codes "cpu.user") (codes "CPU user") (codes "%") (codes "cpu") in
      let (r3, system) =
        reg r2 (codes "cpu.system") (codes "CPU system") (codes "%") (codes "cpu") in
      let (r4, iowait) =
        reg r3 (codes "cpu.iowait") (codes "CPU iowait") (codes "%") (codes "cpu") in
      let (r5, irq) = reg r4 (codes "cpu.irq") (codes "CPU irq") (codes "%") (codes "cpu") in
      let (r6, steal) = reg r5 (codes "cpu.steal") (codes "CPU steal") (codes "%") (codes "cpu") in
      let (r7, freq) =
        reg r6 (codes "cpu.freq") (codes "CPU frequency") (codes "MHz") (codes "cpu") in
      (
        r7,
        record c {
          idx_cpu_usage = usage;
          idx_cpu_user = user;
          idx_cpu_system = system;
          idx_cpu_iowait = iowait;
          idx_cpu_irq = irq;
          idx_cpu_steal = steal;
          idx_cpu_freq = freq;
        },
      )

  unfoldable pub discover_cpu : Device → MetricRegistry → MetricRegistry × Cpu
  unfolding register_cpu discover_cores
  discover_cpu device registry =
      let (r, c) = register_cpu registry zeroed in
      elim (device.lines (codes "/proc/stat") 512) [
        | none ↦ (r, c)
        | some lines ↦ discover_cores (r, c) lines
      ]

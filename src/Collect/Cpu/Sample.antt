-- ===== src/Collect/Cpu/Sample.antt =====
-- The sampling of the processor in app/collect.c.
use axis_cam_metrics.Base.{
  ℕ, zero, suc, ◌+◌, List, [], ◌∷◌, ◌++◌, Option, none, some, Bool, not, ◌&&◌, if◌then◌else◌, ltb,
  leb, ◌==◌, set, get_or, drop,
}
use axis_cam_metrics.Base.Words.{u64, sub64}
use axis_cam_metrics.Base.Text.{Text, codes, has_prefix}
use axis_cam_metrics.Floats.{Floats}
use axis_cam_metrics.Collect.Device.{Device, Scanning, read_double, set_reading, rate}
use axis_cam_metrics.Collect.Cpu.{Cpu, CpuTimes, no_times, core_of}

module _ (F : Floats) (scanning : Scanning F) where
  open F use {Float, Double}

  -- The share of the time since `prev` that was not idle.
  unfoldable pub cpu_usage : Bool → CpuTimes → CpuTimes → Double
  cpu_usage first prev now =
      let dt = sub64 now.total prev.total in
      let didle = sub64 now.idle prev.idle in
      if not first && (ltb prev.total now.total && leb didle dt)
      then F.div (F.mul (F.of_nat 100) (F.of_nat (sub64 dt didle))) (F.of_nat dt)
      else F.nan_double

  -- The times that the eight fields of a line make up.
  unfoldable pub times_of : List ℕ → CpuTimes
  times_of v = record {
    total = u64 (
        get_or v 0 0
        + get_or v 1 0
        + get_or v 2 0
        + get_or v 3 0
        + get_or v 4 0
        + get_or v 5 0
        + get_or v 6 0
        + get_or v 7 0);
    idle = u64 (get_or v 3 0 + get_or v 4 0);
  }

  -- The shares of user, system, iowait, irq and steal.
  unfoldable pub set_shares : Cpu → List Float → List ℕ → ℕ → List Float
  unfolding set_reading
  set_shares c values v dt =
      let scale = F.div (F.of_nat 100) (F.of_nat dt) in
      let prev : ℕ → ℕ = λ k. get_or c.prev_cpu_field k 0 in
      let share : ℕ → Double = λ n. F.mul (F.of_nat n) scale in
      let values1 =
        set_reading F values c.idx_cpu_user
          (share (sub64 (sub64 (u64 (get_or v 0 0 + get_or v 1 0)) (prev 0)) (prev 1))) in
      let values2 =
        set_reading F values1 c.idx_cpu_system
          (share (sub64 (sub64 (u64 (get_or v 2 0 + get_or v 6 0)) (prev 2)) (prev 6))) in
      let values3 =
        set_reading F values2 c.idx_cpu_iowait (share (sub64 (get_or v 4 0) (prev 4))) in
      let values4 = set_reading F values3 c.idx_cpu_irq (share (sub64 (get_or v 5 0) (prev 5))) in
      set_reading F values4 c.idx_cpu_steal (share (sub64 (get_or v 7 0) (prev 7)))

  -- The line of the whole processor, whose fields are `v`.
  unfoldable pub sample_total : Bool → Cpu × List Float → List ℕ → Cpu × List Float
  unfolding cpu_usage times_of set_shares set_reading
  sample_total first (c, values) v =
      let now = times_of v in
      let dt = sub64 now.total c.prev_total.total in
      let values1 = set_reading F values c.idx_cpu_usage (cpu_usage first c.prev_total now) in
      let values2 = if not first && not (dt == 0) then set_shares c values1 v dt else values1 in
      (record c { prev_cpu_field = v; prev_total = now }, values2)

  -- The line of a core.
  unfoldable pub sample_core : Bool → Cpu × List Float → ℕ → List ℕ → Cpu × List Float
  unfolding cpu_usage times_of set_reading
  sample_core first (c, values) core v =
      let now = times_of v in
      (
        record c { prev_core = set c.prev_core core now },
        set_reading F values (get_or c.idx_core_usage core 0)
            (cpu_usage first (get_or c.prev_core core no_times) now),
      )

  abbrev eight : List ℕ → List ℕ
  eight v =
      get_or v 0 0
      ∷ get_or v 1 0
      ∷ get_or v 2 0
      ∷ get_or v 3 0
      ∷ get_or v 4 0
      ∷ get_or v 5 0
      ∷ get_or v 6 0
      ∷ get_or v 7 0
      ∷ []

  -- `sscanf` of the eight numbers; those that it does not reach stay 0.
  abbrev pub fields_of : Text → List ℕ
  fields_of rest = eight (scanning.scan_us (codes "%lu %lu %lu %lu %lu %lu %lu %lu") rest)

  -- What follows the first space, it included; `none` is the NULL of `strchr`.
  unfoldable pub from_space : Text → Option Text
  from_space [] = none
  from_space (c ∷ cs) = let rest = from_space cs in if c == 32 then some (c ∷ cs) else rest

  -- A line that starts with "cpu".
  unfoldable pub cpu_line : Bool → Cpu × List Float → Text → Cpu × List Float
  unfolding sample_total sample_core from_space
  cpu_line first (c, values) line =
      let total = sample_total first (c, values) (fields_of (drop 4 line)) in
      let core : Cpu × List Float = elim (core_of F scanning line) [
        | none ↦ (c, values)
        | some core ↦ elim (from_space line) [
          | none ↦ (c, values)
          | some rest ↦
              if leb c.n_cores core
              then (c, values)
              else sample_core first (c, values) core (fields_of rest)
        ]
      ] in
      if get_or line 3 0 == 32 then total else core

  -- A line of /proc/stat; `idx_ctxt` and `idx_procs_running` are the system's.
  unfoldable pub stat_line : Double → Bool → ℕ → ℕ → Cpu × List Float → Text → Cpu × List Float
  unfolding cpu_line has_prefix set_reading rate
  stat_line seconds first idx_ctxt idx_procs_running (c, values) line =
      let ctxt = scanning.strtoull (drop 5 line) 10 in
      let counted =
        if not first
        then set_reading F values idx_ctxt (rate F ctxt c.prev_ctxt seconds)
        else values in
      if has_prefix line (codes "ctxt ")
      then (record c { prev_ctxt = ctxt }, counted)
      else if has_prefix line (codes "procs_running ")
      then (
        c,
        set_reading F values idx_procs_running (F.of_nat (scanning.strtoull (drop 14 line) 10)),
      )
      else if not (has_prefix line (codes "cpu"))
      then (c, values)
      else cpu_line first (c, values) line

  unfoldable pub stat_lines :
      Double → Bool → ℕ → ℕ → Cpu × List Float → List Text → Cpu × List Float
  unfolding stat_line
  stat_lines seconds first idx_ctxt idx_procs_running s [] = s
  stat_lines seconds first idx_ctxt idx_procs_running s (line ∷ lines) =
      stat_lines seconds first idx_ctxt idx_procs_running
        (stat_line seconds first idx_ctxt idx_procs_running s line) lines

  abbrev pub freq_path : ℕ → Text
  freq_path core =
      codes "/sys/devices/system/cpu/cpu"
      ++ (scanning.print_u core ++ codes "/cpufreq/scaling_cur_freq")

  -- The loop over the frequencies of `rounds` cores from `core` on: the values, the sum and the number
  -- of those read.
  unfoldable pub sample_freqs :
      Device → List ℕ → ℕ → ℕ → List Float × Double × ℕ → List Float × Double × ℕ
  unfolding read_double set_reading
  sample_freqs device indices core zero s = s
  sample_freqs device indices core (suc rounds) (values, sum, n) =
      let khz = read_double F scanning device (freq_path core) F.nan_double in
      let mhz = F.div khz (F.of_nat 1000) in
      let next =
        if not (F.is_nan_double khz)
        then (set_reading F values (get_or indices core 0) mhz, F.add sum mhz, n + 1)
        else (values, sum, n) in
      sample_freqs device indices (core + 1) rounds next

  unfoldable pub sample_cpu : Device → Double → Bool → ℕ → ℕ → Cpu × List Float → Cpu × List Float
  unfolding stat_lines sample_freqs set_reading
  sample_cpu device seconds first idx_ctxt idx_procs_running (c, values) =
      elim (device.lines (codes "/proc/stat") 512) [
        | none ↦ (c, values)
        | some lines ↦
            let (c', values') =
              stat_lines seconds first idx_ctxt idx_procs_running (c, values) lines in
            let (values'', sum, n) =
              sample_freqs device c'.idx_core_freq 0 c'.n_cores (values', F.of_nat 0, 0) in
            (
              c',
              set_reading F values'' c'.idx_cpu_freq
                  (if n == 0 then F.nan_double else F.div sum (F.of_nat n)),
            )
      ]

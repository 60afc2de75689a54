-- ===== src/Collect/Cpu/Shares.antt =====
-- The share of a processor's time that a sample gives, and the index of a core.
use axis_cam_metrics.Base.{
  ℕ, zero, suc, ◌-◌, ◌^◌, ◌<◌, ◌≡◌, ◌≢◌, inl, inr, refl, sym, ap, ◌∙◌, List, [], ◌∷◌, some, Bool,
  true, false, not, ◌&&◌, ltb, leb, ◌==◌, if◌then◌else◌, arith, All, get_or, length, replicate,
  Bool-cases, Option-cases, if_ind, get_or-set_self, get_or-set_ne, leb→le, ltb→lt,
}
use axis_cam_metrics.Base.Words.{sub64}
use axis_cam_metrics.Base.Text.{Text, codes}
use axis_cam_metrics.Floats.{Floats}
use axis_cam_metrics.Metrics.{
  MetricRegistry, metrics_registry_init, metrics_register, metrics_find, find_from, grow,
}
use axis_cam_metrics.Collect.Device.{Device, Scanning, reg, set_reading}
use axis_cam_metrics.Collect.Cpu.{
  Cpu, CpuTimes, no_times, max_cores, zeroed, core_of, register_core, discover_cores, register_cpu,
  discover_cpu,
}
use axis_cam_metrics.Collect.Cpu.Later.{Sampling, met, met-Fixed}
use axis_cam_metrics.Collect.Cpu.Sample.{
  cpu_usage, times_of, sample_core, cpu_line, fields_of, from_space,
}

module _ (F : Floats) (scanning : Scanning F) where
  open F use {Float, Double}

  -- What the usage between two times should be: the busy part of the time that passed.
  abbrev pub share : ℕ → ℕ → Double
  share busy whole = F.div (F.mul (F.of_nat 100) (F.of_nat busy)) (F.of_nat whole)

  -- What the usage should be, without wrap-around: nothing for a first sample, where no time has passed,
  -- or where the idle time has gone back or has grown by more than that.
  abbrev pub exact_usage : Bool → CpuTimes → CpuTimes → Double
  exact_usage first prev now =
      if not first
        && (ltb prev.total now.total
            && (leb prev.idle now.idle && leb (now.idle - prev.idle) (now.total - prev.total)))
      then share (now.total - prev.total - (now.idle - prev.idle)) (now.total - prev.total)
      else F.nan_double

  -- For counters below 2 ^ 63 the usage is the busy part of the time that has passed, out of that time,
  -- so it is at most the whole, and no number where the counters do not allow one.
  pub cpu_usage-exact :
      (first : Bool) (prev now : CpuTimes)
      → prev.total < 2 ^ 63
      → now.total < 2 ^ 63
      → prev.idle < 2 ^ 63
      → now.idle < 2 ^ 63
      → cpu_usage F scanning first prev now ≡ exact_usage first prev now
  unfolding cpu_usage
  cpu_usage-exact true prev now a b c d = refl
  cpu_usage-exact false prev now a b c d = elim (Bool-cases (ltb prev.total now.total)) [
    | inr e ↦ rw e refl
    | inl e ↦ elim (Bool-cases (leb prev.idle now.idle)) [
      | inl f ↦
          let later = ltb→lt _ _ e in
          let grown = leb→le _ _ f in
          let dt : sub64 now.total prev.total ≡ now.total - prev.total = omega arith in
          let didle : sub64 now.idle prev.idle ≡ now.idle - prev.idle = omega arith in
          rw (dt, didle, e, f)
            (elim (Bool-cases (leb (now.idle - prev.idle) (now.total - prev.total))) [
              | inl g ↦
                  let fits = leb→le _ _ g in
                  let busy : sub64 (now.total - prev.total) (now.idle - prev.idle)
                      ≡ now.total - prev.total - (now.idle - prev.idle) =
                    omega arith in
                  rw (g, busy) refl
              | inr g ↦ rw g refl
            ])
      | inr f ↦
          let later = ltb→lt _ _ e in
          let dt : sub64 now.total prev.total ≡ now.total - prev.total = omega arith in
          let wrapped : leb (sub64 now.idle prev.idle) (sub64 now.total prev.total) ≡ false =
            ground arith in
          rw (e, f, wrapped) refl
    ]
  ]

  -- What the lines of other cores leave alone.
  abbrev Kept : ℕ → Cpu → MetricRegistry × Cpu → Type 0
  Kept k c s =
      (get_or s.1.idx_core_usage k 0 ≡ get_or c.idx_core_usage k 0)
      × (s.1.idx_cpu_usage ≡ c.idx_cpu_usage)

  abbrev IsAbsent : ℕ → List Text → Type 0
  IsAbsent k lines = All (λ line. core_of F scanning line ≢ some k) lines

  discover_cores-Kept :
      (k : ℕ) (lines : List Text) (r : MetricRegistry) (c : Cpu)
      → IsAbsent k lines
      → Kept k c (discover_cores F scanning (r, c) lines)
  unfolding discover_cores register_core
  discover_cores-Kept k [] r c h = (refl, refl)
  discover_cores-Kept k (line ∷ lines) r c (ne, h) = elim (Option-cases (core_of F scanning line)) [
    | inl e ↦ rw (discover_cores, e) (discover_cores-Kept k lines r c h)
    | inr (core, e) ↦
        let other : core ≢ k = λ same. ne (e ∙ ap some same) in
        let next = register_core F scanning (r, c) core in
        let (index, usage) = discover_cores-Kept k lines next.0 next.1 h in
        rw (discover_cores, e)
          (if_ind (Kept k c) (leb max_cores core) {x = discover_cores F scanning (r, c) lines}
            {y = discover_cores F scanning next lines} (λ _. discover_cores-Kept k lines r c h)
            (λ _. (index ∙ get_or-set_ne c.idx_core_usage core k _ 0 other, usage)))
  ]

  get_or-replicate : (n k : ℕ) → get_or {A = ℕ} (replicate n 0) k 0 ≡ 0
  get_or-replicate zero k = refl
  get_or-replicate (suc n) zero = refl
  get_or-replicate (suc n) (suc k) = get_or-replicate n k

  discover_cpu-IsAbsent :
      (device : Device) (k : ℕ) (lines : List Text)
      → device.lines (codes "/proc/stat") 512 ≡ some lines
      → IsAbsent k lines
      → let c = (discover_cpu F scanning device metrics_registry_init).1 in
        get_or c.idx_core_usage k 0 ≡ c.idx_cpu_usage
  unfolding discover_cpu register_cpu reg metrics_register metrics_find find_from
      metrics_registry_init grow
  discover_cpu-IsAbsent device k lines e h =
      let start = register_cpu F scanning metrics_registry_init zeroed in
      let (index, usage) = discover_cores-Kept k lines start.0 start.1 h in
      rw (discover_cpu, e) (index ∙ get_or-replicate max_cores k ∙ sym usage)

  -- A core that /proc/stat did not list at start-up, but a core of higher number was, has the index of
  -- the whole processor in every later sample, whatever the samples before and the lines above it: the
  -- line of that core, once it is listed and has numbers after a space, puts the core's usage in the
  -- place of the whole processor's, if the values of the sample have that place.
  pub unlisted_core_usage :
      (device : Device) (k : ℕ) (lines : List Text) (idx_ctxt idx_procs_running : ℕ)
      (h : List (Sampling F scanning)) (seconds : Double) (first : Bool) (above : List Text)
      (values : List Float) (line rest : Text)
      → device.lines (codes "/proc/stat") 512 ≡ some lines
      → IsAbsent k lines
      → let found = (discover_cpu F scanning device metrics_registry_init).1 in
        let (c, values') =
          met F scanning idx_ctxt idx_procs_running found h seconds first above values in
        k < found.n_cores
        → found.idx_cpu_usage < length values'
        → (get_or line 3 0 == 32) ≡ false
        → core_of F scanning line ≡ some k
        → from_space F scanning line ≡ some rest
        → get_or (cpu_line F scanning first (c, values') line).1 found.idx_cpu_usage F.nan
          ≡ F.narrow (
              cpu_usage F scanning first
                (get_or c.prev_core k no_times)
                (times_of F scanning (fields_of F scanning rest)))
  unfolding cpu_line sample_core set_reading
  unlisted_core_usage device k lines idx_ctxt idx_procs_running h seconds first above values line
        rest listed unlisted known room one is_k text =
      let found = (discover_cpu F scanning device metrics_registry_init).1 in
      let (c, values') =
        met F scanning idx_ctxt idx_procs_running found h seconds first above values in
      let fixed =
        met-Fixed F scanning idx_ctxt idx_procs_running found h seconds first above values in
      let v = F.narrow (
        cpu_usage F scanning first (get_or c.prev_core k no_times)
          (times_of F scanning (fields_of F scanning rest))) in
      let same : get_or c.idx_core_usage k 0 ≡ found.idx_cpu_usage =
        ap (λ (is : List ℕ). get_or is k 0) fixed.same_core
        ∙ discover_cpu-IsAbsent device k lines listed unlisted in
      let within : leb c.n_cores k ≡ false = ground (arith, fixed.same_cores) in
      rw (cpu_line, one, is_k, text, within, same)
        (get_or-set_self values' found.idx_cpu_usage v F.nan room)

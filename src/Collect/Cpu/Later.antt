-- ===== src/Collect/Cpu/Later.antt =====
-- What the samples of the processor leave alone: the indices that its discovery found.
use axis_cam_metrics.Base.{
  ℕ, ◌≡◌, ◌∙◌, refl, List, [], ◌∷◌, none, some, Bool, not, leb, ◌==◌, get_or, if◌then◌else◌, if_ind,
  inl, inr, Option-cases,
}
use axis_cam_metrics.Base.Text.{Text, codes, has_prefix}
use axis_cam_metrics.Floats.{Floats}
use axis_cam_metrics.Collect.Device.{Device, Scanning}
use axis_cam_metrics.Collect.Cpu.{Cpu, core_of}
use axis_cam_metrics.Collect.Cpu.Sample.{
  sample_total, sample_core, cpu_line, stat_line, stat_lines, sample_cpu, fields_of, from_space,
}

module _ (F : Floats) (scanning : Scanning F) where
  open F use {Float, Double}

  -- The same indices and number of cores.
  pub record Fixed (c c' : Cpu) : Type 0 where
    pub same_usage : c'.idx_cpu_usage ≡ c.idx_cpu_usage
    pub same_core : c'.idx_core_usage ≡ c.idx_core_usage
    pub same_cores : c'.n_cores ≡ c.n_cores

  Fixed-refl : (c : Cpu) → Fixed c c
  Fixed-refl c = record { same_usage = refl; same_core = refl; same_cores = refl }

  Fixed-trans : (a b c : Cpu) → Fixed a b → Fixed b c → Fixed a c
  Fixed-trans a b c h k = record {
    same_usage = k.same_usage ∙ h.same_usage;
    same_core = k.same_core ∙ h.same_core;
    same_cores = k.same_cores ∙ h.same_cores;
  }

  abbrev From : Cpu → Cpu × List Float → Type 0
  From c s = Fixed c s.0

  module _ (first : Bool) (c : Cpu) (values : List Float) (line : Text) where
    core_line-Fixed : From c (elim (core_of F scanning line) [
      | none ↦ (c, values)
      | some core ↦ elim (from_space F scanning line) [
        | none ↦ (c, values)
        | some rest ↦
            if leb c.n_cores core
            then (c, values)
            else sample_core F scanning first (c, values) core (fields_of F scanning rest)
      ]
    ])
    unfolding sample_core
    core_line-Fixed = elim (Option-cases (core_of F scanning line)) [
      | inl e ↦ rw e (Fixed-refl c)
      | inr (core, e) ↦ rw e (elim (Option-cases (from_space F scanning line)) [
        | inl f ↦ rw f (Fixed-refl c)
        | inr (rest, f) ↦ rw f (
            if_ind (From c) (leb c.n_cores core) {x = (c, values)}
              {y = sample_core F scanning first (c, values) core (fields_of F scanning rest)}
              (λ _. Fixed-refl c)
              (λ _. record { same_usage = refl; same_core = refl; same_cores = refl }))
      ])
    ]

    cpu_line-Fixed : From c (cpu_line F scanning first (c, values) line)
    unfolding cpu_line sample_total
    cpu_line-Fixed =
        if_ind (From c) (get_or line 3 0 == 32)
          (λ _. record { same_usage = refl; same_core = refl; same_cores = refl })
          (λ _. core_line-Fixed)

  module _ (seconds : Double) (first : Bool) (idx_ctxt idx_procs_running : ℕ) where
    stat_line-Fixed :
        (s : Cpu × List Float) (line : Text)
        → From s.0 (stat_line F scanning seconds first idx_ctxt idx_procs_running s line)
    unfolding stat_line
    stat_line-Fixed (c, values) line =
        if_ind (From c) (has_prefix line (codes "ctxt "))
          (λ _. record { same_usage = refl; same_core = refl; same_cores = refl })
          (λ _.
            if_ind (From c) (has_prefix line (codes "procs_running ")) (λ _. Fixed-refl c)
              (λ _.
                if_ind (From c) (not (has_prefix line (codes "cpu"))) (λ _. Fixed-refl c)
                  (λ _. cpu_line-Fixed first c values line)))

    pub stat_lines-Fixed :
        (lines : List Text) (s : Cpu × List Float)
        → From s.0 (stat_lines F scanning seconds first idx_ctxt idx_procs_running s lines)
    unfolding stat_lines
    stat_lines-Fixed [] s = Fixed-refl s.0
    stat_lines-Fixed (line ∷ lines) s =
        let s' = stat_line F scanning seconds first idx_ctxt idx_procs_running s line in
        Fixed-trans s.0 s'.0 _ (stat_line-Fixed s line) (stat_lines-Fixed lines s')

    sample_cpu-Fixed :
        (device : Device) (s : Cpu × List Float)
        → From s.0 (sample_cpu F scanning device seconds first idx_ctxt idx_procs_running s)
    unfolding sample_cpu
    sample_cpu-Fixed device (c, values) =
        elim (Option-cases (device.lines (codes "/proc/stat") 512)) [
          | inl e ↦ rw (sample_cpu, e) (Fixed-refl c)
          | inr (lines, e) ↦ rw (sample_cpu, e) (stat_lines-Fixed lines (c, values))
        ]

  -- What a sample is given beside the collector.
  pub record Sampling : Type 0 where
    pub device : Device
    pub seconds : Double
    pub first : Bool
    pub values : List Float

  -- The processor's fields after samples, the newest first.
  unfoldable pub after_samples : ℕ → ℕ → Cpu → List Sampling → Cpu
  after_samples idx_ctxt idx_procs_running c [] = c
  after_samples idx_ctxt idx_procs_running c (x ∷ h) =
      (sample_cpu F scanning x.device x.seconds x.first idx_ctxt idx_procs_running
        (after_samples idx_ctxt idx_procs_running c h, x.values)).0

  after_samples-Fixed :
      (idx_ctxt idx_procs_running : ℕ) (c : Cpu) (h : List Sampling)
      → Fixed c (after_samples idx_ctxt idx_procs_running c h)
  unfolding after_samples
  after_samples-Fixed idx_ctxt idx_procs_running c [] = Fixed-refl c
  after_samples-Fixed idx_ctxt idx_procs_running c (x ∷ h) =
      let c' = after_samples idx_ctxt idx_procs_running c h in
      Fixed-trans c c' _ (after_samples-Fixed idx_ctxt idx_procs_running c h)
        (sample_cpu-Fixed x.seconds x.first idx_ctxt idx_procs_running x.device (c', x.values))

  -- The state that a line of /proc/stat meets: after the earlier samples and the earlier lines.
  abbrev pub met :
      ℕ → ℕ → Cpu → List Sampling → Double → Bool → List Text → List Float → Cpu × List Float
  met idx_ctxt idx_procs_running c h seconds first lines values =
      stat_lines F scanning seconds first idx_ctxt idx_procs_running
        (after_samples idx_ctxt idx_procs_running c h, values) lines

  pub met-Fixed :
      (idx_ctxt idx_procs_running : ℕ) (c : Cpu) (h : List Sampling) (seconds : Double)
      (first : Bool) (lines : List Text) (values : List Float)
      → Fixed c (met idx_ctxt idx_procs_running c h seconds first lines values).0
  met-Fixed idx_ctxt idx_procs_running c h seconds first lines values =
      let c' = after_samples idx_ctxt idx_procs_running c h in
      Fixed-trans c c' _ (after_samples-Fixed idx_ctxt idx_procs_running c h)
        (stat_lines-Fixed seconds first idx_ctxt idx_procs_running lines (c', values))

-- ===== src/Collect/Collector.antt =====
-- The collector of app/collect.c as a whole: start-up and one sample.
pub mod Held
use axis_cam_metrics.Base.{
  tabulate, get_or, ℕ, ◌+◌, List, [], ◌∷◌, Bool, false, if◌then◌else◌, ◌==◌, leb, replicate,
}
use axis_cam_metrics.Base.Int.{pos, ◌-ℤ◌}
use axis_cam_metrics.Base.Text.{Text}
use axis_cam_metrics.Floats.{Floats}
use axis_cam_metrics.Metrics.{MetricRegistry, count}
use axis_cam_metrics.Collect.{Mount, MountLine, discover_mounts}
use axis_cam_metrics.Collect.Device.{Device, Scanning}
use axis_cam_metrics.Collect.Cpu.{Cpu, discover_cpu}
use axis_cam_metrics.Collect.Cpu.Sample.{sample_cpu}
use axis_cam_metrics.Collect.System.{System, discover_system}
use axis_cam_metrics.Collect.System.Sample.{sample_memory, sample_system}
use axis_cam_metrics.Collect.System.Zones.{Zone, discover_zones, sample_zones}
use axis_cam_metrics.Collect.Net.{Iface, discover_ifaces, sample_ifaces}
use axis_cam_metrics.Collect.Disks.{Disk, discover_disks, sample_disks, sample_mounts}
use axis_cam_metrics.Collect.Slow.{Slow, no_slow, discover_sensors, mark_slow, sample_sensors}
use axis_cam_metrics.Collect.Slow.Poe.{discover_poe, sample_poe}
use axis_cam_metrics.Collect.Slow.Flash.{discover_flash_wear, sample_flash_wear}

abbrev pub max_zones : ℕ
max_zones = 16

-- `SLOW_INTERVAL_S * G_USEC_PER_SEC`
abbrev pub slow_interval_us : ℕ
slow_interval_us = 30000000

module _ (F : Floats) where
  open F use {Float, Double}

  -- `Collector`, with the fields of each source together.
  pub record Collector : Type 0 where
    pub registry : MetricRegistry
    pub cpu : Cpu
    pub system : System
    pub ifaces : List Iface
    pub disks : List Disk
    pub mounts : List Mount
    pub zones : List Zone
    pub slow : Slow
    pub slow_cache : List Float
    pub is_slow : List Bool
    pub slow_deadline : ℕ
    pub prev_us : ℕ

  -- The mounts that `fscanf` reads are an argument; there are none where the file cannot be opened.
  unfoldable pub collector_new : Scanning F → Device → List MountLine → MetricRegistry → Collector
  unfolding discover_cpu discover_system discover_zones discover_ifaces discover_disks
      discover_mounts discover_sensors discover_poe discover_flash_wear mark_slow
  collector_new scanning device mount_lines r0 =
      let (r1, cpu) = discover_cpu F scanning device r0 in
      let (r2, system) = discover_system r1 in
      let (r3, zones) = discover_zones F scanning device 0 max_zones (r2, []) in
      let (r4, ifaces) = discover_ifaces F scanning device r3 in
      let (r5, disks) = discover_disks F scanning device r4 in
      let (r6, mounts) = discover_mounts r5 mount_lines in
      let (r7, s7) = discover_sensors F scanning device (r6, no_slow) in
      let (r8, s8) = discover_poe F scanning device (r7, s7) in
      let (r9, slow) = discover_flash_wear device (r8, s8) in
      record {
        registry = r9;
        cpu = cpu;
        system = system;
        ifaces = ifaces;
        disks = disks;
        mounts = mounts;
        zones = zones;
        slow = slow;
        slow_cache = replicate (count r9) F.nan;
        is_slow = mark_slow slow (replicate (count r9) false);
        slow_deadline = 0;
        prev_us = 0;
      }

  -- The loop that puts the held readings into a sample of `n` values.
  unfoldable pub hold : ℕ → List Bool → List Float → List Float → List Float
  hold n marks cache values =
      tabulate n (λ i. if get_or marks i false then get_or cache i F.nan else get_or values i F.nan)

  -- The calls that read the fast sources.
  unfoldable pub sample_fast :
      Scanning F → Device → Double → Bool → Collector → List Float → Collector × List Float
  unfolding sample_cpu sample_memory sample_system sample_zones sample_ifaces sample_disks
      sample_mounts
  sample_fast scanning device seconds first c v0 =
      let (cpu, v1) =
        sample_cpu F scanning device seconds first c.system.idx_ctxt c.system.idx_procs_running
          (c.cpu, v0) in
      let v2 = sample_memory F scanning device c.system v1 in
      let v3 = sample_system F scanning device c.system v2 in
      let v4 = sample_zones F scanning device c.zones v3 in
      let (ifaces, v5) = sample_ifaces F scanning device seconds first (c.ifaces, v4) in
      let (disks, v6) = sample_disks F scanning device seconds first (c.disks, v5) in
      (
        record c { cpu = cpu; ifaces = ifaces; disks = disks },
        sample_mounts F scanning device c.mounts v6,
      )

  -- The calls that read the slow sources, into the cache.
  unfoldable pub sample_slow : Scanning F → Device → Collector → Collector
  unfolding sample_sensors sample_poe sample_flash_wear
  sample_slow scanning device c = record c {
    slow_cache = sample_flash_wear F scanning device c.slow (
        sample_poe F scanning device c.slow (sample_sensors F scanning device c.slow c.slow_cache));
    slow_deadline = device.now + slow_interval_us;
  }

  -- The round of the slow sources, where it is due.
  unfoldable pub refresh : Scanning F → Device → Collector → Collector
  unfolding sample_slow
  refresh scanning device c =
      if leb c.slow_deadline device.now then sample_slow scanning device c else c

  -- The first part of `collector_sample`, up to the slow sources.
  unfoldable pub sample_now : Scanning F → Device → Collector → Collector × List Float
  unfolding sample_fast
  sample_now scanning device c =
      let first = c.prev_us == 0 in
      let seconds =
        if first
        then F.of_nat 0
        else F.div (F.of_int (pos device.now -ℤ pos c.prev_us)) (F.of_nat 1000000) in
      sample_fast scanning device seconds first c (replicate (count c.registry) F.nan)

  unfoldable pub collector_sample : Scanning F → Device → Collector → Collector × List Float
  unfolding sample_now refresh hold
  collector_sample scanning device c =
      let (c1, values) = sample_now scanning device c in
      let c2 = refresh scanning device c1 in
      (record c2 { prev_us = device.now }, hold (count c.registry) c2.is_slow c2.slow_cache values)

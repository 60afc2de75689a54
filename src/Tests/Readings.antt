-- ===== src/Tests/Readings.antt =====
-- The collector on a small device: two cores of three, and a slow metric.
use axis_cam_metrics.Base.{
  ℕ, ◌-◌, ◌+◌, ◌*◌, ◌≡◌, refl, List, [], ◌∷◌, Option, none, some, true, false, ◌&&◌, leb,
  if◌then◌else◌, arith, get_or, All,
}
use axis_cam_metrics.Base.Text.{Text, codes}
use axis_cam_metrics.Metrics.{metrics_registry_init}
use axis_cam_metrics.Collect.Device.{Device, Scanning}
use axis_cam_metrics.Collect.Cpu.{Cpu, CpuTimes, no_times, discover_cpu, zeroed}
use axis_cam_metrics.Collect.Cpu.Later.{Sampling, met, after_samples}
use axis_cam_metrics.Collect.Cpu.Sample.{
  stat_lines, sample_cpu, cpu_usage, cpu_line, times_of, fields_of, from_space,
}
use axis_cam_metrics.Collect.Cpu.Shares.{cpu_usage-exact, exact_usage, unlisted_core_usage}
use axis_cam_metrics.Collect.Slow.{no_slow}
use axis_cam_metrics.Collect.System.{System}
use axis_cam_metrics.Collect.Collector.{Collector, collector_sample}
use axis_cam_metrics.Collect.Collector.Held.{samples, samples-held}
use axis_cam_metrics.Tests.Samples.{whole, registry}

abbrev digit : Text → Option ℕ
digit line = let c = get_or line 3 0 in if leb 48 c && leb c 57 then some (c - 48) else none

abbrev scanning : Scanning whole
scanning = record {
  strtod = λ t. some 1;
  strtoull = λ t base. 7;
  strip = λ t. t;
  print_u = λ n. (48 + n) ∷ [];
  scan_u = λ format line. digit line;
  scan_us = λ format line. (10 * (get_or line 1 0 - 48)) ∷ 0 ∷ 0 ∷ (get_or line 1 0 - 48) ∷ [];
  scan_doubles = λ format line. [];
  scan_disk_name = λ line. none;
  scan_disk = λ line. none;
  scan_sensor = λ line. none;
}

abbrev stat : List Text
stat = codes "cpu 3" ∷ codes "cpu0 1" ∷ codes "cpu2 2" ∷ []

abbrev device_at : ℕ → Device
device_at now = record {
  contents = λ path. none;
  lines = λ path size. some stat;
  is_dir = λ path. false;
  exists = λ path. false;
  dir = λ path. none;
  statvfs = λ path. none;
  vapix_get = λ path. none;
  now = now;
}

abbrev earlier : CpuTimes
earlier = record { total = 100; idle = 60 }

abbrev later : CpuTimes
later = record { total = 180; idle = 80 }

cpu_usage_example :
    cpu_usage whole scanning false earlier later ≡ exact_usage whole scanning false earlier later
cpu_usage_example =
    cpu_usage-exact whole scanning false earlier later (omega arith) (omega arith) (omega arith)
      (omega arith)

-- An earlier sample, in which the core that was not listed at start-up is.
abbrev sampled : Sampling whole scanning
sampled = record {
  device = record (device_at 6) { lines = λ path size. some (codes "cpu 3" ∷ codes "cpu1 3" ∷ []) };
  seconds = some 5;
  first = true;
  values = none ∷ [];
}

abbrev found : Cpu
found = (discover_cpu whole scanning (device_at 5) metrics_registry_init).1

unlisted_core_example :
    get_or
      (cpu_line whole scanning false
        (met whole scanning 99 99 found
          (sampled ∷ [])
          (some 5)
          false
          (codes "cpu 3" ∷ [])
          (some 3 ∷ []))
        (codes "cpu1 9")).1
      found.idx_cpu_usage
      none
    ≡ cpu_usage whole scanning false
        (get_or
          (met whole scanning 99 99 found
            (sampled ∷ [])
            (some 5)
            false
            (codes "cpu 3" ∷ [])
            (some 3 ∷ [])).0.prev_core
          1
          no_times)
        (times_of whole scanning (fields_of whole scanning (codes " 9")))
unfolding discover_cpu metrics_registry_init from_space stat_lines after_samples sample_cpu
unlisted_core_example =
    unlisted_core_usage whole scanning (device_at 5) 1 stat 99 99 (sampled ∷ []) (some 5) false
      (codes "cpu 3" ∷ []) (some 3 ∷ []) (codes "cpu1 9") (codes " 9") refl
      ((λ e. cc e), ((λ e. cc e), ((λ e. cc e), tt))) (omega arith) (omega arith) refl refl refl

abbrev system : System
system = record {
  idx_load1 = 0;
  idx_load5 = 0;
  idx_load15 = 0;
  idx_mem_total = 0;
  idx_mem_used = 0;
  idx_mem_free = 0;
  idx_mem_available = 0;
  idx_mem_buffers = 0;
  idx_mem_cached = 0;
  idx_mem_usage = 0;
  idx_swap_total = 0;
  idx_swap_used = 0;
  idx_swap_usage = 0;
  idx_uptime = 0;
  idx_procs = 0;
  idx_procs_running = 0;
  idx_ctxt = 0;
  idx_sockets = 0;
  idx_tcp_inuse = 0;
  idx_udp_inuse = 0;
}

-- A collector whose only metric is slow.
abbrev collector : Collector whole
collector = record {
  registry = registry;
  cpu = zeroed;
  system = system;
  ifaces = [];
  disks = [];
  mounts = [];
  zones = [];
  slow = no_slow;
  slow_cache = some 40 ∷ [];
  is_slow = true ∷ [];
  slow_deadline = 0;
  prev_us = 0;
}

samples-held_example :
    All
      (λ v.
        get_or v 0 none ≡ get_or (collector_sample whole scanning (device_at 9) collector).1 0 none)
      (samples whole scanning
        (device_at 1000009 ∷ device_at 29000009 ∷ [])
        (collector_sample whole scanning (device_at 9) collector).0)
samples-held_example =
    samples-held whole scanning (device_at 9) (device_at 1000009 ∷ device_at 29000009 ∷ [])
      collector 0 (omega arith) refl (omega arith) (grind arith)

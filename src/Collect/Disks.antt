-- ===== src/Collect/Disks.antt =====
-- Disks and the space of filesystems in app/collect.c: discovery and sampling.
use axis_cam_metrics.Base.{
  ℕ, List, [], ◌∷◌, ◌++◌, Option, none, some, Bool, false, not, ◌||◌, if◌then◌else◌, ◌==◌, get_or,
  length, ltb,
}
use axis_cam_metrics.Base.Text.{Text, codes, str_eq, strlcpy, has_prefix}
use axis_cam_metrics.Floats.{Floats}
use axis_cam_metrics.Metrics.{MetricRegistry, metric_id_max}
use axis_cam_metrics.Collect.{Mount, sanitize, metric_label_max}
use axis_cam_metrics.Collect.Device.{Device, Scanning, Statvfs, reg, set_reading, rate}

abbrev pub max_disks : ℕ
max_disks = 24

-- `Disk`
pub record Disk : Type 0 where
  pub name : Text
  pub idx_read_bps : ℕ
  pub idx_write_bps : ℕ
  pub idx_read_iops : ℕ
  pub idx_write_iops : ℕ
  pub idx_util : ℕ
  pub prev_read_sectors : ℕ
  pub prev_write_sectors : ℕ
  pub prev_reads : ℕ
  pub prev_writes : ℕ
  pub prev_io_ms : ℕ

-- `DISK_METRIC`
unfoldable pub disk_metric : MetricRegistry → Text → Text → Text → Text → MetricRegistry × ℕ
unfolding reg sanitize
disk_metric r name suffix text unit =
    reg r (strlcpy metric_id_max (codes "disk." ++ (sanitize name 32 ++ (codes "." ++ suffix))))
      (strlcpy metric_label_max (name ++ (codes " " ++ text))) unit (codes "disk")

-- The five metrics of a disk.
unfoldable pub register_disk : MetricRegistry → Text → MetricRegistry × Disk
unfolding disk_metric
register_disk r0 name =
    let (r1, read_bps) = disk_metric r0 name (codes "read_bps") (codes "read") (codes "B/s") in
    let (r2, write_bps) = disk_metric r1 name (codes "write_bps") (codes "write") (codes "B/s") in
    let (r3, read_iops) = disk_metric r2 name (codes "read_iops") (codes "read ops") (codes "/s") in
    let (r4, write_iops) =
      disk_metric r3 name (codes "write_iops") (codes "write ops") (codes "/s") in
    let (r5, util) = disk_metric r4 name (codes "util") (codes "utilisation") (codes "%") in
    (
      r5,
      record {
        name = strlcpy 32 name;
        idx_read_bps = read_bps;
        idx_write_bps = write_bps;
        idx_read_iops = read_iops;
        idx_write_iops = write_iops;
        idx_util = util;
        prev_read_sectors = 0;
        prev_write_sectors = 0;
        prev_reads = 0;
        prev_writes = 0;
        prev_io_ms = 0;
      },
    )

module _ (F : Floats) (scanning : Scanning F) where
  open F use {Float, Double}

  -- The names that are tracked: no loop or RAM disk, and whole devices only.
  unfoldable pub is_disk : Device → Text → Bool
  unfolding has_prefix
  is_disk device name =
      if has_prefix name (codes "loop") || has_prefix name (codes "ram")
      then false
      else device.is_dir (strlcpy 128 (codes "/sys/block/" ++ name))

  -- The loop of `discover_disks`.
  unfoldable pub discover_disks_from :
      Device → MetricRegistry × List Disk → List Text → MetricRegistry × List Disk
  unfolding is_disk register_disk
  discover_disks_from device s [] = s
  discover_disks_from device (r, disks) (line ∷ lines) =
      if not (ltb (length disks) max_disks)
      then (r, disks)
      else elim (scanning.scan_disk_name line) [
        | none ↦ discover_disks_from device (r, disks) lines
        | some name ↦
            let (r', disk) = register_disk r name in
            let kept = discover_disks_from device (r', disks ++ (disk ∷ [])) lines in
            let skipped = discover_disks_from device (r, disks) lines in
            if is_disk device name then kept else skipped
      ]

  unfoldable pub discover_disks : Device → MetricRegistry → MetricRegistry × List Disk
  unfolding discover_disks_from
  discover_disks device r = elim (device.lines (codes "/proc/diskstats") 512) [
    | none ↦ (r, [])
    | some lines ↦ discover_disks_from device (r, []) lines
  ]

  -- `MIN(a, b)`
  abbrev minimum : Double → Double → Double
  minimum a b = if F.lt a b then a else b

  -- The rates since the last line of the disk; `v` has the counters of this one: reads, sectors read,
  -- writes, sectors written, and the milliseconds of I/O.
  unfoldable pub set_disk_rates : Double → Disk → List ℕ → List Float → List Float
  unfolding set_reading rate
  set_disk_rates seconds d v v0 =
      let read = rate F (get_or v 1 0) d.prev_read_sectors seconds in
      let v1 = set_reading F v0 d.idx_read_bps (F.mul read (F.of_nat 512)) in
      let written = rate F (get_or v 3 0) d.prev_write_sectors seconds in
      let v2 = set_reading F v1 d.idx_write_bps (F.mul written (F.of_nat 512)) in
      let v3 = set_reading F v2 d.idx_read_iops (rate F (get_or v 0 0) d.prev_reads seconds) in
      let v4 = set_reading F v3 d.idx_write_iops (rate F (get_or v 2 0) d.prev_writes seconds) in
      let busy_ms = rate F (get_or v 4 0) d.prev_io_ms (F.of_nat 1) in
      set_reading F v4 d.idx_util (
        if F.is_nan_double busy_ms
        then F.nan_double
        else minimum (F.of_nat 100) (F.div busy_ms (F.mul seconds (F.of_nat 10))))

  -- The rest of the loop's body for the disk of a line.
  unfoldable pub sample_disk : Double → Bool → Disk → List ℕ → List Float → Disk × List Float
  unfolding set_disk_rates
  sample_disk seconds first d v values = (
    record d {
      prev_read_sectors = get_or v 1 0;
      prev_write_sectors = get_or v 3 0;
      prev_reads = get_or v 0 0;
      prev_writes = get_or v 2 0;
      prev_io_ms = get_or v 4 0;
    },
    if not first then set_disk_rates seconds d v values else values,
  )

  -- The last disk of that name takes the line.
  unfoldable pub sample_disk_named :
      Double → Bool → Text → List ℕ → List Disk → List Float → Option (List Disk × List Float)
  unfolding sample_disk str_eq
  sample_disk_named seconds first name v [] values = none
  sample_disk_named seconds first name v (d ∷ ds) values =
      let (d', values') = sample_disk seconds first d v values in
      elim (sample_disk_named seconds first name v ds values) [
        | some (ds', later) ↦ some (d ∷ ds', later)
        | none ↦ if str_eq d.name name then some (d' ∷ ds, values') else none
      ]

  unfoldable pub disk_line : Double → Bool → List Disk × List Float → Text → List Disk × List Float
  unfolding sample_disk_named
  disk_line seconds first (disks, values) line = elim (scanning.scan_disk line) [
    | none ↦ (disks, values)
    | some (name, v) ↦ elim (sample_disk_named seconds first name v disks values) [
      | none ↦ (disks, values)
      | some s ↦ s
    ]
  ]

  unfoldable pub disk_lines :
      Double → Bool → List Disk × List Float → List Text → List Disk × List Float
  unfolding disk_line
  disk_lines seconds first s [] = s
  disk_lines seconds first s (line ∷ lines) =
      disk_lines seconds first (disk_line seconds first s line) lines

  unfoldable pub sample_disks :
      Device → Double → Bool → List Disk × List Float → List Disk × List Float
  unfolding disk_lines
  sample_disks device seconds first s = elim (device.lines (codes "/proc/diskstats") 512) [
    | none ↦ s
    | some lines ↦ disk_lines seconds first s lines
  ]

  unfoldable pub set_mount : Mount → Double → Double → Double → Double → List Float → List Float
  unfolding set_reading
  set_mount m total used free usage v0 =
      let v1 = set_reading F v0 m.idx_total total in
      let v2 = set_reading F v1 m.idx_used used in
      let v3 = set_reading F v2 m.idx_free free in set_reading F v3 m.idx_usage usage

  -- The round of `sample_mounts` for one filesystem.
  unfoldable pub sample_mount : Option Statvfs → Mount → List Float → List Float
  unfolding set_mount
  sample_mount none m values =
      set_mount m F.nan_double F.nan_double F.nan_double F.nan_double values
  sample_mount (some st) m values =
      let total = F.mul (F.of_nat st.f_blocks) (F.of_nat st.f_frsize) in
      let avail = F.mul (F.of_nat st.f_bavail) (F.of_nat st.f_frsize) in
      let used = F.sub total (F.mul (F.of_nat st.f_bfree) (F.of_nat st.f_frsize)) in
      let usage =
        if F.lt (F.of_nat 0) total then F.div (F.mul (F.of_nat 100) used) total else F.nan_double in
      if st.f_blocks == 0
      then set_mount m F.nan_double F.nan_double F.nan_double F.nan_double values
      else set_mount m total used avail usage values

  unfoldable pub sample_mounts : Device → List Mount → List Float → List Float
  unfolding sample_mount
  sample_mounts device [] values = values
  sample_mounts device (m ∷ ms) values =
      sample_mounts device ms (sample_mount (device.statvfs m.mountpoint) m values)

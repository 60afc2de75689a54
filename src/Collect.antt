-- ===== src/Collect.antt =====
-- The collector of app/collect.c, as to names and filesystems: which mounts are tracked, which metrics
-- they register, and when they have changed. What `fscanf` reads of /proc/mounts is a parameter.
pub mod Names
pub mod Mounts
pub mod Indices
pub mod Device
pub mod Cpu
pub mod System
pub mod Net
pub mod Disks
pub mod Slow
pub mod Collector
use axis_cam_metrics.Base.{
  ℕ, zero, suc, ◌+◌, ◌-◌, List, [], ◌∷◌, ◌++◌, Option, none, some, Bool, true, false, not, ◌&&◌,
  ◌||◌, if◌then◌else◌, length, take, drop, ltb, leb, ◌==◌,
}
use axis_cam_metrics.Base.Text.{Text, codes, str_eq, strlcpy, has_prefix}
use axis_cam_metrics.Metrics.{MetricRegistry, metrics_register, metric_id_max}

abbrev pub max_mounts : ℕ
max_mounts = 16

abbrev pub metric_label_max : ℕ
metric_label_max = 80

-- `g_ascii_isalnum(c) || c == '_'`
unfoldable pub is_plain : ℕ → Bool
is_plain c =
    (leb 48 c && leb c 57) || ((leb 65 c && leb c 90) || ((leb 97 c && leb c 122) || c == 95))

-- The loop of `sanitize`, with the bytes that the output has room for.
unfoldable pub sanitize_from : ℕ → Text → Text
unfolding is_plain
sanitize_from zero s = []
sanitize_from (suc room) [] = []
sanitize_from (suc room) (c ∷ cs) = (if is_plain c then c else 95) ∷ sanitize_from room cs

unfoldable pub sanitize : Text → ℕ → Text
unfolding sanitize_from
sanitize input len = sanitize_from (len - 1) input

-- A line of /proc/mounts.
pub record MountLine : Type 0 where
  pub device : Text
  pub mountpoint : Text
  pub fstype : Text
  pub options : Text

-- `keep`
abbrev pub kept_types : List Text
kept_types =
    codes "ext2"
    ∷ codes "ext3"
    ∷ codes "ext4"
    ∷ codes "xfs"
    ∷ codes "f2fs"
    ∷ codes "vfat"
    ∷ codes "exfat"
    ∷ codes "ubifs"
    ∷ codes "cifs"
    ∷ codes "nfs"
    ∷ []

unfoldable pub is_one_of : Text → List Text → Bool
unfolding str_eq
is_one_of s [] = false
is_one_of s (t ∷ ts) = str_eq s t || is_one_of s ts

unfoldable pub mount_is_interesting : MountLine → Bool
unfolding has_prefix str_eq is_one_of
mount_is_interesting m =
    if not (has_prefix m.device (codes "/dev/"))
      && (not (str_eq m.fstype (codes "cifs")) && not (str_eq m.fstype (codes "nfs")))
    then false
    else if has_prefix m.mountpoint (codes "/var/volatile")
    then false
    else if has_prefix m.options (codes "ro,") || str_eq m.options (codes "ro")
    then false
    else is_one_of m.fstype kept_types

-- The part of the name that users see.
unfoldable pub mount_short_name : Text → Text
unfolding has_prefix str_eq
mount_short_name mountpoint =
    if str_eq mountpoint (codes "/")
    then codes "root"
    else if has_prefix mountpoint (codes "/var/spool/storage/areas/")
    then drop 25 mountpoint
    else if has_prefix mountpoint (codes "/var/spool/storage/")
    then drop 19 mountpoint
    else drop 1 mountpoint

-- `Mount`
pub record Mount : Type 0 where
  pub mountpoint : Text
  pub idx_total : ℕ
  pub idx_used : ℕ
  pub idx_free : ℕ
  pub idx_usage : ℕ

-- `FS_METRIC`
unfoldable pub fs_metric : MetricRegistry → Text → Text → Text → Text → Text → MetricRegistry × ℕ
unfolding metrics_register
fs_metric registry safe mountpoint suffix text unit =
    metrics_register registry
      (strlcpy metric_id_max (codes "fs." ++ (safe ++ (codes "." ++ suffix))))
      (some (strlcpy metric_label_max (mountpoint ++ (codes " " ++ text)))) (some unit)
      (some (codes "storage"))

-- The four metrics of a filesystem.
unfoldable pub register_mount : MetricRegistry → Text → MetricRegistry × Mount
unfolding sanitize mount_short_name fs_metric
register_mount r0 mountpoint =
    let safe = sanitize (mount_short_name mountpoint) 128 in
    let (r1, total) = fs_metric r0 safe mountpoint (codes "total") (codes "total") (codes "B") in
    let (r2, used) = fs_metric r1 safe mountpoint (codes "used") (codes "used") (codes "B") in
    let (r3, free) = fs_metric r2 safe mountpoint (codes "free") (codes "free") (codes "B") in
    let (r4, usage) = fs_metric r3 safe mountpoint (codes "usage") (codes "usage") (codes "%") in
    (
      r4,
      record {
        mountpoint = strlcpy 128 mountpoint;
        idx_total = total;
        idx_used = used;
        idx_free = free;
        idx_usage = usage;
      },
    )

-- The tests that a line must pass, with the devices seen so far.
unfoldable pub is_new_mount : List Text → MountLine → Bool
unfolding mount_is_interesting is_one_of
is_new_mount seen m = mount_is_interesting m && not (is_one_of m.device seen)

-- The loop of `discover_mounts`, with the registry, the mounts and the devices so far.
unfoldable pub discover_from :
    MetricRegistry → List Mount → List Text → List MountLine → MetricRegistry × List Mount
unfolding is_new_mount register_mount
discover_from registry mounts seen [] = (registry, mounts)
discover_from registry mounts seen (m ∷ ms) =
    let (registry', mount) = register_mount registry m.mountpoint in
    let kept =
      discover_from registry' (mounts ++ (mount ∷ [])) (seen ++ (strlcpy 128 m.device ∷ [])) ms in
    let skipped = discover_from registry mounts seen ms in
    if ltb (length mounts) max_mounts
    then (if is_new_mount seen m then kept else skipped)
    else (registry, mounts)

unfoldable pub discover_mounts : MetricRegistry → List MountLine → MetricRegistry × List Mount
unfolding discover_from
discover_mounts registry lines = discover_from registry [] [] lines

-- The loop of `collector_mounts_changed`: `seen` has `count` devices.
unfoldable pub count_from : List Text → List MountLine → ℕ
unfolding is_new_mount
count_from seen [] = length seen
count_from seen (m ∷ ms) =
    let counted = count_from (seen ++ (strlcpy 128 m.device ∷ [])) ms in
    let skipped = count_from seen ms in
    if ltb (length seen) max_mounts
    then (if is_new_mount seen m then counted else skipped)
    else length seen

-- `lines` is `none` where /proc/mounts cannot be opened.
unfoldable pub collector_mounts_changed : ℕ → Option (List MountLine) → Bool
unfolding count_from
collector_mounts_changed n_mounts none = false
collector_mounts_changed n_mounts (some lines) = not (count_from [] lines == n_mounts)

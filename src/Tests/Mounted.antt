-- ===== src/Tests/Mounted.antt =====
-- The collector's names and mounts at a device with a card that is mounted twice.
use axis_cam_metrics.Base.{◌≡◌, [], ◌∷◌, some, false, not, ◌≤◌, ◌==◌, All}
use axis_cam_metrics.Base.Text.{codes}
use axis_cam_metrics.Metrics.{metrics_registry_init}
use axis_cam_metrics.Collect.{MountLine, max_mounts, collector_mounts_changed, discover_mounts}
use axis_cam_metrics.Collect.Indices.{Tracked, discover_mounts-Tracked}
use axis_cam_metrics.Collect.Mounts.{found, mounts_changed-found}
use axis_cam_metrics.Tests.Samples.{registry}

abbrev card : MountLine
card = record {
  device = codes "/dev/mmcblk1p1";
  mountpoint = codes "/var/spool/storage/SD_DISK";
  fstype = codes "ext4";
  options = codes "rw,nosuid";
}

abbrev area : MountLine
area = record card { mountpoint = codes "/var/spool/storage/areas/SD_DISK/root" }

abbrev disk : MountLine
disk = record card { device = codes "/dev/sda1"; mountpoint = codes "/var/spool/storage/disk1" }

mounts_changed_example :
    (collector_mounts_changed (found registry (card ∷ area ∷ [])) (some (card ∷ disk ∷ []))
      ≡ not (found metrics_registry_init (card ∷ disk ∷ []) == found registry (card ∷ area ∷ [])))
    × (collector_mounts_changed (found registry (card ∷ area ∷ [])) (some (card ∷ area ∷ []))
        ≡ false)
    × (found registry (card ∷ area ∷ []) ≤ max_mounts)
mounts_changed_example =
    mounts_changed-found registry metrics_registry_init (card ∷ area ∷ []) (card ∷ disk ∷ [])

discover_mounts_example :
    let (registry', mounts) = discover_mounts registry (card ∷ area ∷ disk ∷ []) in
    All (Tracked registry') mounts
discover_mounts_example = discover_mounts-Tracked registry (card ∷ area ∷ disk ∷ [])

-- ===== src/Collect/Indices.antt =====
-- The indices of a mount and the ids of its metrics.
use axis_cam_metrics.Base.{
  ℕ, ◌≡◌, refl, List, [], ◌∷◌, ◌++◌, Option, some, arith, All, length, length-take, ltb, if_ind,
}
use axis_cam_metrics.Base.Text.{Text, codes, strlcpy}
use axis_cam_metrics.Metrics.{MetricRegistry, metrics_find, metric_id_max}
use axis_cam_metrics.Metrics.Inv.{find-register, register_stable}
use axis_cam_metrics.Collect.{
  MountLine, Mount, max_mounts, metric_label_max, sanitize, mount_short_name, fs_metric,
  is_new_mount, register_mount, discover_from, discover_mounts,
}

-- The id of a filesystem's metric.
abbrev pub fs_id : Text → Text → Text
fs_id mountpoint suffix =
    strlcpy metric_id_max
      (codes "fs." ++ (sanitize (mount_short_name mountpoint) 128 ++ (codes "." ++ suffix)))

abbrev fs_label : Text → Text → Option Text
fs_label mountpoint text = some (strlcpy metric_label_max (mountpoint ++ (codes " " ++ text)))

pub record Indexed (r : MetricRegistry) (m : Mount) (mountpoint : Text) : Type 0 where
  pub name : m.mountpoint ≡ strlcpy 128 mountpoint
  pub total : metrics_find r (fs_id mountpoint (codes "total")) ≡ some m.idx_total
  pub used : metrics_find r (fs_id mountpoint (codes "used")) ≡ some m.idx_used
  pub free : metrics_find r (fs_id mountpoint (codes "free")) ≡ some m.idx_free
  pub usage : metrics_find r (fs_id mountpoint (codes "usage")) ≡ some m.idx_usage

fs_metric-found :
    (r : MetricRegistry) (mountpoint suffix text unit : Text)
    → let (r', i) =
        fs_metric r (sanitize (mount_short_name mountpoint) 128) mountpoint suffix text unit in
      metrics_find r' (fs_id mountpoint suffix) ≡ some i
unfolding fs_metric
fs_metric-found r mountpoint suffix text unit =
    (find-register r (fs_id mountpoint suffix) (fs_label mountpoint text) (some unit)
      (some (codes "storage"))
      (omega (
        arith,
        length-take 63
            (codes "fs." ++ (sanitize (mount_short_name mountpoint) 128 ++ (codes "." ++ suffix))),
      ))).0

fs_metric-stable :
    (r : MetricRegistry) (safe mountpoint suffix text unit other : Text) (k : ℕ)
    → metrics_find r other ≡ some k
    → metrics_find (fs_metric r safe mountpoint suffix text unit).0 other ≡ some k
unfolding fs_metric
fs_metric-stable r safe mountpoint suffix text unit other k h =
    register_stable r (strlcpy metric_id_max (codes "fs." ++ (safe ++ (codes "." ++ suffix))))
      (fs_label mountpoint text) (some unit) (some (codes "storage")) other k h

-- The registry after the first, the second, the third and the fourth metric of a filesystem.
abbrev after_total : MetricRegistry → Text → MetricRegistry
after_total r mp =
    (fs_metric r (sanitize (mount_short_name mp) 128) mp (codes "total") (codes "total")
      (codes "B")).0

abbrev after_used : MetricRegistry → Text → MetricRegistry
after_used r mp =
    (fs_metric r (sanitize (mount_short_name mp) 128) mp (codes "used") (codes "used")
      (codes "B")).0

abbrev after_free : MetricRegistry → Text → MetricRegistry
after_free r mp =
    (fs_metric r (sanitize (mount_short_name mp) 128) mp (codes "free") (codes "free")
      (codes "B")).0

module _ (mp other : Text) (k : ℕ) where
  past_used :
      (r : MetricRegistry)
      → metrics_find r other ≡ some k
      → metrics_find (after_used r mp) other ≡ some k
  past_used r h =
      fs_metric-stable r (sanitize (mount_short_name mp) 128) mp (codes "used") (codes "used")
        (codes "B") other k h

  past_free :
      (r : MetricRegistry)
      → metrics_find r other ≡ some k
      → metrics_find (after_free r mp) other ≡ some k
  past_free r h =
      fs_metric-stable r (sanitize (mount_short_name mp) 128) mp (codes "free") (codes "free")
        (codes "B") other k h

  past_usage :
      (r : MetricRegistry)
      → metrics_find r other ≡ some k
      → metrics_find
          (fs_metric r
            (sanitize (mount_short_name mp) 128)
            mp
            (codes "usage")
            (codes "usage")
            (codes "%")).0
          other
        ≡ some k
  past_usage r h =
      fs_metric-stable r (sanitize (mount_short_name mp) 128) mp (codes "usage") (codes "usage")
        (codes "%") other k h

  register_mount-stable :
      (r : MetricRegistry)
      → metrics_find r other ≡ some k
      → metrics_find (register_mount r mp).0 other ≡ some k
  unfolding register_mount
  register_mount-stable r h = past_usage _ (
      past_free _ (
        past_used (after_total r mp) (
          fs_metric-stable r (sanitize (mount_short_name mp) 128) mp (codes "total") (codes "total")
            (codes "B") other k h)))

register_mount-Indexed :
    (r : MetricRegistry) (mp : Text) → Indexed (register_mount r mp).0 (register_mount r mp).1 mp
unfolding register_mount
register_mount-Indexed r mp =
    let r1 = after_total r mp in
    let r2 = after_used r1 mp in
    let r3 = after_free r2 mp in
    record {
      name = refl;
      total = past_usage mp (fs_id mp (codes "total")) _ r3 (
          past_free mp (fs_id mp (codes "total")) _ r2 (
            past_used mp (fs_id mp (codes "total")) _ r1
              (fs_metric-found r mp (codes "total") (codes "total") (codes "B"))));
      used = past_usage mp (fs_id mp (codes "used")) _ r3 (
          past_free mp (fs_id mp (codes "used")) _ r2
            (fs_metric-found r1 mp (codes "used") (codes "used") (codes "B")));
      free =
          past_usage mp (fs_id mp (codes "free")) _ r3
            (fs_metric-found r2 mp (codes "free") (codes "free") (codes "B"));
      usage = fs_metric-found r3 mp (codes "usage") (codes "usage") (codes "%");
    }

-- A mount whose indices are those of the ids of some mountpoint that its own was cut from.
abbrev pub Tracked : MetricRegistry → Mount → Type 0
Tracked r m = (mountpoint : Text) × Indexed r m mountpoint

Tracked-later :
    (r : MetricRegistry) (mp : Text) (ms : List Mount)
    → All (Tracked r) ms
    → All (Tracked (register_mount r mp).0) ms
Tracked-later r mp [] h = tt
Tracked-later r mp (m ∷ ms) ((name, x), h) = (
  (
    name,
    record {
      name = x.name;
      total = register_mount-stable mp _ _ r x.total;
      used = register_mount-stable mp _ _ r x.used;
      free = register_mount-stable mp _ _ r x.free;
      usage = register_mount-stable mp _ _ r x.usage;
    },
  ),
  Tracked-later r mp ms h,
)

All-last :
    (r : MetricRegistry) (ms : List Mount) (m : Mount)
    → All (Tracked r) ms
    → Tracked r m
    → All (Tracked r) (ms ++ (m ∷ []))
All-last r [] m h t = (t, tt)
All-last r (x ∷ ms) m h t = (h.0, All-last r ms m h.1 t)

discover_from-Tracked :
    (lines : List MountLine) (r : MetricRegistry) (ms : List Mount) (seen : List Text)
    → All (Tracked r) ms
    → let (r', ms') = discover_from r ms seen lines in All (Tracked r') ms'
unfolding discover_from
discover_from-Tracked [] r ms seen h = h
discover_from-Tracked (l ∷ lines) r ms seen h =
    if_ind (λ (x : MetricRegistry × List Mount). All (Tracked x.0) x.1) (ltb (length ms) max_mounts)
      (λ room.
        if_ind (λ (x : MetricRegistry × List Mount). All (Tracked x.0) x.1) (is_new_mount seen l)
          (λ new. discover_from-Tracked lines (register_mount r l.mountpoint).0 _ _ (
            All-last (register_mount r l.mountpoint).0 ms (register_mount r l.mountpoint).1
              (Tracked-later r l.mountpoint ms h)
              (l.mountpoint, register_mount-Indexed r l.mountpoint)))
          (λ old. discover_from-Tracked lines r ms seen h))
      (λ full. h)

-- After a discovery, on any registry and any lines, the four indices of every tracked filesystem are
-- those that the final registry has for the ids made of its mountpoint, whatever was registered since.
pub discover_mounts-Tracked :
    (registry : MetricRegistry) (lines : List MountLine)
    → let (registry', mounts) = discover_mounts registry lines in All (Tracked registry') mounts
unfolding discover_mounts
discover_mounts-Tracked registry lines = discover_from-Tracked lines registry [] [] tt

-- ===== src/Persist.antt =====
-- The history files of app/persist.c. A file is its header, its table of ids and its records. Writing
-- the header, laying the file out and reading it succeed here; a record write may fail, and
-- `persist_append` takes what it returned.
pub mod Slots
pub mod Load
use axis_cam_metrics.Base.{
  ℕ, zero, suc, ◌+◌, ◌-◌, ◌*◌, ◌%◌, ◌≤◌, List, [], ◌∷◌, ◌++◌, Option, none, some, Bool, true, false,
  not, ◌&&◌, ◌||◌, length, get_or, set, take, tabulate, ltb, leb, ◌==◌, if◌then◌else◌, min, is_some,
  map,
}
use axis_cam_metrics.Base.Int.{ℤ, pos, leb_ℤ}
use axis_cam_metrics.Base.Words.{u32, sub32, u64}
use axis_cam_metrics.Base.Text.{Text, codes, str_eq, strlcpy, has_prefix, has_suffix}
use axis_cam_metrics.Floats.{Floats}
use axis_cam_metrics.Metrics.{
  MetricRegistry, MetricDef, metrics_find, metric_id_max, count as registry_count,
}
use axis_cam_metrics.Store.{Store, StoreTier, store_restore, store_tier_sample}

abbrev pub header_bytes : ℕ
header_bytes = 4096

abbrev pub header_flush_every : ℕ
header_flush_every = 60

-- `PersistHeader`; `magic_ok` says that the eight bytes of the magic stand there.
pub record Header : Type 0 where
  pub magic_ok : Bool
  pub version : ℕ
  pub n_metrics : ℕ
  pub capacity : ℕ
  pub interval_s : ℕ
  pub head : ℕ
  pub count : ℕ

-- `fstype_is_volatile`, `is_area_root` and the filters of `find_storage`.
unfoldable pub fstype_is_volatile : Text → Bool
unfolding str_eq
fstype_is_volatile t =
    str_eq t (codes "tmpfs")
    || str_eq t (codes "ramfs")
    || (str_eq t (codes "devtmpfs") || str_eq t (codes "vcrfs"))

unfoldable pub is_area_root : Text → Bool
unfolding has_prefix has_suffix
is_area_root mountpoint =
    has_prefix mountpoint (codes "/var/spool/storage/areas/")
    && has_suffix mountpoint (codes "/root")

-- A line of /proc/mounts, with the size that `statvfs` gives, if it succeeds and is not 0 blocks.
pub record MountLine : Type 0 where
  pub mountpoint : Text
  pub fstype : Text
  pub options : Text
  pub total : Option ℕ

pub record Candidate : Type 0 where
  pub mountpoint : Text
  pub total : ℕ
  pub preferred : Bool

unfoldable pub is_storage : MountLine → Bool
unfolding fstype_is_volatile has_prefix
is_storage m =
    not (fstype_is_volatile m.fstype)
    && (not (has_prefix m.options (codes "ro,") || str_eq m.options (codes "ro"))
        && (not (has_prefix m.mountpoint (codes "/var/volatile"))
            && has_prefix m.mountpoint (codes "/var/spool/storage/")))

unfoldable pub better_of : Candidate → Text → ℕ → Candidate
unfolding is_area_root
better_of best mountpoint total =
    let preferred = is_area_root mountpoint in
    if ltb best.total total || (total == best.total && (preferred && not best.preferred))
    then record { mountpoint = strlcpy 256 mountpoint; total = total; preferred = preferred }
    else best

unfoldable pub best_mount : Candidate → List MountLine → Candidate
unfolding is_storage better_of
best_mount best [] = best
best_mount best (m ∷ ms) =
    best_mount
      (if is_storage m
        then elim m.total [ none ↦ best | some t ↦ better_of best m.mountpoint t ]
        else best)
      ms

unfoldable pub find_storage : List MountLine → Option Text
unfolding best_mount
find_storage mounts =
    let best = best_mount (record { mountpoint = []; total = 0; preferred = false }) mounts in
    if best.total == 0 then none else some best.mountpoint

-- The layout: where a record begins.
unfoldable pub id_table_bytes : ℕ → ℕ
id_table_bytes n_metrics = u64 (n_metrics * metric_id_max)

abbrev pub record_bytes : ℕ → ℕ
record_bytes n_metrics = u64 (8 + u64 (n_metrics * 4))

unfoldable pub record_offset : ℕ → ℕ → ℕ
unfolding id_table_bytes
record_offset n_metrics slot =
    u64 (u64 (header_bytes + id_table_bytes n_metrics) + u64 (slot * record_bytes n_metrics))

module _ (F : Floats) where
  open F use {Float, nan, of_nat, narrow}

  -- What a record holds: the time and the values.
  abbrev pub Record : Type 0
  Record = ℤ × List Float

  pub record File : Type 0 where
    pub header : Header
    pub ids : List Text
    pub records : List Record

  -- `struct Persist` of an open file.
  pub record Persist : Type 0 where
    pub file : File
    pub n_metrics : ℕ
    pub capacity : ℕ
    pub interval_s : ℕ
    pub head : ℕ
    pub count : ℕ
    pub appends_since_header : ℕ
    pub owns_file : Bool

  unfoldable pub write_header : Persist → Persist
  write_header p = record p {
    file = record (p.file) {
      header = record {
        magic_ok = true;
        version = 1;
        n_metrics = p.n_metrics;
        capacity = p.capacity;
        interval_s = p.interval_s;
        head = p.head;
        count = p.count;
      };
    };
    appends_since_header = 0;
  }

  -- `persist_open` on a file that could be opened.
  unfoldable pub persist_open : MetricRegistry → StoreTier F → File → Persist
  persist_open registry tier file = record {
    file = file;
    n_metrics = registry_count registry;
    capacity = tier.capacity;
    interval_s = tier.interval_s;
    head = 0;
    count = 0;
    appends_since_header = 0;
    owns_file = false;
  }

  -- What `persist_close` leaves in the file.
  unfoldable pub persist_close : Persist → File
  unfolding write_header
  persist_close p = if p.owns_file then (write_header p).file else p.file

  -- `residue` is what the slots read as once the file has its new layout and size: zeros, or bytes that
  -- an earlier layout left there.
  unfoldable pub initialise_file : Persist → MetricRegistry → (ℕ → Record) → Persist
  unfolding write_header
  initialise_file p registry residue = write_header (record p {
    file = record (p.file) {
      ids = map (λ (d : MetricDef). strlcpy metric_id_max d.id) registry.defs;
      records = tabulate p.capacity residue;
    };
    head = 0;
    count = 0;
    owns_file = true;
  })

  -- A record write that succeeds.
  unfoldable pub append_written : Persist → List Float → ℤ → Persist
  unfolding write_header
  append_written p values timestamp =
      let q : Persist = record p {
        file = record (p.file) {
          records = set p.file.records p.head (timestamp, take p.n_metrics values);
        };
        head = u32 (p.head + 1) % p.capacity;
        count = if ltb p.count p.capacity then u32 (p.count + 1) else p.count;
        appends_since_header = u32 (p.appends_since_header + 1);
      } in
      if leb header_flush_every q.appends_since_header then write_header q else q

  -- `written` is what `write_at` returns.
  unfoldable pub persist_append : Persist → Bool → List Float → ℤ → Persist
  unfolding append_written
  persist_append p written values timestamp =
      if written then append_written p values timestamp else p

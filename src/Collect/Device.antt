-- ===== src/Collect/Device.antt =====
-- What the collector of app/collect.c reads the device with: what files, calls and `sscanf` give are
-- parameters, and the helpers over them are the code's.
use axis_cam_metrics.Base.{
  ℕ, ◌-◌, List, [], ◌∷◌, Option, none, some, Bool, ◌||◌, if◌then◌else◌, ltb, take, set,
}
use axis_cam_metrics.Base.Text.{Text, c_str}
use axis_cam_metrics.Floats.{Floats}
use axis_cam_metrics.Metrics.{MetricRegistry, metrics_register}

-- What `statvfs` fills in.
pub record Statvfs : Type 0 where
  pub f_blocks : ℕ
  pub f_frsize : ℕ
  pub f_bavail : ℕ
  pub f_bfree : ℕ

-- The device at one time.
pub record Device : Type 0 where
  -- the bytes of a file, where it can be opened
  pub contents : Text → Option (List ℕ)
  -- its lines, as `fgets` gives them into a buffer of that size
  pub lines : Text → ℕ → Option (List Text)
  pub is_dir : Text → Bool
  pub exists : Text → Bool
  -- the names in a directory, where it can be opened
  pub dir : Text → Option (List Text)
  -- `none` where the call fails
  pub statvfs : Text → Option Statvfs
  -- `none` is the NULL of `vapix_get`
  pub vapix_get : Text → Option Text
  -- `g_get_monotonic_time`
  pub now : ℕ

-- The string functions of the C library and of GLib that the collector calls.
pub record Scanning (F : Floats) : Type 0 where
  pub strtod : Text → F.Double
  -- `g_ascii_strtoull` to a base
  pub strtoull : Text → ℕ → ℕ
  pub strip : Text → Text
  -- what `%u` prints
  pub print_u : ℕ → Text
  -- `sscanf` on a format, the first argument, of one number
  pub scan_u : Text → Text → Option ℕ
  -- `sscanf` on formats of several numbers: those that it stores
  pub scan_us : Text → Text → List ℕ
  pub scan_doubles : Text → Text → List F.Double
  -- the name in a line of /proc/diskstats, and with it the five counters
  pub scan_disk_name : Text → Option Text
  pub scan_disk : Text → Option (Text × List ℕ)
  pub scan_sensor : Text → Option (ℕ × Text)

-- The read is of `len - 1` bytes; a file with none counts as unreadable.
unfoldable pub read_text : Device → Text → ℕ → Option Text
unfolding c_str
read_text device path len = elim (device.contents path) [
  | none ↦ none
  | some bytes ↦ elim (take (len - 1) bytes) [ [] ↦ none | b ∷ bs ↦ some (c_str (b ∷ bs)) ]
]

unfoldable pub reg : MetricRegistry → Text → Text → Text → Text → MetricRegistry × ℕ
unfolding metrics_register
reg registry id label unit group =
    metrics_register registry id (some label) (some unit) (some group)

module _ (F : Floats) where
  open F use {Float, Double}

  unfoldable pub read_double : Scanning F → Device → Text → Double → Double
  unfolding read_text
  read_double scanning device path fallback = elim (read_text device path 64) [
    | none ↦ fallback
    | some text ↦ scanning.strtod text
  ]

  -- `set`
  unfoldable pub set_reading : List Float → ℕ → Double → List Float
  set_reading values idx v = set values idx (F.narrow v)

  unfoldable pub rate : ℕ → ℕ → Double → Double
  rate now prev seconds =
      if F.le seconds (F.of_nat 0) || ltb now prev
      then F.nan_double
      else F.div (F.of_nat (now - prev)) seconds

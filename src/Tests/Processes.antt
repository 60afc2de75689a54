-- ===== src/Tests/Processes.antt =====
-- The process list at a directory of two processes.
use axis_cam_metrics.Base.{
  ℕ, ◌≡◌, refl, List, [], ◌∷◌, Option, some, true, arith, All, is_some, inl, inr,
}
use axis_cam_metrics.Base.Text.{Text, codes}
use axis_cam_metrics.Procs.{Procs, read_stat, find, scan, atoi_from}
use axis_cam_metrics.Procs.Scan.{P}
use axis_cam_metrics.Procs.Scan.Found.{IsList}
use axis_cam_metrics.Procs.Scan.Seen.{FromScan, scan-IsRead}
use axis_cam_metrics.Procs.Scan.Complete.{find-scan}
use axis_cam_metrics.Tests.Samples.{whole}

-- The fields 2, 3 and 5, whatever the text.
abbrev parse : Text → Option (ℕ × ℕ × ℕ)
parse t = some (2, 3, 5)

abbrev stat : ℕ → Option Text
stat pid = some (codes "7 (a (b) c) S 1")

abbrev listed : List Text
listed = codes "self" ∷ codes "7" ∷ codes "12" ∷ []

abbrev known_proc : P 64 parse whole
known_proc = record {
  pid = 9;
  name = codes "gone";
  jiffies = 1;
  rss_bytes = 0;
  cpu_percent = some 3;
  seen = true;
}

abbrev running : Procs 64 parse whole
running = record {
  entries = known_proc ∷ [];
  last_scan = 1;
  ticks_per_second = 100;
  page_size = 4096;
  cores = 4;
}

running-IsList : IsList 64 parse whole running.entries
running-IsList = record { bounded = omega arith; distinct = (tt, tt) }

scan-IsRead_example :
    All
      (FromScan 64 parse whole running (some 10) stat listed)
      (scan 64 parse whole running (some 10) (some listed) stat).entries
scan-IsRead_example = scan-IsRead 64 parse whole running (some 10) stat listed

find-scan_example :
    is_some
      (find 64 parse whole (scan 64 parse whole running (some 10) (some listed) stat).entries 12)
    ≡ true
unfolding atoi_from read_stat
find-scan_example =
    find-scan 64 parse whole running (some 10) stat listed 12 (inr (inr (inl (refl, refl)))) refl
      (omega arith)

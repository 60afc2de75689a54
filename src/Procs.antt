-- ===== src/Procs.antt =====
-- The process list of app/procs.c: what a scan of /proc makes of the entries. The directory's names, the
-- contents of the stat files and what `sscanf` reads of their fields are parameters; `long_bits` is the
-- width of `gulong` and `gsize`. A command name is at most 23 bytes.
pub mod Stat
pub mod Scan
use axis_cam_metrics.Base.{
  ℕ, zero, suc, ◌+◌, ◌-◌, ◌*◌, ◌%◌, ◌^◌, ◌≡◌, List, [], ◌∷◌, ◌++◌, Option, none, some, Bool, true,
  false, not, ◌&&◌, ◌||◌, if◌then◌else◌, length, take, drop, filter, ltb, leb, ◌==◌, is_some, map,
}
use axis_cam_metrics.Base.Int.{ℤ, pos, negsuc}
use axis_cam_metrics.Base.Text.{Text, strlcpy}
use axis_cam_metrics.Floats.{Floats}

abbrev pub procs_max : ℕ
procs_max = 512

abbrev pub name_max : ℕ
name_max = 24

-- `strchr` and `strrchr` as indices.
unfoldable pub first_index : ℕ → Text → Option ℕ
first_index c [] = none
first_index c (b ∷ bs) =
    let rest : Option ℕ = elim (first_index c bs) [ none ↦ none | some i ↦ some (suc i) ] in
    if b == c then some 0 else rest

unfoldable pub last_index : ℕ → Text → Option ℕ
last_index c [] = none
last_index c (b ∷ bs) = elim (last_index c bs) [
  | none ↦ if b == c then some 0 else none
  | some i ↦ some (suc i)
]

abbrev pub is_digit : ℕ → Bool
is_digit c = leb 48 c && leb c 57

-- `g_ascii_isdigit(entry[0])`
abbrev pub starts_with_digit : Text → Bool
starts_with_digit [] = false
starts_with_digit (c ∷ cs) = is_digit c

-- `atoi` on a name that starts with a digit.
unfoldable pub atoi_from : ℕ → Text → ℕ
atoi_from n [] = n
atoi_from n (c ∷ cs) = let rest = atoi_from (n * 10 + (c - 48)) cs in if is_digit c then rest else n

-- `parse` reads utime, stime and rss from the text after the command name, if it can read all three.
module _ (long_bits : ℕ) (parse : Text → Option (ℕ × ℕ × ℕ)) where
  -- The name, utime + stime and rss of a stat file.
  unfoldable pub read_stat : Option Text → Option (Text × ℕ × ℕ)
  unfolding first_index last_index
  read_stat none = none
  read_stat (some contents) = elim (first_index 40 contents) [
    | none ↦ none
    | some opening ↦ elim (last_index 41 contents) [
      | none ↦ none
      | some closing ↦
          let found : Option (Text × ℕ × ℕ) = elim (parse (drop (closing + 2) contents)) [
            | none ↦ none
            | some (utime, stime, rss) ↦ some (
              strlcpy name_max (take (closing - opening - 1) (drop (opening + 1) contents)),
              (utime + stime) % 2 ^ long_bits,
              rss,
            )
          ] in
          if ltb closing opening then none else found
    ]
  ]

  module _ (F : Floats) where
    open F use {Double, of_nat, mul, div, lt}

    pub record Proc : Type 0 where
      pub pid : ℕ
      pub name : Text
      pub jiffies : ℕ
      pub rss_bytes : ℕ
      pub cpu_percent : Double
      pub seen : Bool

    -- `struct Procs`: the first `count` entries of the array.
    pub record Procs : Type 0 where
      pub entries : List Proc
      pub last_scan : ℕ
      pub ticks_per_second : ℕ
      pub page_size : ℕ
      pub cores : ℕ

    unfoldable pub find : List Proc → ℕ → Option Proc
    find [] pid = none
    find (p ∷ ps) pid = if p.pid == pid then some p else find ps pid

    -- The entries with one for the process; `none` is a full array.
    unfoldable pub admit : List Proc → ℕ → ℕ → Option (List Proc)
    unfolding find
    admit entries pid jiffies =
        let fresh : Proc = record {
          pid = pid;
          name = [];
          jiffies = jiffies;
          rss_bytes = 0;
          cpu_percent = of_nat 0;
          seen = false;
        } in
        if is_some (find entries pid)
        then some entries
        else if leb procs_max (length entries)
        then none
        else some (entries ++ (fresh ∷ []))

    -- The share of the device that the process took since the last scan.
    abbrev pub cpu_share : Procs → Double → ℕ → Double
    cpu_share procs elapsed_s ticks =
        div (div (mul (of_nat 100) (div (of_nat ticks) (of_nat procs.ticks_per_second))) elapsed_s)
          (of_nat procs.cores)

    unfoldable pub measure : Procs → Double → Text → ℕ → ℕ → Proc → Proc
    measure procs elapsed_s name jiffies rss_pages p = record p {
      cpu_percent =
          if lt (of_nat 0) elapsed_s && leb p.jiffies jiffies
          then cpu_share procs elapsed_s (jiffies - p.jiffies)
          else p.cpu_percent;
      jiffies = jiffies;
      rss_bytes = rss_pages * procs.page_size % 2 ^ long_bits;
      name = strlcpy name_max name;
      seen = true;
    }

    -- The update of the entry that `find` gives.
    unfoldable pub update_found : List Proc → ℕ → (Proc → Proc) → List Proc
    update_found [] pid f = []
    update_found (p ∷ ps) pid f = if p.pid == pid then f p ∷ ps else p ∷ update_found ps pid f

    -- One round of the loop over /proc; `stat` gives the contents of a process's file.
    unfoldable pub visit : Procs → Double → (ℕ → Option Text) → List Proc → Text → List Proc
    unfolding atoi_from read_stat admit measure update_found
    visit procs elapsed_s stat entries entry =
        let pid = atoi_from 0 entry in
        let visited : List Proc = elim (read_stat (stat pid)) [
          | none ↦ entries
          | some (name, jiffies, rss_pages) ↦ elim (admit entries pid jiffies) [
            | none ↦ entries
            | some es ↦ update_found es pid (measure procs elapsed_s name jiffies rss_pages)
          ]
        ] in
        if starts_with_digit entry then visited else entries

    unfoldable pub visit_all :
        Procs → Double → (ℕ → Option Text) → List Proc → List Text → List Proc
    unfolding visit
    visit_all procs elapsed_s stat entries [] = entries
    visit_all procs elapsed_s stat entries (n ∷ ns) =
        visit_all procs elapsed_s stat (visit procs elapsed_s stat entries n) ns

    abbrev pub unseen : Proc → Proc
    unseen p = record p { seen = false }

    abbrev pub is_seen : Proc → Bool
    is_seen p = p.seen

    -- `dir` has the names in /proc, if it opens.
    unfoldable pub scan : Procs → Double → Option (List Text) → (ℕ → Option Text) → Procs
    unfolding visit_all
    scan procs elapsed_s none stat = record procs { entries = map unseen procs.entries }
    scan procs elapsed_s (some dir) stat = record procs {
      entries = filter is_seen (visit_all procs elapsed_s stat (map unseen procs.entries) dir);
    }

    -- The times are those of the monotonic clock, in microseconds.
    unfoldable pub procs_tick : Procs → ℕ → Option (List Text) → (ℕ → Option Text) → Procs
    unfolding scan
    procs_tick procs now dir stat =
        let elapsed =
          if procs.last_scan == 0
          then of_nat 0
          else div (of_nat (now - procs.last_scan)) (of_nat 1000000) in
        if not (procs.last_scan == 0) && ltb (now - procs.last_scan) (10 * 1000000)
        then procs
        else scan (record procs { last_scan = now }) elapsed dir stat

    -- The order of the list that is shown: positive where the right one goes first.
    unfoldable pub by_cpu : Proc → Proc → ℤ
    by_cpu left right =
        if lt left.cpu_percent right.cpu_percent
        then pos 1
        else if lt right.cpu_percent left.cpu_percent
        then negsuc 0
        else if ltb left.rss_bytes right.rss_bytes
        then pos 1
        else if ltb right.rss_bytes left.rss_bytes
        then negsuc 0
        else pos 0

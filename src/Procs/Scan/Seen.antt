-- ===== src/Procs/Scan/Seen.antt =====
-- Where the entries of the process list come from.
use axis_cam_metrics.Base.{
  ℕ, ◌*◌, ◌%◌, ◌^◌, ◌≡◌, refl, sym, ◌⊎◌, inl, inr, List, [], ◌∷◌, ◌++◌, Option, some, true, All,
  Bool-cases, ==_iff, ◌==◌, map, filter, subst, if_ind, append-nil, append_assoc,
}
use axis_cam_metrics.Base.Text.{Text, strlcpy}
use axis_cam_metrics.Floats.{Floats}
use axis_cam_metrics.Procs.{
  Procs, name_max, starts_with_digit, atoi_from, measure, update_found, visit_all, unseen, is_seen,
  scan,
}
use axis_cam_metrics.Procs.Scan.{
  P, Visit, Reads, fresh, taken, visit-cases, skipped, full, known, added,
}

-- The names of /proc that stand for a process.
abbrev pub Listed : ℕ → List Text → Type 0
Listed pid [] = ⊥
Listed pid (n ∷ ns) = ((starts_with_digit n ≡ true) × (atoi_from 0 n ≡ pid)) ⊎ Listed pid ns

Listed-append : (pid : ℕ) (ns ms : List Text) → Listed pid ns → Listed pid (ns ++ ms)
Listed-append pid [] ms h = absurd h
Listed-append pid (n ∷ ns) ms (inl h) = inl h
Listed-append pid (n ∷ ns) ms (inr h) = inr (Listed-append pid ns ms h)

module _ (long_bits : ℕ) (parse : Text → Option (ℕ × ℕ × ℕ)) (F : Floats) where
  open F use {Double}

  abbrev pub Entries : Type 0
  Entries = List (P long_bits parse F)

  module _ (procs : Procs long_bits parse F) (elapsed_s : Double) (stat : ℕ → Option Text) where
    abbrev pub take_in : Text → ℕ → ℕ → P long_bits parse F → P long_bits parse F
    take_in = taken long_bits parse F procs elapsed_s stat

    -- The entry has what the process's stat file says.
    pub record IsRead (p : P long_bits parse F) : Type 0 where
      pub full_name : Text
      pub rss_pages : ℕ
      pub reads : Reads long_bits parse F procs elapsed_s stat p.pid full_name p.jiffies rss_pages
      pub name : p.name ≡ strlcpy name_max full_name
      pub rss : p.rss_bytes ≡ rss_pages * procs.page_size % 2 ^ long_bits

    -- An entry that was seen in `dir` has been read.
    abbrev pub Fresh : List Text → P long_bits parse F → Type 0
    Fresh dir p = p.seen ≡ true → IsRead p × Listed p.pid dir

    take_in-IsRead :
        (p : P long_bits parse F) (pid : ℕ) (name : Text) (jiffies rss : ℕ)
        → p.pid ≡ pid
        → Reads long_bits parse F procs elapsed_s stat pid name jiffies rss
        → IsRead (take_in name jiffies rss p)
    unfolding measure
    take_in-IsRead p pid name jiffies rss e r = record {
      full_name = name;
      rss_pages = rss;
      reads =
          subst (λ (q : ℕ). Reads long_bits parse F procs elapsed_s stat q name jiffies rss) (sym e)
            r;
      name = refl;
      rss = refl;
    }

    Listed-last :
        (n : Text) (before : List Text)
        → starts_with_digit n ≡ true
        → Listed (atoi_from 0 n) (before ++ (n ∷ []))
    Listed-last n [] d = inl (d, refl)
    Listed-last n (m ∷ before) d = inr (Listed-last n before d)

    All-later :
        (n : Text) (before : List Text) (es : Entries)
        → All (Fresh before) es
        → All (Fresh (before ++ (n ∷ []))) es
    All-later n before [] h = tt
    All-later n before (p ∷ es) h = (
      λ s. let (r, l) = h.0 s in (r, Listed-append p.pid before (n ∷ []) l),
      All-later n before es h.1,
    )

    Fresh-taken :
        (n : Text) (before : List Text) (p : P long_bits parse F) (name : Text) (jiffies rss : ℕ)
        → starts_with_digit n ≡ true
        → Reads long_bits parse F procs elapsed_s stat (atoi_from 0 n) name jiffies rss
        → p.pid ≡ atoi_from 0 n
        → Fresh (before ++ (n ∷ [])) (take_in name jiffies rss p)
    unfolding measure
    Fresh-taken n before p name jiffies rss d r e s = (
      take_in-IsRead p (atoi_from 0 n) name jiffies rss e r,
      subst (λ (q : ℕ). Listed q (before ++ (n ∷ []))) (sym e) (Listed-last n before d),
    )

    All-update :
        (n : Text) (before : List Text) (es : Entries) (name : Text) (jiffies rss : ℕ)
        → starts_with_digit n ≡ true
        → Reads long_bits parse F procs elapsed_s stat (atoi_from 0 n) name jiffies rss
        → All (Fresh (before ++ (n ∷ []))) es
        → All
            (Fresh (before ++ (n ∷ [])))
            (update_found long_bits parse F es (atoi_from 0 n) (take_in name jiffies rss))
    unfolding update_found
    All-update n before [] name jiffies rss d r h = tt
    All-update n before (p ∷ es) name jiffies rss d r h =
        elim (Bool-cases (p.pid == atoi_from 0 n)) [
          | inl b ↦ rw b (
            Fresh-taken n before p name jiffies rss d r ((==_iff p.pid (atoi_from 0 n)).0 b),
            h.1,
          )
          | inr b ↦ rw b (h.0, All-update n before es name jiffies rss d r h.1)
        ]

    All-append :
        (dir : List Text) (es : Entries) (p : P long_bits parse F)
        → All (Fresh dir) es
        → Fresh dir p
        → All (Fresh dir) (es ++ (p ∷ []))
    All-append dir [] p h k = (k, tt)
    All-append dir (q ∷ es) p h k = (h.0, All-append dir es p h.1 k)

    Visit-All :
        (n : Text) (before : List Text) (es es' : Entries)
        → Visit long_bits parse F procs elapsed_s stat es n es'
        → All (Fresh before) es
        → All (Fresh (before ++ (n ∷ []))) es'
    Visit-All n before es es' (skipped k) h = All-later n before es h
    Visit-All n before es es' (full k b) h = All-later n before es h
    Visit-All n before es es' (known name jiffies rss d r k) h =
        All-update n before es name jiffies rss d r (All-later n before es h)
    Visit-All n before es es' (added name jiffies rss d r k b) h =
        All-append (before ++ (n ∷ [])) es _ (All-later n before es h) (
          Fresh-taken n before (fresh long_bits parse F (atoi_from 0 n) jiffies) name jiffies rss d
            r refl)

    visit_all-All :
        (ns before : List Text) (es : Entries)
        → All (Fresh before) es
        → All (Fresh (before ++ ns)) (visit_all long_bits parse F procs elapsed_s stat es ns)
    unfolding visit_all
    visit_all-All [] before es h = subst (λ l. All (Fresh l) es) (sym (append-nil before)) h
    visit_all-All (n ∷ ns) before es h =
        subst (λ l. All (Fresh l) (visit_all long_bits parse F procs elapsed_s stat es (n ∷ ns)))
          (append_assoc before (n ∷ []) ns)
          (visit_all-All ns (before ++ (n ∷ [])) _
            (Visit-All n before es _ (visit-cases long_bits parse F procs elapsed_s stat es n) h))

    unseen-All : (es : Entries) → All (Fresh []) (map (unseen long_bits parse F) es)
    unseen-All [] = tt
    unseen-All (p ∷ es) = (λ s. absurd cc, unseen-All es)

    abbrev pub FromScan : List Text → P long_bits parse F → Type 0
    FromScan dir p = IsRead p × Listed p.pid dir

    filter-All :
        (dir : List Text) (es : Entries)
        → All (Fresh dir) es
        → All (FromScan dir) (filter (is_seen long_bits parse F) es)
    filter-All dir [] h = tt
    filter-All dir (p ∷ es) h =
        if_ind (All (FromScan dir)) p.seen (λ b. (h.0 b, filter-All dir es h.1))
          (λ b. filter-All dir es h.1)

    -- A process that a scan leaves is one of those that /proc lists, and its entry has what the scan
    -- read of it: no baseline of an earlier scan is left.
    pub scan-IsRead :
        (dir : List Text)
        → All (FromScan dir) (scan long_bits parse F procs elapsed_s (some dir) stat).entries
    unfolding scan
    scan-IsRead dir = filter-All dir _ (
        visit_all-All dir [] (map (unseen long_bits parse F) procs.entries)
          (unseen-All procs.entries))

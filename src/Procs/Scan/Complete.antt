-- ===== src/Procs/Scan/Complete.antt =====
-- Which processes a scan finds.
use axis_cam_metrics.Base.{
  ℕ, suc, ◌+◌, ◌≤◌, ◌<◌, ◌≡◌, refl, sym, ap, ◌∙◌, ◌⊎◌, inl, inr, List, [], ◌∷◌, ◌++◌, Option, some,
  true, arith, length, length-append, length-map, Bool-cases, is_some, ==_iff, ◌==◌, map, filter,
  subst,
}
use axis_cam_metrics.Base.Text.{Text}
use axis_cam_metrics.Floats.{Floats}
use axis_cam_metrics.Procs.{
  Procs, procs_max, starts_with_digit, atoi_from, read_stat, find, measure, update_found, visit,
  visit_all, unseen, is_seen, scan,
}
use axis_cam_metrics.Procs.Scan.{P, Visit, fresh, taken, visit-cases, skipped, full, known, added}
use axis_cam_metrics.Procs.Scan.Seen.{Listed}

module _ (long_bits : ℕ) (parse : Text → Option (ℕ × ℕ × ℕ)) (F : Floats) where
  open F use {Double}

  abbrev Entries : Type 0
  Entries = List (P long_bits parse F)

  module _ (procs : Procs long_bits parse F) (elapsed_s : Double) (stat : ℕ → Option Text) where
    abbrev take_in : Text → ℕ → ℕ → P long_bits parse F → P long_bits parse F
    take_in = taken long_bits parse F procs elapsed_s stat

    -- An entry of the process that has been seen.
    abbrev HasSeen : ℕ → Entries → Type 0
    HasSeen pid [] = ⊥
    HasSeen pid (p ∷ es) = ((p.pid ≡ pid) × (p.seen ≡ true)) ⊎ HasSeen pid es

    HasSeen-update :
        (q pid : ℕ) (es : Entries) (name : Text) (jiffies rss : ℕ)
        → HasSeen q es
        → HasSeen q (update_found long_bits parse F es pid (take_in name jiffies rss))
    unfolding update_found measure
    HasSeen-update q pid [] name jiffies rss h = h
    HasSeen-update q pid (p ∷ es) name jiffies rss h = elim (Bool-cases (p.pid == pid)) [
      | inl b ↦ rw b (elim h [ inl k ↦ inl (k.0, refl) | inr k ↦ inr k ])
      | inr b ↦
          rw b (elim h [ inl k ↦ inl k | inr k ↦ inr (HasSeen-update q pid es name jiffies rss k) ])
    ]

    update-HasSeen :
        (pid : ℕ) (es : Entries) (name : Text) (jiffies rss : ℕ)
        → is_some (find long_bits parse F es pid) ≡ true
        → HasSeen pid (update_found long_bits parse F es pid (take_in name jiffies rss))
    unfolding find update_found measure
    update-HasSeen pid [] name jiffies rss h = absurd cc
    update-HasSeen pid (p ∷ es) name jiffies rss h = elim (Bool-cases (p.pid == pid)) [
      | inl b ↦ rw b (inl ((==_iff p.pid pid).0 b, refl))
      | inr b ↦ rw b (inr (update-HasSeen pid es name jiffies rss (rw b at h)))
    ]

    append-HasSeen :
        (q : ℕ) (es : Entries) (p : P long_bits parse F)
        → HasSeen q es ⊎ ((p.pid ≡ q) × (p.seen ≡ true))
        → HasSeen q (es ++ (p ∷ []))
    append-HasSeen q [] p (inl h) = absurd h
    append-HasSeen q [] p (inr h) = inl h
    append-HasSeen q (c ∷ es) p (inl (inl h)) = inl h
    append-HasSeen q (c ∷ es) p (inl (inr h)) = inr (append-HasSeen q es p (inl h))
    append-HasSeen q (c ∷ es) p (inr h) = inr (append-HasSeen q es p (inr h))

    filter-HasSeen :
        (q : ℕ) (es : Entries)
        → HasSeen q es
        → is_some (find long_bits parse F (filter (is_seen long_bits parse F) es) q) ≡ true
    unfolding find
    filter-HasSeen q [] h = absurd h
    filter-HasSeen q (p ∷ es) (inl (e, s)) = rw (s, (==_iff p.pid q).1 e) refl
    filter-HasSeen q (p ∷ es) (inr h) = elim (Bool-cases p.seen) [
      | inl s ↦ rw s (elim (Bool-cases (p.pid == q)) [
        | inl b ↦ rw b refl
        | inr b ↦ rw b (filter-HasSeen q es h)
      ])
      | inr s ↦ rw s (filter-HasSeen q es h)
    ]

    Visit-keeps :
        (q : ℕ) (n : Text) (es es' : Entries)
        → Visit long_bits parse F procs elapsed_s stat es n es'
        → HasSeen q es
        → HasSeen q es'
    Visit-keeps q n es es' (skipped k) h = h
    Visit-keeps q n es es' (full k b) h = h
    Visit-keeps q n es es' (known name jiffies rss d r k) h =
        HasSeen-update q (atoi_from 0 n) es name jiffies rss h
    Visit-keeps q n es es' (added name jiffies rss d r k b) h = append-HasSeen q es _ (inl h)

    abbrev Readable : ℕ → Type 0
    Readable pid = is_some (read_stat long_bits parse (stat pid)) ≡ true

    Visit-sees :
        (n : Text) (es es' : Entries)
        → Visit long_bits parse F procs elapsed_s stat es n es'
        → starts_with_digit n ≡ true
        → Readable (atoi_from 0 n)
        → length es < procs_max
        → HasSeen (atoi_from 0 n) es'
    unfolding measure
    Visit-sees n es es' (skipped (inl e)) d r b = absurd (cc (sym e ∙ d))
    Visit-sees n es es' (skipped (inr e)) d r b = absurd (cc (rw e at r))
    Visit-sees n es es' (full k c) d r b = absurd (omega arith)
    Visit-sees n es es' (known name jiffies rss d r k) d' r' b =
        update-HasSeen (atoi_from 0 n) es name jiffies rss k
    Visit-sees n es es' (added name jiffies rss d r k c) d' r' b =
        append-HasSeen (atoi_from 0 n) es _ (inr (refl, refl))

    length-update :
        (es : Entries) (pid : ℕ) (name : Text) (jiffies rss : ℕ)
        → length (update_found long_bits parse F es pid (take_in name jiffies rss)) ≡ length es
    unfolding update_found
    length-update [] pid name jiffies rss = refl
    length-update (p ∷ es) pid name jiffies rss = elim (Bool-cases (p.pid == pid)) [
      | inl b ↦ rw b refl
      | inr b ↦ rw b (ap suc (length-update es pid name jiffies rss))
    ]

    length-Visit :
        (n : Text) (es es' : Entries)
        → Visit long_bits parse F procs elapsed_s stat es n es'
        → length es' ≤ length es + 1
    length-Visit n es es' (skipped k) = omega arith
    length-Visit n es es' (full k b) = omega arith
    length-Visit n es es' (known name jiffies rss d r k) =
        omega (arith, length-update es (atoi_from 0 n) name jiffies rss)
    length-Visit n es es' (added name jiffies rss d r k b) = omega (
      arith,
      length-append es
          (take_in name jiffies rss (fresh long_bits parse F (atoi_from 0 n) jiffies) ∷ []),
    )

    visit_all-HasSeen :
        (q : ℕ) (ns : List Text) (es : Entries)
        → HasSeen q es ⊎ Listed q ns
        → Readable q
        → length es + length ns ≤ procs_max
        → HasSeen q (visit_all long_bits parse F procs elapsed_s stat es ns)
    unfolding visit_all
    visit_all-HasSeen q [] es (inl h) r b = h
    visit_all-HasSeen q [] es (inr h) r b = absurd h
    visit_all-HasSeen q (n ∷ ns) es h r b =
        let v = visit-cases long_bits parse F procs elapsed_s stat es n in
        let room : length (visit long_bits parse F procs elapsed_s stat es n) + length ns
            ≤ procs_max =
          omega (arith, length-Visit n es _ v) in
        visit_all-HasSeen q ns (visit long_bits parse F procs elapsed_s stat es n)
          (elim h [
            | inl k ↦ inl (Visit-keeps q n es _ v k)
            | inr (inl (d, e)) ↦ inl (
                subst (λ (k : ℕ). HasSeen k (visit long_bits parse F procs elapsed_s stat es n)) e
                  (Visit-sees n es _ v d (subst Readable (sym e) r) (omega arith)))
            | inr (inr k) ↦ inr k
          ])
          r room

    -- Every process that /proc lists and whose stat file can be read is in the list after a scan, if
    -- the entries there were and the names listed are 512 at most.
    pub find-scan :
        (dir : List Text) (pid : ℕ)
        → Listed pid dir
        → Readable pid
        → length procs.entries + length dir ≤ procs_max
        → is_some (
            find long_bits parse F
              (scan long_bits parse F procs elapsed_s (some dir) stat).entries
              pid)
          ≡ true
    unfolding scan
    find-scan dir pid l r b = filter-HasSeen pid _ (
        visit_all-HasSeen pid dir (map (unseen long_bits parse F) procs.entries) (inr l) r
          (rw (length-map (unseen long_bits parse F) procs.entries) b))

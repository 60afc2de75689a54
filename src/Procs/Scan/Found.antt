-- ===== src/Procs/Scan/Found.antt =====
-- The bounds of the process list.
use axis_cam_metrics.Base.{
  ℕ, suc, ◌≤◌, ◌≡◌, ◌≢◌, refl, sym, ap, ◌∙◌, inl, inr, List, [], ◌∷◌, ◌++◌, Option, none, some,
  arith, All, length, length-append, Bool-cases, ==_iff, ◌==◌, map, filter, subst,
}
use axis_cam_metrics.Base.Text.{Text}
use axis_cam_metrics.Floats.{Floats}
use axis_cam_metrics.Procs.{
  Procs, procs_max, atoi_from, find, measure, update_found, visit_all, unseen, is_seen, scan,
}
use axis_cam_metrics.Procs.Scan.{P, Visit, fresh, taken, visit-cases, skipped, full, known, added}

abbrev pub NoPid : ℕ → List ℕ → Type 0
NoPid pid xs = All (λ (x : ℕ). x ≢ pid) xs

abbrev pub DistinctPids : List ℕ → Type 0
DistinctPids [] = Unit
DistinctPids (x ∷ xs) = NoPid x xs × DistinctPids xs

NoPid-append : (pid : ℕ) (xs ys : List ℕ) → NoPid pid xs → NoPid pid ys → NoPid pid (xs ++ ys)
NoPid-append pid [] ys h k = k
NoPid-append pid (x ∷ xs) ys h k = (h.0, NoPid-append pid xs ys h.1 k)

DistinctPids-append :
    (xs : List ℕ) (y : ℕ) → DistinctPids xs → NoPid y xs → DistinctPids (xs ++ (y ∷ []))
DistinctPids-append [] y d h = (tt, tt)
DistinctPids-append (x ∷ xs) y d h =
    (NoPid-append x xs (y ∷ []) d.0 (λ e. h.0 (sym e), tt), DistinctPids-append xs y d.1 h.1)

module _ (long_bits : ℕ) (parse : Text → Option (ℕ × ℕ × ℕ)) (F : Floats) where
  open F use {Double}

  abbrev Entries : Type 0
  Entries = List (P long_bits parse F)

  abbrev pub pids : Entries → List ℕ
  pids [] = []
  pids (p ∷ ps) = p.pid ∷ pids ps

  -- At most 512 processes, no two with one pid.
  pub record IsList (es : Entries) : Type 0 where
    pub bounded : length es ≤ procs_max
    pub distinct : DistinctPids (pids es)

  pids-append :
      (es : Entries) (p : P long_bits parse F) → pids (es ++ (p ∷ [])) ≡ pids es ++ (p.pid ∷ [])
  pids-append [] p = refl
  pids-append (q ∷ es) p = ap (λ l. q.pid ∷ l) (pids-append es p)

  find-NoPid : (es : Entries) (pid : ℕ) → find long_bits parse F es pid ≡ none → NoPid pid (pids es)
  unfolding find
  find-NoPid [] pid h = tt
  find-NoPid (p ∷ es) pid h = elim (Bool-cases (p.pid == pid)) [
    | inl b ↦ absurd (cc (rw b at h))
    | inr b ↦ (λ e. cc (sym b ∙ (==_iff p.pid pid).1 e), find-NoPid es pid (rw b at h))
  ]

  pids-unseen : (es : Entries) → pids (map (unseen long_bits parse F) es) ≡ pids es
  pids-unseen [] = refl
  pids-unseen (p ∷ es) = ap (λ l. p.pid ∷ l) (pids-unseen es)

  NoPid-filter :
      (pid : ℕ) (es : Entries)
      → NoPid pid (pids es)
      → NoPid pid (pids (filter (is_seen long_bits parse F) es))
  NoPid-filter pid [] h = tt
  NoPid-filter pid (p ∷ es) h = elim (Bool-cases p.seen) [
    | inl b ↦ rw b (h.0, NoPid-filter pid es h.1)
    | inr b ↦ rw b (NoPid-filter pid es h.1)
  ]

  length-filter : (es : Entries) → length (filter (is_seen long_bits parse F) es) ≤ length es
  length-filter [] = omega arith
  length-filter (p ∷ es) = ground (arith, length-filter es)

  filter-Distinct :
      (es : Entries)
      → DistinctPids (pids es)
      → DistinctPids (pids (filter (is_seen long_bits parse F) es))
  filter-Distinct [] d = tt
  filter-Distinct (p ∷ es) d = elim (Bool-cases p.seen) [
    | inl b ↦ rw b (NoPid-filter p.pid es d.0, filter-Distinct es d.1)
    | inr b ↦ rw b (filter-Distinct es d.1)
  ]

  module _ (procs : Procs long_bits parse F) (elapsed_s : Double) (stat : ℕ → Option Text) where
    abbrev take_in : Text → ℕ → ℕ → P long_bits parse F → P long_bits parse F
    take_in = taken long_bits parse F procs elapsed_s stat

    pids-update :
        (es : Entries) (pid : ℕ) (name : Text) (jiffies rss : ℕ)
        → pids (update_found long_bits parse F es pid (take_in name jiffies rss)) ≡ pids es
    unfolding update_found measure
    pids-update [] pid name jiffies rss = refl
    pids-update (p ∷ es) pid name jiffies rss = elim (Bool-cases (p.pid == pid)) [
      | inl b ↦ rw b refl
      | inr b ↦ rw b (ap (λ l. p.pid ∷ l) (pids-update es pid name jiffies rss))
    ]

    length-pids : (es : Entries) → length (pids es) ≡ length es
    length-pids [] = refl
    length-pids (p ∷ es) = ap suc (length-pids es)

    same_pids : (es es' : Entries) → pids es' ≡ pids es → IsList es → IsList es'
    same_pids es es' e v = record {
      bounded = omega (arith, v.bounded, length-pids es, length-pids es', ap length e);
      distinct = subst DistinctPids (sym e) v.distinct;
    }

    Visit-IsList :
        (es : Entries) (entry : Text) (es' : Entries)
        → Visit long_bits parse F procs elapsed_s stat es entry es'
        → IsList es
        → IsList es'
    unfolding measure
    Visit-IsList es entry es' (skipped h) v = v
    Visit-IsList es entry es' (full h b) v = v
    Visit-IsList es entry es' (known name jiffies rss d r h) v =
        same_pids es _ (pids-update es (atoi_from 0 entry) name jiffies rss) v
    Visit-IsList es entry es' (added name jiffies rss d r h b) v = record {
      bounded = omega (
        arith,
        length-append es
            (take_in name jiffies rss (fresh long_bits parse F (atoi_from 0 entry) jiffies) ∷ []),
      );
      distinct = subst DistinctPids (sym (pids-append es _)) (
          DistinctPids-append (pids es) (atoi_from 0 entry) v.distinct
            (find-NoPid es (atoi_from 0 entry) h));
    }

    visit_all-IsList :
        (dir : List Text) (es : Entries)
        → IsList es
        → IsList (visit_all long_bits parse F procs elapsed_s stat es dir)
    unfolding visit_all
    visit_all-IsList [] es v = v
    visit_all-IsList (n ∷ dir) es v =
        visit_all-IsList dir _
          (Visit-IsList es n _ (visit-cases long_bits parse F procs elapsed_s stat es n) v)

    -- A scan leaves at most 512 processes, no two with one pid.
    pub scan-IsList :
        (dir : Option (List Text))
        → IsList procs.entries
        → IsList (scan long_bits parse F procs elapsed_s dir stat).entries
    unfolding scan
    scan-IsList none v = same_pids procs.entries _ (pids-unseen procs.entries) v
    scan-IsList (some names) v =
        let w =
          visit_all-IsList names _ (same_pids procs.entries _ (pids-unseen procs.entries) v) in
        record {
          bounded = omega (
            arith,
            w.bounded,
            length-filter (
                visit_all long_bits parse F procs elapsed_s stat
                  (map (unseen long_bits parse F) procs.entries) names),
          );
          distinct = filter-Distinct _ w.distinct;
        }

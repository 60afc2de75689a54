-- ===== src/Procs/Scan.antt =====
-- What one name of /proc does to the list of processes.
pub mod Found
pub mod Seen
pub mod Complete
use axis_cam_metrics.Base.{
  ℕ, zero, suc, ◌+◌, ◌≤◌, ◌<◌, ◌≡◌, ◌≢◌, refl, sym, ap, ◌∙◌, ◌⊎◌, inl, inr, List, [], ◌∷◌, ◌++◌,
  Option, none, some, Bool, true, false, arith, All, length, length-append, Bool-cases,
  Option-cases, is_some, leb, leb→le, subst, ==_iff, ne→==, ◌==◌, map, filter,
}
use axis_cam_metrics.Base.Text.{Text}
use axis_cam_metrics.Floats.{Floats}
use axis_cam_metrics.Procs.{
  Proc, Procs, procs_max, starts_with_digit, atoi_from, read_stat, find, admit, measure,
  update_found, visit,
}

leb→lt : (a b : ℕ) → leb a b ≡ false → b < a
leb→lt a b h = ground arith

module _ (long_bits : ℕ) (parse : Text → Option (ℕ × ℕ × ℕ)) (F : Floats) where
  open F use {Double, of_nat}

  abbrev pub P : Type 0
  P = Proc long_bits parse F

  -- The entry of a process that had none.
  abbrev pub fresh : ℕ → ℕ → P
  fresh pid jiffies = record {
    pid = pid;
    name = [];
    jiffies = jiffies;
    rss_bytes = 0;
    cpu_percent = of_nat 0;
    seen = false;
  }

  pub admit_found :
      (es : List P) (pid jiffies : ℕ)
      → is_some (find long_bits parse F es pid) ≡ true
      → admit long_bits parse F es pid jiffies ≡ some es
  unfolding admit
  admit_found es pid jiffies h = rw h refl

  pub admit_full :
      (es : List P) (pid jiffies : ℕ)
      → find long_bits parse F es pid ≡ none
      → leb procs_max (length es) ≡ true
      → admit long_bits parse F es pid jiffies ≡ none
  unfolding admit
  admit_full es pid jiffies h full = rw (h, full) refl

  pub admit_added :
      (es : List P) (pid jiffies : ℕ)
      → find long_bits parse F es pid ≡ none
      → leb procs_max (length es) ≡ false
      → admit long_bits parse F es pid jiffies ≡ some (es ++ (fresh pid jiffies ∷ []))
  unfolding admit
  admit_added es pid jiffies h room = rw (h, room) refl

  update-append :
      (es : List P) (pid : ℕ) (q : P) (f : P → P)
      → find long_bits parse F es pid ≡ none
      → q.pid ≡ pid
      → update_found long_bits parse F (es ++ (q ∷ [])) pid f ≡ es ++ (f q ∷ [])
  unfolding find update_found
  update-append [] pid q f h e = rw ((==_iff q.pid pid).1 e) refl
  update-append (p ∷ es) pid q f h e = elim (Bool-cases (p.pid == pid)) [
    | inl b ↦ absurd (cc (rw b at h))
    | inr b ↦ rw b (ap (λ l. p ∷ l) (update-append es pid q f (rw b at h) e))
  ]

  module _ (procs : Procs long_bits parse F) (elapsed_s : Double) (stat : ℕ → Option Text) where
    -- What a scan reads of a process.
    abbrev pub Reads : ℕ → Text → ℕ → ℕ → Type 0
    Reads pid name jiffies rss = read_stat long_bits parse (stat pid) ≡ some (name, jiffies, rss)

    abbrev pub taken : Text → ℕ → ℕ → P → P
    taken name jiffies rss = measure long_bits parse F procs elapsed_s name jiffies rss

    -- The cases of one name: not a process or not readable; no room for it; known; new.
    pub data Visit (es : List P) (entry : Text) : List P → Type 0 where
      skipped :
          (starts_with_digit entry ≡ false)
            ⊎ (read_stat long_bits parse (stat (atoi_from 0 entry)) ≡ none)
          → Visit es entry es
      full :
          find long_bits parse F es (atoi_from 0 entry) ≡ none
          → procs_max ≤ length es
          → Visit es entry es
      known :
          (name : Text) (jiffies rss : ℕ)
          → starts_with_digit entry ≡ true
          → Reads (atoi_from 0 entry) name jiffies rss
          → is_some (find long_bits parse F es (atoi_from 0 entry)) ≡ true
          → Visit es entry
              (update_found long_bits parse F es (atoi_from 0 entry) (taken name jiffies rss))
      added :
          (name : Text) (jiffies rss : ℕ)
          → starts_with_digit entry ≡ true
          → Reads (atoi_from 0 entry) name jiffies rss
          → find long_bits parse F es (atoi_from 0 entry) ≡ none
          → length es < procs_max
          → Visit es entry (es ++ (taken name jiffies rss (fresh (atoi_from 0 entry) jiffies) ∷ []))

    visit_admitted :
        (es es' : List P) (entry name : Text) (jiffies rss : ℕ)
        → starts_with_digit entry ≡ true
        → Reads (atoi_from 0 entry) name jiffies rss
        → admit long_bits parse F es (atoi_from 0 entry) jiffies ≡ some es'
        → visit long_bits parse F procs elapsed_s stat es entry
          ≡ update_found long_bits parse F es' (atoi_from 0 entry) (taken name jiffies rss)
    unfolding visit
    visit_admitted es es' entry name jiffies rss d r a = rw (d, visit, r, a) refl

    visit_full :
        (es : List P) (entry name : Text) (jiffies rss : ℕ)
        → starts_with_digit entry ≡ true
        → Reads (atoi_from 0 entry) name jiffies rss
        → admit long_bits parse F es (atoi_from 0 entry) jiffies ≡ none
        → visit long_bits parse F procs elapsed_s stat es entry ≡ es
    unfolding visit
    visit_full es entry name jiffies rss d r a = rw (d, visit, r, a) refl

    visit_readable :
        (es : List P) (entry name : Text) (jiffies rss : ℕ)
        → starts_with_digit entry ≡ true
        → Reads (atoi_from 0 entry) name jiffies rss
        → Visit es entry (visit long_bits parse F procs elapsed_s stat es entry)
    visit_readable es entry name jiffies rss d r =
        let pid = atoi_from 0 entry in
        elim (Option-cases (find long_bits parse F es pid)) [
          | inr (p, found) ↦
              let known' : is_some (find long_bits parse F es pid) ≡ true = ap is_some found in
              subst (Visit es entry)
                (sym (
                  visit_admitted es es entry name jiffies rss d r
                    (admit_found es pid jiffies known')))
                (known name jiffies rss d r known')
          | inl absent ↦ elim (Bool-cases (leb procs_max (length es))) [
            | inl b ↦
                subst (Visit es entry)
                  (sym
                    (visit_full es entry name jiffies rss d r (admit_full es pid jiffies absent b)))
                  (full absent (leb→le procs_max (length es) b))
            | inr b ↦
                subst (Visit es entry)
                  (sym (
                    visit_admitted es _ entry name jiffies rss d r
                      (admit_added es pid jiffies absent b)
                    ∙ update-append es pid (fresh pid jiffies) (taken name jiffies rss) absent
                        refl))
                  (added name jiffies rss d r absent (leb→lt procs_max (length es) b))
          ]
        ]

    pub visit-cases :
        (es : List P) (entry : Text)
        → Visit es entry (visit long_bits parse F procs elapsed_s stat es entry)
    unfolding visit
    visit-cases es entry = elim (Bool-cases (starts_with_digit entry)) [
      | inr e ↦ rw e (skipped (inl e))
      | inl e ↦ elim (Option-cases (read_stat long_bits parse (stat (atoi_from 0 entry)))) [
        | inl r ↦ rw (e, r) (skipped (inr r))
        | inr ((name, jiffies, rss), r) ↦ visit_readable es entry name jiffies rss e r
      ]
    ]

-- ===== src/Collect/Names.antt =====
-- `sanitize`: the part of a metric's id that a device name becomes.
use axis_cam_metrics.Base.{
  ℕ, zero, suc, ◌-◌, ◌≤◌, ◌<◌, ◌≡◌, refl, ap, [], ◌∷◌, true, arith, All, length, take, take_all,
  ◌∙◌, if_ind,
}
use axis_cam_metrics.Base.Text.{Text}
use axis_cam_metrics.Collect.{is_plain, sanitize_from, sanitize}

abbrev pub AllPlain : Text → Type 0
AllPlain s = All (λ (c : ℕ). is_plain c ≡ true) s

sanitize_from-AllPlain :
    (room : ℕ) (s : Text) → AllPlain (sanitize_from room s) × (length (sanitize_from room s) ≤ room)
unfolding sanitize_from is_plain
sanitize_from-AllPlain zero s = (tt, omega arith)
sanitize_from-AllPlain (suc room) [] = (tt, omega arith)
sanitize_from-AllPlain (suc room) (c ∷ cs) =
    let rest = sanitize_from-AllPlain room cs in
    (
      (if_ind (λ (b : ℕ). is_plain b ≡ true) (is_plain c) (λ e. e) (λ e. refl), rest.0),
      omega (arith, rest.1),
    )

sanitize_from-plain : (room : ℕ) (s : Text) → AllPlain s → sanitize_from room s ≡ take room s
unfolding sanitize_from
sanitize_from-plain zero s h = refl
sanitize_from-plain (suc room) [] h = refl
sanitize_from-plain (suc room) (c ∷ cs) h =
    rw h.0 (ap (λ l. c ∷ l) (sanitize_from-plain room cs h.1))

-- A sanitized name has only letters, digits and `_`, so no `.`; it fits its array with the terminator;
-- and sanitizing it again for an array of the same size changes nothing.
pub sanitize-AllPlain :
    (s : Text) (len : ℕ)
    → 0 < len
    → AllPlain (sanitize s len)
      × (length (sanitize s len) < len)
      × (sanitize (sanitize s len) len ≡ sanitize s len)
unfolding sanitize
sanitize-AllPlain s len h =
    let (plain, fits) = sanitize_from-AllPlain (len - 1) s in
    (
      plain,
      omega arith,
      sanitize_from-plain (len - 1) (sanitize s len) plain
          ∙ take_all (len - 1) (sanitize s len) fits,
    )

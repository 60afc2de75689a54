-- ===== src/Procs/Stat.antt =====
-- `read_stat`: the command name of a stat file.
use axis_cam_metrics.Base.{
  ℕ, ◌+◌, ◌-◌, ◌%◌, ◌^◌, ◌≡◌, ◌≢◌, refl, sym, ap, ◌∙◌, List, [], ◌∷◌, ◌++◌, Option, none, some,
  arith, All, length, take, drop, length-append, le→ltb, ne→==, append_assoc,
}
use native.Mathlib.Nat.{suc-add}
use axis_cam_metrics.Base.Text.{Text, strlcpy}
use axis_cam_metrics.Procs.{first_index, last_index, read_stat, name_max}

abbrev pub Without : ℕ → Text → Type 0
Without c s = All (λ (b : ℕ). b ≢ c) s

first_index-append :
    (c : ℕ) (s t : Text) → Without c s → first_index c (s ++ (c ∷ t)) ≡ some (length s)
unfolding first_index
first_index-append c [] t h = ground arith
first_index-append c (b ∷ s) t h = rw (ne→== b c h.0, first_index-append c s t h.1) refl

last_index-none : (c : ℕ) (t : Text) → Without c t → last_index c t ≡ none
unfolding last_index
last_index-none c [] h = refl
last_index-none c (b ∷ t) h = rw (last_index-none c t h.1, ne→== b c h.0) refl

last_index-append :
    (c : ℕ) (s t : Text) → Without c t → last_index c (s ++ (c ∷ t)) ≡ some (length s)
unfolding last_index
last_index-append c [] t h = rw (last_index-none c t h) (ground arith)
last_index-append c (b ∷ s) t h = rw (last_index-append c s t h) refl

drop-length {ℓ} :
    {A : Type ℓ} (xs ys : List A) (k : ℕ) → drop (length xs + k) (xs ++ ys) ≡ drop k ys
drop-length [] ys k = ap (λ (n : ℕ). drop n ys) (omega arith)
drop-length (x ∷ xs) ys k = rw suc-add (drop-length xs ys k)

take-length {ℓ} : {A : Type ℓ} (xs ys : List A) → take (length xs) (xs ++ ys) ≡ xs
take-length [] ys = refl
take-length (x ∷ xs) ys = ap (λ l. x ∷ l) (take-length xs ys)

module _ (long_bits : ℕ) (parse : Text → Option (ℕ × ℕ × ℕ)) where
  -- A stat file whose command name is in brackets is read as its name, cut to its field, and what the
  -- text after the last bracket says, whatever the name has in it: spaces, digits or brackets. No
  -- bracket opens before the name, and none closes after it.
  pub read_stat-name :
      (before name rest : Text) (gap utime stime rss : ℕ)
      → Without 40 before
      → Without 41 (gap ∷ rest)
      → parse rest ≡ some (utime, stime, rss)
      → read_stat long_bits parse (some (before ++ (40 ∷ (name ++ (41 ∷ gap ∷ rest)))))
        ≡ some (strlcpy name_max name, (utime + stime) % 2 ^ long_bits, rss)
  unfolding read_stat
  read_stat-name before name rest gap utime stime rss b r p =
      rw
        (
          read_stat,
          first_index-append 40 before (name ++ (41 ∷ gap ∷ rest)) b,
          closing,
          le→ltb (length (before ++ (40 ∷ name))) (length before)
              (omega (arith, length-append before (40 ∷ name))),
          tail_text,
          p,
          name_text,
        )
        refl
    where
      contents : Text
      contents = before ++ (40 ∷ (name ++ (41 ∷ gap ∷ rest)))

      parts : contents ≡ (before ++ (40 ∷ name)) ++ (41 ∷ gap ∷ rest)
      parts = sym (append_assoc before (40 ∷ name) (41 ∷ gap ∷ rest))

      closing : last_index 41 contents ≡ some (length (before ++ (40 ∷ name)))
      closing =
          ap (last_index 41) parts ∙ last_index-append 41 (before ++ (40 ∷ name)) (gap ∷ rest) r

      tail_text : drop (length (before ++ (40 ∷ name)) + 2) contents ≡ rest
      tail_text =
          ap (drop (length (before ++ (40 ∷ name)) + 2)) parts
          ∙ drop-length (before ++ (40 ∷ name)) (41 ∷ gap ∷ rest) 2

      width : length (before ++ (40 ∷ name)) - length before - 1 ≡ length name
      width = omega (arith, length-append before (40 ∷ name))

      name_text :
          take
            (length (before ++ (40 ∷ name)) - length before - 1)
            (drop (length before + 1) contents)
          ≡ name
      name_text =
          ap (take (length (before ++ (40 ∷ name)) - length before - 1))
            (drop-length before (40 ∷ (name ++ (41 ∷ gap ∷ rest))) 1)
          ∙ ap (λ (n : ℕ). take n (name ++ (41 ∷ gap ∷ rest))) width
          ∙ take-length name (41 ∷ gap ∷ rest)

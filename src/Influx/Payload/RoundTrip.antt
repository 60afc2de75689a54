-- ===== src/Influx/Payload/RoundTrip.antt =====
-- Escaped keys and values with commas between them, and the reader of line protocol.
use axis_cam_metrics.Base.{
  ℕ, zero, suc, ◌≤◌, ◌<◌, ◌≡◌, All, refl, List, [], ◌∷◌, ◌++◌, Bool, true, false, ◌||◌, ◌==◌, arith,
  length, length-append,
}
use axis_cam_metrics.Base.Text.{Text}
use axis_cam_metrics.Influx.{escaped}
use axis_cam_metrics.Influx.Payload.Line.{
  token, at_equals, at_separator, pairs, token-escaped, OneLine, covers-OneLine,
}

abbrev pub tag_special : ℕ → Bool
tag_special c = c == 44 || (c == 61 || (c == 32 || c == 92))

abbrev pub measurement_special : ℕ → Bool
measurement_special c = c == 44 || (c == 32 || c == 92)

abbrev pub line_special : ℕ → Bool
line_special c = c == 10 || c == 92

-- A text that escaping leaves as it is.
abbrev pub Untouched : (ℕ → Bool) → Text → Type 0
Untouched special s = escaped special s ≡ s

abbrev pub esc : Text → Text
esc s = escaped tag_special s

-- The pairs after the first, and what follows them.
abbrev pub more : List (Text × Text) → Text → Text
more [] rest = rest
more ((key, value) ∷ ps) rest = 44 ∷ (esc key ++ (61 ∷ (esc value ++ more ps rest)))

read_key :
    (key : Text) (rest : Text)
    → OneLine key
    → token at_equals false (esc key ++ (61 ∷ rest)) ≡ (key, 61 ∷ rest)
read_key key rest o =
    token-escaped tag_special at_equals key 61 rest refl
      (covers-OneLine tag_special at_equals key (λ c n h. ground arith) o) refl refl

read_value :
    (value : Text) (d : ℕ) (rest : Text)
    → OneLine value
    → at_separator d ≡ true
    → (d == 92) ≡ false
    → token at_separator false (esc value ++ (d ∷ rest)) ≡ (value, d ∷ rest)
read_value value d rest o at ne =
    token-escaped tag_special at_separator value d rest refl
      (covers-OneLine tag_special at_separator value (λ c n h. ground arith) o) at ne

-- Keys and values of one line.
abbrev pub AllOneLine : List (Text × Text) → Type 0
AllOneLine ps = All (λ (p : Text × Text). OneLine p.0 × OneLine p.1) ps

pub pairs_read :
    (ps : List (Text × Text)) (key value : Text) (n : ℕ) (rest : Text)
    → length ps < n
    → AllOneLine ((key, value) ∷ ps)
    → pairs n (esc key ++ (61 ∷ (esc value ++ more ps (32 ∷ rest))))
      ≡ ((key, value) ∷ ps, 32 ∷ rest)
unfolding pairs
pairs_read ps key value zero rest b o = absurd (omega arith)
pairs_read [] key value (suc n) rest b ((ok, ov), o) =
    rw (read_key key (esc value ++ (32 ∷ rest)) ok, pairs, read_value value 32 rest ov refl refl)
      refl
pairs_read ((k, v) ∷ ps) key value (suc n) rest b ((ok, ov), o) =
    rw
      (
        read_key key (esc value ++ more ((k, v) ∷ ps) (32 ∷ rest)) ok,
        pairs,
        read_value value 44 (esc k ++ (61 ∷ (esc v ++ more ps (32 ∷ rest)))) ov refl refl,
        pairs_read ps k v n rest (omega arith) o,
      )
      refl

pub length-more : (ps : List (Text × Text)) (rest : Text) → length ps ≤ length (more ps rest)
length-more [] rest = omega arith
length-more ((k, v) ∷ ps) rest = omega (
  arith,
  length-more ps rest,
  length-append (esc k) (61 ∷ (esc v ++ more ps rest)),
  length-append (esc v) (more ps rest),
)

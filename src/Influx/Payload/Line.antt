-- ===== src/Influx/Payload/Line.antt =====
-- A reader of line protocol, where a newline ends the line wherever it stands, and what the reader makes
-- of the text of escaped keys and values.
use axis_cam_metrics.Base.{
  ℕ, zero, suc, ◌≡◌, refl, sym, ap, ◌∙◌, List, [], ◌∷◌, ◌++◌, Bool, true, false, ◌||◌, ◌==◌,
  if◌then◌else◌, length, drop, All, ◌≢◌, Bool-cases, inl, inr, ==_iff,
}
use axis_cam_metrics.Base.Text.{Text}
use axis_cam_metrics.Influx.{escaped}

-- The text up to the first byte that stops it, with the escapes undone, and what is left; the flag says
-- that the byte before was the escape.
unfoldable pub token : (ℕ → Bool) → Bool → Text → Text × Text
token stop quoted [] = ([], [])
token stop true (c ∷ cs) = let (t, r) = token stop false cs in (c ∷ t, r)
token stop false (c ∷ cs) =
    let escape = token stop true cs in
    let (t, r) = token stop false cs in
    if c == 92 then escape else if stop c then ([], c ∷ cs) else (c ∷ t, r)

abbrev pub at_equals : ℕ → Bool
at_equals c = c == 61 || c == 10

abbrev pub at_separator : ℕ → Bool
at_separator c = c == 44 || (c == 32 || c == 10)

-- Keys and values with commas between them, `n` pairs at most.
unfoldable pub pairs : ℕ → Text → List (Text × Text) × Text
unfolding token
pairs zero t = ([], t)
pairs (suc n) t =
    let (key, r) = token at_equals false t in
    let (value, r') = token at_separator false (drop 1 r) in
    let (more, r'') = pairs n (drop 1 r') in
    if is_comma r' then ((key, value) ∷ more, r'') else ((key, value) ∷ [], r')
  where
    is_comma : Text → Bool
    is_comma [] = false
    is_comma (c ∷ cs) = c == 44

pub record Line : Type 0 where
  pub measurement : Text
  pub tags : List (Text × Text)
  pub fields : List (Text × Text)
  pub time : Text

-- `measurement,tag=value,... field=value,... time`
unfoldable pub read_line : Text → Line
unfolding pairs
read_line t =
    let (measurement, r) = token at_separator false t in
    let (tags, r') = pairs (length t) (drop 1 r) in
    let (fields, r'') = pairs (length t) (drop 1 r') in
    let (time, r''') = token (λ c. c == 10) false (drop 1 r'') in
    record { measurement = measurement; tags = tags; fields = fields; time = time }

-- A text whose special bytes were escaped is read back up to a byte that stops it.
pub token-escaped :
    (special stop : ℕ → Bool) (s : Text) (d : ℕ) (rest : Text)
    → special 92 ≡ true
    → All (λ c. special c ≡ false → stop c ≡ false) s
    → stop d ≡ true
    → (d == 92) ≡ false
    → token stop false (escaped special s ++ (d ∷ rest)) ≡ (s, d ∷ rest)
unfolding token
token-escaped special stop [] d rest q covers at ne = rw (ne, at) refl
token-escaped special stop (c ∷ cs) d rest q (covers_c, covers) at ne =
    let rest_read = token-escaped special stop cs d rest q covers at ne in
    elim (Bool-cases (special c)) [
      | inl e ↦ rw (e, token, rest_read) refl
      | inr e ↦ rw (e, token, plain c e, covers_c e, rest_read) refl
    ]
  where
    plain : (b : ℕ) → special b ≡ false → (b == 92) ≡ false
    plain b h = elim (Bool-cases (b == 92)) [
      | inl t ↦ absurd (cc (sym h ∙ ap special ((==_iff b 92).0 t) ∙ q))
      | inr t ↦ t
    ]

-- A text that stays on one line.
abbrev pub OneLine : Text → Type 0
OneLine t = All (λ c. c ≢ 10) t

-- Where a newline is the only byte that stops a text and is not escaped, a text of one line is covered.
pub covers-OneLine :
    (special stop : ℕ → Bool) (t : Text)
    → ((c : ℕ) → c ≢ 10 → special c ≡ false → stop c ≡ false)
    → OneLine t
    → All (λ c. special c ≡ false → stop c ≡ false) t
covers-OneLine special stop [] h o = tt
covers-OneLine special stop (c ∷ cs) h (n, o) = (h c n, covers-OneLine special stop cs h o)

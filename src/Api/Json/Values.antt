-- ===== src/Api/Json/Values.antt =====
-- The object of the latest values that MQTT publishes, read back by a reader of JSON.
use axis_cam_metrics.Base.{
  Option, ℕ, zero, suc, ◌+◌, ◌-◌, ◌*◌, ◌≤◌, ◌<◌, ◌≡◌, ◌≢◌, refl, ap, ◌∙◌, List, [], ◌∷◌, ◌++◌, none,
  some, Bool, true, false, not, ◌||◌, ◌==◌, if◌then◌else◌, ltb, arith, All, drop, length,
  append_assoc, length-append, Bool-cases, Option-cases, inl, inr, ne→==, ==_iff, ltb→lt, lt→ltb,
  ◌&&◌, ◌/◌, ◌%◌, if_ind,
}
use axis_cam_metrics.Base.Int.{ℤ}
use axis_cam_metrics.Base.Text.{Text, codes, str_eq}
use axis_cam_metrics.Floats.{Floats}
use axis_cam_metrics.Metrics.{MetricDef}
use axis_cam_metrics.Selection.{transmit, selection_enabled}
use axis_cam_metrics.Settings.{escape_byte}
use axis_cam_metrics.Store.{store_latest}
use axis_cam_metrics.Api.Json.{Api, escaped_text, number, entries, api_current_values_json}

-- Inside a string: in plain text, after a backslash, or among the digits of `\u` with so many to come
-- after the next.
pub data Mode : Type 0 where
  plain escape : Mode
  hex : ℕ → ℕ → Mode

abbrev digit : ℕ → ℕ
digit c = if ltb c 58 then c - 48 else c - 87

abbrev meaning : ℕ → ℕ
meaning c = if c == 110 then 10 else if c == 114 then 13 else if c == 116 then 9 else c

-- A string up to its closing quote, and what follows.
unfoldable pub string_from : Mode → Text → Text × Text
string_from m [] = ([], [])
string_from plain (c ∷ cs) =
    let (t, r) = string_from plain cs in
    let escaped = string_from escape cs in
    if c == 34 then ([], cs) else if c == 92 then escaped else (c ∷ t, r)
string_from escape (c ∷ cs) =
    let (t, r) = string_from plain cs in
    let digits = string_from (hex 3 0) cs in if c == 117 then digits else (meaning c ∷ t, r)
string_from (hex zero n) (c ∷ cs) = let (t, r) = string_from plain cs in ((n * 16 + digit c) ∷ t, r)
string_from (hex (suc k) n) (c ∷ cs) = string_from (hex k (n * 16 + digit c)) cs

-- A number up to what separates it from the rest.
unfoldable pub number_from : Text → Text × Text
number_from [] = ([], [])
number_from (c ∷ cs) =
    let (t, r) = number_from cs in if c == 44 || c == 125 then ([], c ∷ cs) else (c ∷ t, r)

abbrev starts_with : ℕ → Text → Bool
starts_with b [] = false
starts_with b (c ∷ cs) = c == b

abbrev with_entry : Text → Text → Option (List (Text × Text)) → Option (List (Text × Text))
with_entry key value none = none
with_entry key value (some ps) = some ((key, value) ∷ ps)

-- The entries of an object from the quote of the first, `n` at most: a string, a colon and a number,
-- then a comma before the next, or the brace that ends the text. `none` is a text that is not so.
unfoldable pub read_entries : ℕ → Text → Option (List (Text × Text))
unfolding string_from number_from str_eq
read_entries zero t = none
read_entries (suc n) t =
    let (key, r) = string_from plain (drop 1 t) in
    let (value, r') = number_from (drop 1 r) in
    let more = with_entry key value (read_entries n (drop 1 r')) in
    let last : Option (List (Text × Text)) = some ((key, value) ∷ []) in
    if not (starts_with 34 t && (starts_with 58 r && ltb 0 (length value)))
    then none
    else if starts_with 44 r'
    then more
    else if str_eq r' (125 ∷ [])
    then last
    else none

-- An object of numbers: the whole text from its brace to its brace.
unfoldable pub read_object : Text → Option (List (Text × Text))
unfolding read_entries str_eq
read_object t =
    let entries = read_entries (length t) (drop 1 t) in
    if not (starts_with 123 t) then none else if str_eq t (123 ∷ 125 ∷ []) then some [] else entries

abbrev Reads : Text → ℕ → Text → Type 0
Reads t b rest = string_from plain t ≡ (b ∷ (string_from plain rest).0, (string_from plain rest).1)

digit-hex : (n : ℕ) → n < 16 → digit (if ltb n 10 then 48 + n else 87 + n) ≡ n
digit-hex n h = ground arith

string_from-escape_byte : (b : ℕ) (rest : Text) → Reads (escape_byte b ++ rest) b rest
unfolding string_from escape_byte
string_from-escape_byte b rest = elim (Bool-cases (b == 34)) [
  | inl e ↦ rw ((==_iff b 34).0 e) refl
  | inr a ↦ elim (Bool-cases (b == 92)) [
    | inl e ↦ rw ((==_iff b 92).0 e) refl
    | inr z ↦ elim (Bool-cases (b == 10)) [
      | inl e ↦ rw ((==_iff b 10).0 e) refl
      | inr n ↦ elim (Bool-cases (b == 13)) [
        | inl e ↦ rw ((==_iff b 13).0 e) refl
        | inr r ↦ elim (Bool-cases (b == 9)) [
          | inl e ↦ rw ((==_iff b 9).0 e) refl
          | inr t ↦ elim (Bool-cases (ltb b 32)) [
            | inl e ↦
                let small = ltb→lt b 32 e in
                let byte : (0 + b / 16) * 16 + b % 16 ≡ b = omega arith in
                rw
                  (
                    a,
                    z,
                    n,
                    r,
                    t,
                    e,
                    digit-hex (b / 16) (omega arith),
                    digit-hex (b % 16) (omega arith),
                  )
                  (ap (λ d. (d ∷ (string_from plain rest).0, (string_from plain rest).1)) byte)
            | inr e ↦ rw (a, z, n, r, t, e, a, z) refl
          ]
        ]
      ]
    ]
  ]
]

string_from-escaped_text :
    (s rest : Text) → string_from plain (escaped_text s ++ (34 ∷ rest)) ≡ (s, rest)
unfolding string_from escaped_text
string_from-escaped_text [] rest = refl
string_from-escaped_text (c ∷ cs) rest =
    ap (string_from plain) (append_assoc (escape_byte c) (escaped_text cs) (34 ∷ rest))
    ∙ string_from-escape_byte c (escaped_text cs ++ (34 ∷ rest))
    ∙ ap (λ p. (c ∷ p.0, p.1)) (string_from-escaped_text cs rest)

-- A text without the bytes that end a number.
abbrev pub Unbroken : Text → Type 0
Unbroken t = All (λ c. (c ≢ 44) × (c ≢ 125)) t

-- Such a text that is not empty.
abbrev pub IsNumber : Text → Type 0
IsNumber t = (0 < length t) × Unbroken t

number_from-Unbroken :
    (t : Text) (d : ℕ) (rest : Text)
    → Unbroken t
    → (d == 44 || d == 125) ≡ true
    → number_from (t ++ (d ∷ rest)) ≡ (t, d ∷ rest)
unfolding number_from
number_from-Unbroken [] d rest h e = rw e refl
number_from-Unbroken (c ∷ cs) d rest ((a, b), h) e =
    rw (ne→== c 44 a, ne→== c 125 b) (ap (λ p. (c ∷ p.0, p.1)) (number_from-Unbroken cs d rest h e))

-- Entries with a comma before each but the first, and what follows them.
abbrev joined : Bool → List (Text × Text) → Text → Text
joined first [] rest = rest
joined first ((key, value) ∷ ps) rest =
    (if first then [] else 44 ∷ [])
    ++ (34 ∷ (escaped_text key ++ (34 ∷ 58 ∷ (value ++ joined false ps rest))))

abbrev AllNumbers : List (Text × Text) → Type 0
AllNumbers ps = All (λ p. IsNumber p.1) ps

length-joined :
    (first : Bool) (ps : List (Text × Text)) (rest : Text)
    → length ps + length rest ≤ length (joined first ps rest)
length-joined first [] rest = omega arith
length-joined first ((key, value) ∷ ps) rest = omega (
  arith,
  length-joined false ps rest,
  length-append value (joined false ps rest),
  length-append (escaped_text key) (34 ∷ 58 ∷ (value ++ joined false ps rest)),
  length-append (if first then [] else 44 ∷ [])
      (34 ∷ (escaped_text key ++ (34 ∷ 58 ∷ (value ++ joined false ps rest)))),
)

read_entries-joined :
    (n : ℕ) (key value : Text) (ps : List (Text × Text))
    → AllNumbers ((key, value) ∷ ps)
    → length ps < n
    → read_entries n (joined true ((key, value) ∷ ps) (125 ∷ [])) ≡ some ((key, value) ∷ ps)
unfolding read_entries str_eq
read_entries-joined zero key value ps h b = absurd (omega arith)
read_entries-joined (suc n) key value [] ((size, v), h) b =
    rw
      (
        read_entries,
        string_from-escaped_text,
        number_from-Unbroken value 125 [] v refl,
        lt→ltb 0 (length value) size,
      )
      refl
read_entries-joined (suc n) key value ((key', value') ∷ ps) ((size, v), h) b =
    let later = 34 ∷ (escaped_text key' ++ (34 ∷ 58 ∷ (value' ++ joined false ps (125 ∷ [])))) in
    rw
      (
        read_entries,
        string_from-escaped_text,
        number_from-Unbroken value 44 later v refl,
        lt→ltb 0 (length value) size,
      )
      (ap (with_entry key value) (read_entries-joined n key' value' ps h (omega arith)))

read_object-joined :
    (ps : List (Text × Text))
    → AllNumbers ps
    → read_object (123 ∷ joined true ps (125 ∷ [])) ≡ some ps
unfolding read_object str_eq
read_object-joined [] h = refl
read_object-joined ((key, value) ∷ ps) h =
    read_entries-joined (suc (length (joined true ((key, value) ∷ ps) (125 ∷ [])))) key value ps h
      (omega (arith, length-joined true ((key, value) ∷ ps) (125 ∷ [])))

module _ (F : Floats) (format : F.Float → Text) (print_u : ℕ → Text) (print_time : ℤ → Text) where
  open F use {Float}

  -- The metrics with a reading that are shown, with their printed values.
  unfoldable pub listed : (Text → Bool) → List MetricDef → List Float → List (Text × Text)
  listed shows [] values = []
  listed shows (d ∷ ds) [] = []
  listed shows (d ∷ ds) (v ∷ vs) =
      let rest = listed shows ds vs in
      if F.is_nan v || not (shows d.id)
      then rest
      else (d.id, number F format print_u print_time v) ∷ rest

  entries-joined :
      (shows : Text → Bool) (first : Bool) (ds : List MetricDef) (vs : List Float) (rest : Text)
      → entries F format print_u print_time shows first ds vs ++ rest
        ≡ joined first (listed shows ds vs) rest
  unfolding entries listed
  entries-joined shows first [] vs rest = refl
  entries-joined shows first (d ∷ ds) [] rest = refl
  entries-joined shows first (d ∷ ds) (v ∷ vs) rest =
      elim (Bool-cases (F.is_nan v || not (shows d.id))) [
        | inl e ↦ rw e (entries-joined shows first ds vs rest)
        | inr e ↦ rw e (
            simp append_assoc (
              ap
                (λ l.
                  (if first then [] else 44 ∷ [])
                  ++ (34
                      ∷ (escaped_text d.id
                          ++ (34 ∷ 58 ∷ (number F format print_u print_time v ++ l)))))
                (entries-joined shows false ds vs rest)))
      ]

  module _ (plain_format : (v : Float) → IsNumber (format v)) where
    number-IsNumber : (v : Float) → IsNumber (number F format print_u print_time v)
    unfolding number
    number-IsNumber v = if_ind IsNumber (F.is_nan v || F.is_inf v) (λ _. null) (λ _. plain_format v)
      where
        null : IsNumber (codes "null")
        null = (omega arith, grind arith)

    listed-AllNumbers :
        (shows : Text → Bool) (ds : List MetricDef) (vs : List Float)
        → AllNumbers (listed shows ds vs)
    unfolding listed
    listed-AllNumbers shows [] vs = tt
    listed-AllNumbers shows (d ∷ ds) [] = tt
    listed-AllNumbers shows (d ∷ ds) (v ∷ vs) =
        if_ind AllNumbers (F.is_nan v || not (shows d.id)) {x = listed shows ds vs}
          {y = (d.id, number F format print_u print_time v) ∷ listed shows ds vs}
          (λ _. listed-AllNumbers shows ds vs)
          (λ _. (number-IsNumber v, listed-AllNumbers shows ds vs))

    -- The object of values that MQTT publishes is well formed, from brace to brace with a colon in each
    -- entry and commas between them, and has exactly the metrics that have a reading and are transmitted,
    -- each under its id and with its printed value, in the order of the registry; where there is no
    -- sample it is the empty object. A printed number is not empty and has no comma and no closing brace.
    pub read_object-current_values :
        (api : Api F)
        → read_object (api_current_values_json F format print_u print_time api)
          ≡ (elim (store_latest F api.store) [
            | none ↦ some []
            | some (values, timestamp) ↦
                some (listed (selection_enabled api.selection transmit) api.registry.defs values)
          ])
    unfolding api_current_values_json read_object read_entries str_eq
    read_object-current_values api = elim (Option-cases (store_latest F api.store)) [
      | inl e ↦ rw (e, api_current_values_json) refl
      | inr ((values, timestamp), e) ↦
          let shows = selection_enabled api.selection transmit in
          let ps = listed shows api.registry.defs values in
          let text = entries-joined shows true api.registry.defs values (125 ∷ []) in
          rw (e, api_current_values_json)
            (ap read_object (ap (λ l. 123 ∷ l) text)
              ∙ read_object-joined ps (listed-AllNumbers shows api.registry.defs values))
    ]

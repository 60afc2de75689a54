-- ===== src/Query/RoundTrip.antt =====
-- What is percent-encoded is decoded to what it was, and a parameter is found among others.
use axis_cam_metrics.Base.{
  ℕ, ◌+◌, ◌-◌, ◌/◌, ◌%◌, ◌<◌, ◌≡◌, ◌≢◌, refl, ap, ◌∙◌, List, [], ◌∷◌, ◌++◌, Option, none, some,
  Bool, ◌==◌, true, false, ltb, if◌then◌else◌, arith, All, Bool-cases, inl, inr, append_assoc,
  ne→==, ◌⊎◌,
}
use axis_cam_metrics.Base.Text.{Text, c_str, str_eq}
use axis_cam_metrics.Query.{
  is_xdigit, xdigit_value, decode_bytes, url_decode, after, until, value_of, scan, cursor_of,
  decoded, api_query_param,
}

-- A byte that can stand in a C string.
abbrev pub IsByte : ℕ → Type 0
IsByte b = (0 < b) × (b < 256)

-- The digits of base 16, small or capital ones from 10 on.
abbrev pub hex_digit : Bool → ℕ → ℕ
hex_digit small n = if ltb n 10 then b'0' + n else (if small then b'a' else b'A') + (n - 10)

-- How a byte of a value can be written: as it is, a space as `+`, or as `%XY` with digits of either
-- kind.
pub data Piece : Type 0 where
  literal : ℕ → Piece
  plus : Piece
  escape : ℕ → Bool → Bool → Piece

-- What the pieces stand for, and the text that is sent.
unfoldable pub value : List Piece → Text
value [] = []
value (literal b ∷ ps) = b ∷ value ps
value (plus ∷ ps) = b' ' ∷ value ps
value (escape b x y ∷ ps) = b ∷ value ps

unfoldable pub encoded : List Piece → Text
encoded [] = []
encoded (literal b ∷ ps) = b ∷ encoded ps
encoded (plus ∷ ps) = b'+' ∷ encoded ps
encoded (escape b x y ∷ ps) = b'%' ∷ hex_digit x (b / 16) ∷ hex_digit y (b % 16) ∷ encoded ps

-- The bytes that mean something to the parser are not written as they are.
abbrev pub IsPiece : Piece → Type 0
IsPiece (literal b) = IsByte b × (b ≢ b'%') × (b ≢ b'+') × (b ≢ b'&') × (b ≢ b'?')
IsPiece plus = Unit
IsPiece (escape b x y) = IsByte b

hex_digit_lem :
    (small : Bool) (n : ℕ)
    → n < 16
    → (is_xdigit (hex_digit small n) ≡ true) × (xdigit_value (hex_digit small n) ≡ n)
hex_digit_lem true n h = (ground arith, ground arith)
hex_digit_lem false n h = (ground arith, ground arith)

decode_one :
    (b : ℕ) (s : Text)
    → b ≢ b'%'
    → decode_bytes (b ∷ s) ≡ (if b == b'+' then b' ' else b) ∷ decode_bytes s
unfolding decode_bytes
decode_one b [] ne = refl
decode_one b (h ∷ []) ne = refl
decode_one b (h ∷ l ∷ rest) ne = rw (decode_bytes, ne→== b b'%' ne) (ground arith)

decode-encoded : (s : List Piece) → All IsPiece s → decode_bytes (encoded s) ≡ value s
unfolding encoded value decode_bytes
decode-encoded [] h = refl
decode-encoded (literal b ∷ ps) ((byte, percent, is_plus, amp, mark), h) =
    decode_one b (encoded ps) percent ∙ rw (ne→== b b'+' is_plus, decode-encoded ps h) refl
decode-encoded (plus ∷ ps) h =
    decode_one b'+' (encoded ps) (λ e. omega arith) ∙ ap (λ x. b' ' ∷ x) (decode-encoded ps h.1)
decode-encoded (escape b x y ∷ ps) h =
    let (hi, hi_val) = hex_digit_lem x (b / 16) (omega arith) in
    let (lo, lo_val) = hex_digit_lem y (b % 16) (omega arith) in
    rw (hi, lo, hi_val, lo_val, decode-encoded ps h.1) (ap (λ x. x ∷ value ps) (omega arith))

IsByte-value : (s : List Piece) → All IsPiece s → All IsByte (value s)
unfolding value
IsByte-value [] h = tt
IsByte-value (literal b ∷ ps) h = (h.0.0, IsByte-value ps h.1)
IsByte-value (plus ∷ ps) h = ((omega arith, omega arith), IsByte-value ps h.1)
IsByte-value (escape b x y ∷ ps) h = (h.0, IsByte-value ps h.1)

c_str_bytes : (s : Text) → All IsByte s → c_str s ≡ s
unfolding c_str
c_str_bytes [] h = refl
c_str_bytes (b ∷ bs) h = ground (arith, c_str_bytes bs h.1)

-- However a C string is written, it is decoded to itself.
pub url_decode-encoded : (s : List Piece) → All IsPiece s → url_decode (encoded s) ≡ value s
unfolding url_decode
url_decode-encoded s h = rw (decode-encoded s h) (c_str_bytes (value s) (IsByte-value s h))

-- A name and how its value is written.
abbrev pub Pair : Type 0
Pair = Text × List Piece

-- A form body: `name=value` for each pair, joined by `&`; `more` is what follows a pair.
pub more : List Pair → Text
more [] = []
more ((n, v) ∷ ps) = b'&' ∷ (n ++ (b'=' ∷ (encoded v ++ more ps)))

pub form : List Pair → Text
unfolding more
form [] = []
form ((n, v) ∷ ps) = n ++ (b'=' ∷ (encoded v ++ more ps))

-- The first value of a name, as it is written, and what it stands for.
pub find : Text → List Pair → Option (List Piece)
find name [] = none
find name ((n, v) ∷ ps) = if str_eq n name then some v else find name ps

pub lookup : Text → List Pair → Option Text
lookup name [] = none
lookup name ((n, v) ∷ ps) = if str_eq n name then some (value v) else lookup name ps

-- The text holds no byte `c`.
abbrev pub Free : ℕ → Text → Type 0
Free c s = All (λ b. b ≢ c) s

-- A name needs no escape.
abbrev pub IsName : Text → Type 0
IsName n = Free b'&' n × Free b'=' n × Free b'?' n

abbrev pub IsPair : Pair → Type 0
IsPair p = IsName p.0 × All IsPiece p.1

Free-append : (c : ℕ) (s t : Text) → Free c s → Free c t → Free c (s ++ t)
Free-append c [] t h k = k
Free-append c (b ∷ s) t h k = (h.0, Free-append c s t h.1 k)

-- What is sent has none of the bytes that mean something to the parser.
Free-encoded :
    (c : ℕ) (s : List Piece) → All IsPiece s → (c ≡ b'&') ⊎ (c ≡ b'?') → Free c (encoded s)
unfolding encoded
Free-encoded c [] h e = tt
Free-encoded c (literal b ∷ ps) ((byte, percent, is_plus, amp, mark), h) e =
    (λ same. elim e [ inl x ↦ amp (same ∙ x) | inr x ↦ mark (same ∙ x) ], Free-encoded c ps h e)
Free-encoded c (plus ∷ ps) h e = (ground arith, Free-encoded c ps h.1 e)
Free-encoded c (escape b x y ∷ ps) h e =
    (ground arith, (ground arith, (ground arith, Free-encoded c ps h.1 e)))

after-none : (c : ℕ) (s : Text) → Free c s → after c s ≡ none
unfolding after
after-none c [] h = refl
after-none c (b ∷ bs) h = ground (arith, after-none c bs h.1, h.0)

Free-more : (ps : List Pair) → All IsPair ps → Free b'?' (more ps)
unfolding more
Free-more [] h = tt
Free-more ((n, v) ∷ ps) h = (
  omega arith,
  Free-append b'?' n _ h.0.0.2 (
    omega arith,
    Free-append b'?' (encoded v) _ (Free-encoded b'?' v h.0.1 (inr refl)) (Free-more ps h.1),
  ),
)

Free-form : (ps : List Pair) → All IsPair ps → Free b'?' (form ps)
unfolding form
Free-form [] h = tt
Free-form ((n, v) ∷ ps) h = Free-append b'?' n _ h.0.0.2 (
  omega arith,
  Free-append b'?' (encoded v) _ (Free-encoded b'?' v h.0.1 (inr refl)) (Free-more ps h.1),
)

value_of_lem :
    (name n w : Text)
    → Free b'=' name
    → Free b'=' n
    → value_of name (n ++ (b'=' ∷ w)) ≡ (if str_eq n name then some w else none)
unfolding value_of str_eq
value_of_lem [] [] w h k = refl
value_of_lem [] (x ∷ n) w h k = ground (arith, k.0)
value_of_lem (c ∷ name) [] w h k = ground (arith, h.0)
value_of_lem (c ∷ name) (x ∷ n) w h k = ground (arith, value_of_lem name n w h.1 k.1)

until_segment : (seg : Text) (ps : List Pair) → Free b'&' seg → until b'&' (seg ++ more ps) ≡ seg
unfolding until more
until_segment [] [] h = refl
until_segment [] (p ∷ ps) h = refl
until_segment (b ∷ seg) ps h = ground (arith, until_segment seg ps h.1, h.0)

scan_past :
    (name seg rest : Text) → Free b'&' seg → scan name false (seg ++ rest) ≡ scan name false rest
unfolding scan
scan_past name [] rest h = refl
scan_past name (b ∷ seg) rest h = rw (ne→== b b'&' h.0, scan) (scan_past name seg rest h.1)

-- A segment is compared whole, and passed over if it is another parameter's.
scan_segment :
    (name seg : Text) (ps : List Pair)
    → Free b'&' seg
    → scan name true (seg ++ more ps)
      ≡ elim (value_of name seg) [ some v ↦ some v | none ↦ scan name false (more ps) ]
unfolding scan more
scan_segment name [] [] h = refl
scan_segment name [] (p ∷ ps) h = refl
scan_segment name (b ∷ seg) ps h =
    ground (arith, until_segment (b ∷ seg) ps h, scan_past name seg (more ps) h.1, h.0)

abbrev raw : Option (List Piece) → Option Text
raw none = none
raw (some v) = some (encoded v)

one_pair :
    (name n : Text) (v : List Piece) (ps : List Pair)
    → Free b'=' name
    → IsPair (n, v)
    → scan name false (more ps) ≡ raw (find name ps)
    → scan name true (n ++ (b'=' ∷ (encoded v ++ more ps))) ≡ raw (find name ((n, v) ∷ ps))
unfolding find
one_pair name n v ps f h ih =
    rw
      (
        ← append_assoc n (b'=' ∷ encoded v) (more ps),
        scan_segment name (n ++ (b'=' ∷ encoded v)) ps
            (Free-append b'&' n _ h.0.0 (omega arith, Free-encoded b'&' v h.1 (inl refl))),
        value_of_lem name n (encoded v) f h.0.1,
      )
      (elim (Bool-cases (str_eq n name)) [ inl e ↦ rw e refl | inr e ↦ rw e ih ])

scan-more :
    (name : Text) (ps : List Pair)
    → Free b'=' name
    → All IsPair ps
    → scan name false (more ps) ≡ raw (find name ps)
unfolding more scan find
scan-more name [] f h = refl
scan-more name ((n, v) ∷ ps) f h = one_pair name n v ps f h.0 (scan-more name ps f h.1)

scan-form :
    (name : Text) (ps : List Pair)
    → Free b'=' name
    → All IsPair ps
    → scan name true (form ps) ≡ raw (find name ps)
unfolding form scan find
scan-form name [] f h = refl
scan-form name ((n, v) ∷ ps) f h = one_pair name n v ps f h.0 (scan-more name ps f h.1)

IsByte-lookup :
    (name : Text) (ps : List Pair) → All IsPair ps → decoded (raw (find name ps)) ≡ lookup name ps
unfolding find lookup
IsByte-lookup name [] h = refl
IsByte-lookup name ((n, v) ∷ ps) h = elim (Bool-cases (str_eq n name)) [
  | inl e ↦ rw e (ap some (url_decode-encoded v h.0.1))
  | inr e ↦ rw e (IsByte-lookup name ps h.1)
]

cursor_of-form : (ps : List Pair) → All IsPair ps → cursor_of (form ps) ≡ form ps
cursor_of-form ps h = rw (after-none b'?' (form ps) (Free-form ps h), cursor_of)

-- A parameter of a form body or of a query is decoded to what it stands for, among any other parameters,
-- however its bytes are written: as they are, as `+` for a space, or as `%XY` with small or capital
-- digits; it is the first of its name, and none if there is no such name. Names hold no `&`, `=` and
-- `?`; values are C strings, and `%`, `+`, `&` and `?` are not written as they are.
pub api_query_param-form :
    (name : Text) (ps : List Pair)
    → Free b'=' name
    → All IsPair ps
    → api_query_param (some (form ps)) name ≡ lookup name ps
unfolding api_query_param
api_query_param-form name ps f h =
    ap (λ c. decoded (scan name true c)) (cursor_of-form ps h)
    ∙ ap decoded (scan-form name ps f h)
    ∙ IsByte-lookup name ps h

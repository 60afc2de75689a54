-- ===== src/Query.antt =====
-- The form and query decoding of app/api.c (`url_decode`, `api_query_param`). app/main.c has its own
-- copy of `url_decode`, byte for byte the same.
pub mod RoundTrip
use axis_cam_metrics.Base.{
  ℕ, ◌+◌, ◌-◌, ◌*◌, List, [], ◌∷◌, Option, none, some, Bool, true, false, ◌&&◌, ◌||◌, leb, ◌==◌,
  if◌then◌else◌,
}
use axis_cam_metrics.Base.Text.{Text, c_str}

-- `g_ascii_isxdigit` and `g_ascii_xdigit_value`
abbrev pub is_xdigit : ℕ → Bool
is_xdigit c =
    (leb b'0' c && leb c b'9') || ((leb b'A' c && leb c b'F') || (leb b'a' c && leb c b'f'))

abbrev pub xdigit_value : ℕ → ℕ
xdigit_value c =
    if leb c b'9' then c - b'0' else if leb c b'F' then c - b'A' + 10 else c - b'a' + 10

-- The loop of `url_decode`.
unfoldable pub decode_bytes : Text → List ℕ
decode_bytes [] = []
decode_bytes (b ∷ []) = (if b == b'+' then b' ' else b) ∷ []
decode_bytes (b ∷ h ∷ []) = (if b == b'+' then b' ' else b) ∷ decode_bytes (h ∷ [])
decode_bytes (b ∷ h ∷ l ∷ rest) =
    let step = decode_bytes (h ∷ l ∷ rest) in
    let escape = (xdigit_value h * 16 + xdigit_value l) ∷ decode_bytes rest in
    if b == b'+'
    then b' ' ∷ step
    else if b == b'%' && (is_xdigit h && is_xdigit l)
    then escape
    else b ∷ step

-- The copy that `take` makes of the result ends at its first NUL.
unfoldable pub url_decode : Text → Text
unfolding decode_bytes c_str
url_decode s = c_str (decode_bytes s)

-- The rest of a text after its first `sep`; `none` is the NULL of `strchr`.
unfoldable pub after : ℕ → Text → Option Text
after sep [] = none
after sep (b ∷ bs) = let rest = after sep bs in if b == sep then some bs else rest

-- The text up to the next `sep`.
unfoldable pub until : ℕ → Text → Text
until sep [] = []
until sep (b ∷ bs) = let rest = until sep bs in if b == sep then [] else b ∷ rest

-- What follows `name=` in a segment that begins with it.
unfoldable pub value_of : Text → Text → Option Text
value_of name [] = none
value_of [] (b ∷ bs) = if b == b'=' then some bs else none
value_of (n ∷ ns) (b ∷ bs) = let rest = value_of ns bs in if n == b then rest else none

-- The loop of `api_query_param`: the flag says that the cursor stands at a segment's first byte, where
-- the segment is compared; otherwise the cursor is on its way past the next `&`.
unfoldable pub scan : Text → Bool → Text → Option Text
unfolding value_of until
scan name start [] = none
scan name true (b ∷ bs) =
    let next = scan name (b == b'&') bs in
    elim (value_of name (until b'&' (b ∷ bs))) [ some v ↦ some v | none ↦ next ]
scan name false (b ∷ bs) = scan name (b == b'&') bs

abbrev pub cursor_of : Text → Text
cursor_of query = elim (after b'?' query) [ some rest ↦ rest | none ↦ query ]

abbrev pub decoded : Option Text → Option Text
decoded none = none
decoded (some v) = some (url_decode v)

-- A NULL query is `none`.
unfoldable pub api_query_param : Option Text → Text → Option Text
unfolding scan after url_decode
api_query_param none name = none
api_query_param (some query) name = decoded (scan name true (cursor_of query))

-- ===== src/Http/Request.antt =====
-- `on_http_request` of app/main.c: a request is read from its connection in pieces, up to the length
-- that it declares, and handed to the routes. What `strtol` and `sscanf` read is a parameter.
mod Find
pub mod Chunks
use axis_cam_metrics.Base.{
  ℕ, ◌+◌, ◌-◌, ◌^◌, List, [], ◌∷◌, ◌++◌, Option, none, some, Bool, true, false, not, ◌&&◌, ltb, leb,
  ◌==◌, if◌then◌else◌, length, take, drop, map,
}
use axis_cam_metrics.Base.Int.{ℤ, pos, negsuc, is_zero_ℤ}
use axis_cam_metrics.Base.Text.{Text, codes, has_prefix, c_str}
use axis_cam_metrics.Floats.{Floats}
use axis_cam_metrics.Http.{
  World, Reply, Response, served, crashed, after_name, handle_request, stream,
}

-- Where `name` stands in a text first; `none` is the NULL of `strstr`.
unfoldable pub find_text : Text → Text → Option ℕ
unfolding has_prefix
find_text name [] = if has_prefix [] name then some 0 else none
find_text name (c ∷ cs) =
    let rest : Option ℕ = elim (find_text name cs) [ none ↦ none | some k ↦ some (k + 1) ] in
    if has_prefix (c ∷ cs) name then some 0 else rest

-- `g_ascii_tolower`
abbrev to_lower : ℕ → ℕ
to_lower c = if leb 65 c && leb c 90 then c + 32 else c

-- `(gsize)n` for a `glong` n.
abbrev pub to_gsize : ℤ → ℕ
to_gsize (pos n) = n
to_gsize (negsuc n) = 2 ^ 64 - 1 - n

-- `sizeof(buffer) - 1`
abbrev pub room : ℕ
room = 16383

abbrev pub blank_line : Text
blank_line = 13 ∷ 10 ∷ 13 ∷ 10 ∷ []

-- The variables of the loop; `buffer` holds its first `total` bytes.
pub record Reading : Type 0 where
  pub buffer : List ℕ
  pub header_length : ℕ
  pub content_length : ℤ

abbrev pub opened : Reading
opened = record { buffer = []; header_length = 0; content_length = pos 0 }

module _ (strtol : Text → ℤ) where
  -- The length that the headers declare, or 0.
  unfoldable pub declared : Text → ℤ
  unfolding after_name
  declared headers = elim (after_name (codes "content-length:") (map to_lower headers)) [
    | none ↦ pos 0
    | some field ↦ strtol field
  ]

  -- What a round does once the bytes that it got are in the buffer, and whether it ends the loop.
  unfoldable pub take_in : Reading → List ℕ → Reading × Bool
  unfolding find_text c_str declared
  take_in r buffer = elim (find_text blank_line (c_str buffer)) [
    | none ↦ (record r { buffer = buffer }, false)
    | some at ↦
        let headers = take (at + 4) (c_str buffer) in
        let content_length =
          if is_zero_ℤ r.content_length then declared headers else r.content_length in
        (
          record { buffer = buffer; header_length = at + 4; content_length = content_length },
          leb (to_gsize content_length) (length buffer - (at + 4)),
        )
  ]

  -- The loop on what the connection has to give: one read takes from one piece, as much as there is
  -- room for. An empty piece, and the end of the list, is a read that gets nothing or fails.
  unfoldable pub read_request : Reading → List (List ℕ) → Reading
  unfolding take_in
  read_request r [] = r
  read_request r ([] ∷ pieces) = r
  read_request r ((b ∷ bs) ∷ pieces) =
      let (next, ends) = take_in r (r.buffer ++ take (room - length r.buffer) (b ∷ bs)) in
      let rest = read_request next pieces in
      if not (ltb (length r.buffer) room) then r else if ends then next else rest

module _ (F : Floats) (strtod : Text → F.Double) (strtoull : Text → ℕ) (strip : Text → Text)
    (accepts : Text → Text → Bool) (answer : Option ℕ) where
  pub data Handled : Type 0 where
    bad_request : Handled
    handled : Response F strtod strtoull strip accepts answer → Handled

  module _ (sscanf : Text → Option (Text × Text)) where
    -- The part after the loop.
    unfoldable pub answer_request :
        Bool → Reading → World F strtod strtoull strip accepts answer → Handled
    unfolding handle_request c_str
    answer_request read_only r w =
        let parsed : Handled = elim (sscanf (c_str r.buffer)) [
          | none ↦ bad_request
          | some (method, path) ↦ handled (
              handle_request F strtod strtoull strip accepts answer read_only method path
                (c_str (drop r.header_length r.buffer)) w)
        ] in
        if r.header_length == 0 then bad_request else parsed

    unfoldable pub on_http_request :
        (Text → ℤ) → Bool → List (List ℕ) → World F strtod strtoull strip accepts answer → Handled
    unfolding read_request answer_request
    on_http_request strtol read_only pieces w =
        answer_request read_only (read_request strtol opened pieces) w

  -- Whether the connection is left open, for the event stream.
  unfoldable pub keep_open : Handled → Bool
  keep_open bad_request = false
  keep_open (handled (served w stream changed)) = true
  keep_open (handled (served w _ changed)) = false
  keep_open (handled crashed) = false

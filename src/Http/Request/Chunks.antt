-- ===== src/Http/Request/Chunks.antt =====
-- A request that comes in pieces.
use axis_cam_metrics.Base.{
  ℕ, ◌+◌, ◌-◌, ◌≤◌, ◌<◌, ◌≡◌, ◌≢◌, ◌⊎◌, refl, sym, ap, ◌∙◌, subst, List, [], ◌∷◌, ◌++◌, Option,
  none, some, Bool, true, false, not, ltb, leb, if◌then◌else◌, arith, length, take, drop, All,
  append-nil, append_assoc, length-append, Bool-cases, inl, inr, take_all, lt→ltb, ltb→lt, leb→le,
  ltb→le, if_ind, ne→==,
}
use axis_cam_metrics.Base.Int.{ℤ, pos, is_zero_ℤ}
use axis_cam_metrics.Base.Text.{Text, c_str}
use axis_cam_metrics.Floats.{Floats}
use axis_cam_metrics.Http.{World, handle_request}
use axis_cam_metrics.Http.Request.{
  find_text, room, blank_line, Reading, opened, declared, take_in, read_request, handled,
  answer_request, on_http_request,
}
use axis_cam_metrics.Http.Request.Find.{find_text-append, find_text-none, c_str-append}

-- Of two splits of a text, the shorter first part starts the longer one.
append_split :
    (p y a b : Text)
    → p ++ y ≡ a ++ b
    → length p ≤ length a
    → (x : Text) × (p ++ x ≡ a) × (y ≡ x ++ b)
append_split [] y a b e h = (a, refl, e)
append_split (c ∷ p) y [] b e h = absurd (omega arith)
append_split (c ∷ p) y (d ∷ a) b e h =
    let heads : c ≡ d = cc e in
    let tails : p ++ y ≡ a ++ b = cc e in
    let (x, whole, rest) = append_split p y a b tails (omega arith) in
    (x, rw (heads, whole) refl, rest)

drop-append : (a b : Text) → drop (length a) (a ++ b) ≡ b
drop-append [] b = refl
drop-append (c ∷ a) b = drop-append a b

take-append : (a b : Text) → take (length a) (a ++ b) ≡ a
take-append [] b = refl
take-append (c ∷ a) b = ap (λ l. c ∷ l) (take-append a b)

-- Pieces that hold something, in their order, are the text.
abbrev pub Splits : List (List ℕ) → Text → Type 0
Splits [] t = t ≡ []
Splits (piece ∷ pieces) t =
    (piece ≢ []) × ((rest : Text) × (t ≡ piece ++ rest) × Splits pieces rest)

module _ (strtol : Text → ℤ) (head body : Text) (k : ℕ) (plain : All (λ c. c ≢ 0) head)
    (found : find_text blank_line head ≡ some k) (ends : k + 4 ≡ length head)
    (says : declared strtol head ≡ pos (length body)) where
  -- The variables of the loop once `p` has been read.
  state_of : Text → Reading
  state_of p = record {
    buffer = p;
    header_length = if ltb (length p) (length head) then 0 else length head;
    content_length = if ltb (length p) (length head) then pos 0 else pos (length body);
  }

  c_str_start : (p x : Text) → p ++ x ≡ head → c_str p ≡ p
  unfolding c_str
  c_str_start p x e =
      subst (λ t. c_str t ≡ p) (append-nil p)
        (c_str-append p [] (All_start p x (subst (All (λ c. c ≢ 0)) (sym e) plain)) ∙ append-nil p)
    where
      All_start : (q z : Text) → All (λ c. c ≢ 0) (q ++ z) → All (λ c. c ≢ 0) q
      All_start [] z h = tt
      All_start (c ∷ q) z (n, h) = (n, All_start q z h)

  take_in-before :
      (r : Reading) (p x : Text)
      → p ++ x ≡ head
      → length p < length head
      → r.header_length ≡ 0
      → r.content_length ≡ pos 0
      → take_in strtol r p
        ≡ (record { buffer = p; header_length = 0; content_length = pos 0 }, false)
  unfolding take_in
  take_in-before r p x whole short no_header no_length =
      let missing : find_text blank_line p ≡ none =
        find_text-none blank_line p x k (ap (find_text blank_line) whole ∙ found) (omega arith) in
      rw (take_in, c_str_start p x whole, missing, no_header, no_length) refl

  take_in-after :
      (r : Reading) (b : Text)
      → (r.content_length ≡ pos 0) ⊎ (r.content_length ≡ pos (length body))
      → take_in strtol r (head ++ b) ≡ (
        record {
          buffer = head ++ b;
          header_length = length head;
          content_length = pos (length body);
        },
        leb (length body) (length (head ++ b) - length head),
      )
  unfolding take_in
  take_in-after r b known =
      rw
        (
          take_in,
          c_str-append head b plain,
          find_text-append blank_line head (c_str b) k found,
          ends,
          c_str-append head b plain,
          take-append,
          says,
          content known,
        )
        refl
    where
      content :
          (r.content_length ≡ pos 0) ⊎ (r.content_length ≡ pos (length body))
          → (if is_zero_ℤ r.content_length then pos (length body) else r.content_length)
            ≡ pos (length body)
      content (inl e) = rw e refl
      content (inr e) = rw e (
          if_ind (λ t. t ≡ pos (length body)) (is_zero_ℤ (pos (length body))) (λ _. refl)
            (λ _. refl))

  take_in-state_of :
      (p q y : Text)
      → q ++ y ≡ head ++ body
      → length p ≤ length q
      → take_in strtol (state_of p) q ≡ (state_of q, leb (length (head ++ body)) (length q))
  unfolding state_of
  take_in-state_of p q y e grows = elim (Bool-cases (ltb (length q) (length head))) [
    | inl short ↦
        let (x, whole, _) = append_split q y head body e (omega (arith, ltb→lt _ _ short)) in
        let missed : leb (length (head ++ body)) (length q) ≡ false =
          ground (arith, ltb→lt _ _ short, length-append head body) in
        let before : ltb (length p) (length head) ≡ true = ground (arith, ltb→lt _ _ short) in
        rw (short, missed)
          (take_in-before (state_of p) q x whole (ltb→lt _ _ short) (rw before refl)
            (rw before refl))
    | inr long ↦
        let (b, whole, _) = append_split head body q y (sym e) (ltb→le _ _ long) in
        let complete : leb (length body) (length (head ++ b) - length head)
            ≡ leb (length (head ++ body)) (length (head ++ b)) =
          ground (arith, length-append head body, length-append head b) in
        let long_b : ltb (length (head ++ b)) (length head) ≡ false = rw whole long in
        subst
          (λ t.
            take_in strtol (state_of p) t ≡ (state_of t, leb (length (head ++ body)) (length t)))
          whole
          (take_in-after (state_of p) b (known (ltb (length p) (length head)))
            ∙ rw (long_b, complete) refl)
  ]
    where
      known :
          (b : Bool)
          → ((if b then pos 0 else pos (length body)) ≡ pos 0)
            ⊎ ((if b then pos 0 else pos (length body)) ≡ pos (length body))
      known true = inl refl
      known false = inr refl

  -- A round of the loop whose read gets `got`.
  read_request-take_in :
      (r next : Reading) (ends_here : Bool) (b : ℕ) (bs got : Text) (pieces : List (List ℕ))
      → ltb (length r.buffer) room ≡ true
      → take (room - length r.buffer) (b ∷ bs) ≡ got
      → take_in strtol r (r.buffer ++ got) ≡ (next, ends_here)
      → read_request strtol r ((b ∷ bs) ∷ pieces)
        ≡ (if ends_here then next else read_request strtol next pieces)
  unfolding read_request
  read_request-take_in r next ends_here b bs got pieces more e once =
      ap (λ t. if not t then r else round.1) more
      ∙ ap (λ t. if t.1 then t.0 else read_request strtol t.0 pieces)
          (ap (λ t. take_in strtol r (r.buffer ++ t)) e ∙ once)
    where
      round : Reading × Reading
      round =
          let n = take_in strtol r (r.buffer ++ take (room - length r.buffer) (b ∷ bs)) in
          (n.0, if n.1 then n.0 else read_request strtol n.0 pieces)

  -- The loop reads what is left of the request, however it comes.
  read_request-Splits :
      (pieces : List (List ℕ)) (p y : Text)
      → p ++ y ≡ head ++ body
      → length p < length (head ++ body)
      → length (head ++ body) ≤ room
      → Splits pieces y
      → read_request strtol (state_of p) pieces ≡ state_of (head ++ body)
  unfolding read_request state_of
  read_request-Splits [] p y e short fits s =
      absurd (omega (arith, length-append p y, ap length e, ap length s))
  read_request-Splits ([] ∷ pieces) p y e short fits (ne, _) = absurd (ne refl)
  read_request-Splits ((b ∷ bs) ∷ pieces) p y e short fits (ne, (rest, cut, more)) =
      read_request-take_in (state_of p) (state_of q) _ b bs (b ∷ bs) pieces
        (lt→ltb (length p) room (omega (arith)))
        (take_all (room - length p) (b ∷ bs) (omega (arith, total))) once
      ∙ (if_ind (λ r. r ≡ state_of (head ++ body)) (leb (length (head ++ body)) (length q))
          (λ h. ap state_of (whole (leb→le _ _ h)))
          (λ h. read_request-Splits pieces q rest joins (omega (arith, leb_false _ _ h)) fits more))
    where
      q : Text
      q = p ++ (b ∷ bs)

      joins : q ++ rest ≡ head ++ body
      joins = append_assoc p (b ∷ bs) rest ∙ ap (λ t. p ++ t) (sym cut) ∙ e

      total : length p + length (b ∷ bs) + length rest ≡ length (head ++ body)
      total = omega (arith, ap length joins, length-append q rest, length-append p (b ∷ bs))

      once : take_in strtol (state_of p) q ≡ (state_of q, leb (length (head ++ body)) (length q))
      once = take_in-state_of p q rest joins (omega (arith, length-append p (b ∷ bs)))

      leb_false : (m n : ℕ) → leb m n ≡ false → n < m
      leb_false m n h = ground arith

      whole : length (head ++ body) ≤ length q → q ≡ head ++ body
      whole h = no_rest rest joins (omega (arith, length-append q rest, ap length joins))
        where
          no_rest : (r : Text) → q ++ r ≡ head ++ body → length r ≡ 0 → q ≡ head ++ body
          no_rest [] j z = sym (append-nil q) ∙ j
          no_rest (c ∷ cs) j z = absurd (omega arith)

  read_request-head :
      (pieces : List (List ℕ))
      → length (head ++ body) ≤ room
      → Splits pieces (head ++ body)
      → read_request strtol opened pieces ≡ record {
        buffer = head ++ body;
        header_length = length head;
        content_length = pos (length body);
      }
  unfolding state_of
  read_request-head pieces fits s =
      let waiting : ltb 0 (length head) ≡ true = ground (arith, ends) in
      let over : ltb (length (head ++ body)) (length head) ≡ false =
        ground (arith, length-append head body) in
      let start : state_of [] ≡ opened = rw waiting refl in
      let finish : state_of (head ++ body) ≡ record {
        buffer = head ++ body;
        header_length = length head;
        content_length = pos (length body);
      } =
        rw over refl in
      ap (λ r. read_request strtol r pieces) (sym start)
      ∙ read_request-Splits pieces [] (head ++ body) refl
          (omega (arith, ends, length-append head body)) fits s
      ∙ finish

module _ (F : Floats) (strtod : Text → F.Double) (strtoull : Text → ℕ) (strip : Text → Text)
    (accepts : Text → Text → Bool) (answer : Option ℕ) (strtol : Text → ℤ)
    (sscanf : Text → Option (Text × Text)) where
  -- A request that fits the buffer, whose headers end at its first blank line, hold no NUL and declare
  -- the length of the body, is handed over whole however it is cut into pieces, none empty: the
  -- routes get the method and the path that `sscanf` reads and the body up to its first NUL.
  pub on_http_request-handle_request :
      (read_only : Bool) (head body method path : Text) (k : ℕ) (pieces : List (List ℕ))
      (w : World F strtod strtoull strip accepts answer)
      → All (λ c. c ≢ 0) head
      → find_text blank_line head ≡ some k
      → k + 4 ≡ length head
      → declared strtol head ≡ pos (length body)
      → length (head ++ body) ≤ room
      → Splits pieces (head ++ body)
      → sscanf (c_str (head ++ body)) ≡ some (method, path)
      → on_http_request F strtod strtoull strip accepts answer sscanf strtol read_only pieces w
        ≡ handled (
            handle_request F strtod strtoull strip accepts answer read_only method path
              (c_str body)
              w)
  unfolding on_http_request answer_request
  on_http_request-handle_request read_only head body method path k pieces w plain found ends says
        fits s parsed =
      ap (λ r. answer_request F strtod strtoull strip accepts answer sscanf read_only r w)
        (read_request-head strtol head body k plain found ends says pieces fits s)
      ∙ rw
          (
            answer_request,
            parsed,
            ne→== (length head) 0 (λ z. absurd (omega (arith, ends))),
            drop-append,
          )
          refl

-- ===== src/Influx/Payload/Exported.antt =====
-- The line that `build_payload` makes, against the metrics that it should have.
use axis_cam_metrics.Base.{
  ℕ, ◌+◌, ◌^◌, ◌≤◌, ◌<◌, ◌≡◌, refl, sym, ap, ◌∙◌, List, [], ◌∷◌, ◌++◌, Option, none, some, false,
  not, ◌||◌, ◌==◌, if◌then◌else◌, arith, length, append_assoc, length-append, Bool-cases, inl, inr,
  ne→==, Option-cases, All, if_ind,
}
use axis_cam_metrics.Base.Int.{ℤ}
use axis_cam_metrics.Base.Words.{u32}
use axis_cam_metrics.Base.Text.{Text, codes}
use axis_cam_metrics.Floats.{Floats}
use axis_cam_metrics.Metrics.{MetricDef}
use axis_cam_metrics.Selection.{Selection, transmit, selection_enabled}
use axis_cam_metrics.Store.{Store, store_latest}
use axis_cam_metrics.Settings.Config.{InfluxConfig}
use axis_cam_metrics.Influx.{escaped, append_escaped_tag, append_escaped_measurement}
use axis_cam_metrics.Api.{DeviceInfo}
use axis_cam_metrics.Influx.Payload.{or_unknown, line_start, fields_from, build_payload}
use axis_cam_metrics.Influx.Payload.Line.{
  token, at_separator, pairs, Line, read_line, token-escaped, OneLine, covers-OneLine,
}
use axis_cam_metrics.Influx.Payload.RoundTrip.{
  tag_special, measurement_special, line_special, Untouched, esc, more, pairs_read, length-more,
  AllOneLine,
}

-- What the line says up to its fields, and what follows.
abbrev start_with : Text → Text → Text → Text → Text
start_with measurement serial model rest =
    escaped measurement_special measurement
    ++ (44
        ∷ (esc (codes "device") ++ (61 ∷ (esc serial ++ more ((codes "model", model) ∷ []) rest))))

append_five {ℓ} :
    {A : Type ℓ} (a b c d e y : List A)
    → ((((a ++ b) ++ c) ++ d) ++ e) ++ y ≡ a ++ (b ++ (c ++ (d ++ (e ++ y))))
append_five a b c d e y =
    append_assoc (((a ++ b) ++ c) ++ d) e y
    ∙ append_assoc ((a ++ b) ++ c) d (e ++ y)
    ∙ append_assoc (a ++ b) c (d ++ (e ++ y))
    ∙ append_assoc a b (c ++ (d ++ (e ++ y)))

line_start-append :
    (config : InfluxConfig) (device : DeviceInfo) (rest : Text)
    → line_start config device ++ rest
      ≡ start_with config.measurement (or_unknown device.serial) (or_unknown device.model) rest
unfolding line_start append_escaped_tag append_escaped_measurement
line_start-append config device rest =
    append_five (escaped measurement_special config.measurement) (codes ",device=")
      (esc (or_unknown device.serial)) (codes ",model=") (esc (or_unknown device.model)) rest

covers_newline : (t : Text) → All (λ c. line_special c ≡ false → (c == 10) ≡ false) t
covers_newline [] = tt
covers_newline (c ∷ cs) = ((λ h. ground arith), covers_newline cs)

module _ (F : Floats) (format : F.Float → Text) (print_time : ℤ → Text) where
  open F use {Float, is_nan}

  -- The metrics with a reading that are transmitted, with their values.
  unfoldable pub chosen : Option Selection → List MetricDef → List Float → List (Text × Text)
  chosen selection [] values = []
  chosen selection (d ∷ ds) [] = []
  chosen selection (d ∷ ds) (v ∷ vs) =
      let rest = chosen selection ds vs in
      if is_nan v || not (selection_enabled selection transmit d.id)
      then rest
      else (d.id, format v) ∷ rest

  -- Fields after `n` others, and what follows them.
  abbrev joined : ℕ → List (Text × Text) → Text → Text
  joined n [] rest = rest
  joined n ((key, value) ∷ ps) rest =
      (if n == 0 then 32 else 44) ∷ (esc key ++ (61 ∷ (esc value ++ more ps rest)))

  joined-more :
      (n : ℕ) (ps : List (Text × Text)) (rest : Text)
      → (n == 0) ≡ false
      → joined n ps rest ≡ more ps rest
  joined-more n [] rest h = refl
  joined-more n ((k, v) ∷ ps) rest h = rw h refl

  module _ (plain : (v : Float) → Untouched tag_special (format v))
      (selection : Option Selection) where
    fields_from-joined :
        (ds : List MetricDef) (n : ℕ) (vs : List Float) (rest : Text)
        → n + length ds < 2 ^ 32
        → ((fields_from F format print_time selection n ds vs).0 ++ rest
            ≡ joined n (chosen selection ds vs) rest)
          × ((fields_from F format print_time selection n ds vs).1
              ≡ n + length (chosen selection ds vs))
    unfolding fields_from chosen append_escaped_tag
    fields_from-joined [] n vs rest b = (refl, omega arith)
    fields_from-joined (d ∷ ds) n [] rest b = (refl, omega arith)
    fields_from-joined (d ∷ ds) n (v ∷ vs) rest b =
        elim (Bool-cases (is_nan v || not (selection_enabled selection transmit d.id))) [
          | inl e ↦ rw e (fields_from-joined ds n vs rest (omega arith))
          | inr e ↦
              let next : u32 (n + 1) ≡ n + 1 = omega arith in
              let (text, total) = fields_from-joined ds (u32 (n + 1)) vs rest (omega arith) in
              rw e (
                ap (λ l. (if n == 0 then 32 else 44) ∷ l)
                    (append_assoc (esc d.id ++ (61 ∷ format v)) _ rest
                      ∙ append_assoc (esc d.id) (61 ∷ format v) _
                      ∙ ap (λ l. esc d.id ++ (61 ∷ (format v ++ l)))
                          (text
                            ∙ joined-more (u32 (n + 1)) (chosen selection ds vs) rest
                                (ne→== (u32 (n + 1)) 0 (λ z. absurd (omega arith))))
                      ∙ ap (λ l. esc d.id ++ (61 ∷ (l ++ more (chosen selection ds vs) rest)))
                          (sym (plain v))),
                omega (arith, total),
              )
        ]

  -- What the line of a sample should say.
  abbrev pub line_of : InfluxConfig → DeviceInfo → List (Text × Text) → ℤ → Option Line
  line_of config device [] time = none
  line_of config device (p ∷ ps) time = some (record {
    measurement = config.measurement;
    tags =
        (codes "device", or_unknown device.serial) ∷ (codes "model", or_unknown device.model) ∷ [];
    fields = p ∷ ps;
    time = print_time time;
  })

  abbrev pub read_back : Option Text → Option Line
  read_back none = none
  read_back (some t) = some (read_line t)

  -- The texts before the fields stay on one line.
  abbrev StartOneLine : InfluxConfig → DeviceInfo → Type 0
  StartOneLine config device =
      OneLine config.measurement
      × OneLine (or_unknown device.serial)
      × OneLine (or_unknown device.model)

  or_unknown-OneLine : (s : Text) → OneLine s → OneLine (or_unknown s)
  or_unknown-OneLine [] o = grind arith
  or_unknown-OneLine (c ∷ cs) o = o

  chosen-AllOneLine :
      (selection : Option Selection) (ds : List MetricDef) (vs : List Float)
      → ((v : Float) → OneLine (format v))
      → All (λ (d : MetricDef). OneLine d.id) ds
      → AllOneLine (chosen selection ds vs)
  unfolding chosen
  chosen-AllOneLine selection [] vs f o = tt
  chosen-AllOneLine selection (d ∷ ds) [] f o = tt
  chosen-AllOneLine selection (d ∷ ds) (v ∷ vs) f (od, o) =
      if_ind AllOneLine (is_nan v || not (selection_enabled selection transmit d.id))
        {x = chosen selection ds vs} {y = (d.id, format v) ∷ chosen selection ds vs}
        (λ _. chosen-AllOneLine selection ds vs f o)
        (λ _. ((od, f v), chosen-AllOneLine selection ds vs f o))

  read_line-joined :
      (config : InfluxConfig) (device : DeviceInfo) (key value : Text) (ps : List (Text × Text))
      (time : ℤ)
      → Untouched line_special (print_time time)
      → StartOneLine config device
      → AllOneLine ((key, value) ∷ ps)
      → read_back (
          some (
            start_with config.measurement
              (or_unknown device.serial)
              (or_unknown device.model)
              (joined 0 ((key, value) ∷ ps) (32 ∷ (print_time time ++ (10 ∷ []))))))
        ≡ line_of config device ((key, value) ∷ ps) time
  unfolding read_line
  read_line-joined config device key value ps time plain (om, os, od) o =
      rw (read_start, read_line, read_tags, read_fields, read_time) refl
    where
      ending : Text
      ending = print_time time ++ (10 ∷ [])

      fields : Text
      fields = esc key ++ (61 ∷ (esc value ++ more ps (32 ∷ ending)))

      serial : Text
      serial = or_unknown device.serial

      model : Text
      model = or_unknown device.model

      tags : Text
      tags =
          esc (codes "device")
          ++ (61 ∷ (esc serial ++ more ((codes "model", model) ∷ []) (32 ∷ fields)))

      line : Text
      line = start_with config.measurement serial model (32 ∷ fields)

      read_start : token at_separator false line ≡ (config.measurement, 44 ∷ tags)
      read_start =
          token-escaped measurement_special at_separator config.measurement 44 tags refl
            (covers-OneLine measurement_special at_separator config.measurement
              (λ c n h. ground arith) om)
            refl refl

      tags_length : length tags < length line
      tags_length =
          omega (arith, length-append (escaped measurement_special config.measurement) (44 ∷ tags))

      fields_length : length fields + 2 ≤ length tags
      fields_length = omega (
        arith,
        length-append (esc serial) (more ((codes "model", model) ∷ []) (32 ∷ fields)),
        length-append (esc model) (32 ∷ fields),
      )

      read_tags :
          pairs (length line) tags
          ≡ ((codes "device", serial) ∷ (codes "model", model) ∷ [], 32 ∷ fields)
      read_tags =
          pairs_read ((codes "model", model) ∷ []) (codes "device") serial (length line) fields
            (omega (arith, tags_length, fields_length)) ((grind arith, os), ((grind arith, od), tt))

      read_fields : pairs (length line) fields ≡ ((key, value) ∷ ps, 32 ∷ ending)
      read_fields =
          pairs_read ps key value (length line) ending
            (omega (
              arith,
              tags_length,
              fields_length,
              length-more ps (32 ∷ ending),
              length-append (esc key) (61 ∷ (esc value ++ more ps (32 ∷ ending))),
              length-append (esc value) (more ps (32 ∷ ending)),
            ))
            o

      read_time : token (λ c. c == 10) false ending ≡ (print_time time, 10 ∷ [])
      read_time =
          ap (λ l. token (λ c. c == 10) false (l ++ (10 ∷ []))) (sym plain)
          ∙ token-escaped line_special (λ c. c == 10) (print_time time) 10 [] refl
              (covers_newline (print_time time)) refl refl

  sample_line :
      (config : InfluxConfig) (device : DeviceInfo) (cs : List (Text × Text)) (text : Text)
      (total : ℕ) (time : ℤ)
      → Untouched line_special (print_time time)
      → StartOneLine config device
      → AllOneLine cs
      → let ending = 32 ∷ (print_time time ++ (10 ∷ [])) in
        text ++ ending ≡ joined 0 cs ending
        → total ≡ 0 + length cs
        → read_back (
            if total == 0
            then none
            else some (line_start config device ++ (text ++ (32 ∷ (print_time time ++ (10 ∷ []))))))
          ≡ line_of config device cs time
  sample_line config device [] text total time plain start o e n =
      let zero_fields : total ≡ 0 = omega (arith, n) in rw zero_fields refl
  sample_line config device ((key, value) ∷ cs) text total time plain start o e n =
      rw (ne→== total 0 (λ z. absurd (omega (arith, n)))) (
        ap (λ l. read_back (some (line_start config device ++ l))) e
        ∙ ap (λ l. read_back (some l)) (line_start-append config device _)
        ∙ read_line-joined config device key value cs time plain start o)

  -- Read back, the line that is built of the latest sample has the measurement, the device and the
  -- model as they are set, exactly the metrics that have a reading and are transmitted, in the order
  -- of the registry, each with its printed value, and the printed time; and there is no line where
  -- there is no sample or no such metric. The measurement, the serial number, the model and the ids
  -- have no newline, which nothing escapes; printed numbers have none and, like printed times, nothing
  -- to escape; and the registry has fewer than 2 ^ 32 metrics.
  pub build_payload-line_of :
      (store : Store F) (selection : Option Selection) (config : InfluxConfig) (device : DeviceInfo)
      → ((v : Float) → Untouched tag_special (format v))
      → ((v : Float) → OneLine (format v))
      → ((time : ℤ) → Untouched line_special (print_time time))
      → OneLine config.measurement
      → OneLine device.serial
      → OneLine device.model
      → All (λ (d : MetricDef). OneLine d.id) store.registry.defs
      → length store.registry.defs < 2 ^ 32
      → read_back (build_payload F format print_time store selection config device)
        ≡ (elim (store_latest F store) [
          | none ↦ none
          | some (values, time) ↦
              line_of config device (chosen selection store.registry.defs values) time
        ])
  unfolding build_payload
  build_payload-line_of store selection config device plain line plain_time om os od oi few =
      elim (Option-cases (store_latest F store)) [
        | inl e ↦ rw (e, build_payload) refl
        | inr ((values, time), e) ↦
            rw (e, build_payload)
              (let (text, total) =
                  fields_from-joined plain selection store.registry.defs 0 values
                    (32 ∷ (print_time time ++ (10 ∷ []))) (omega (arith, few)) in
                sample_line config device (chosen selection store.registry.defs values) _ _ time
                  (plain_time time)
                  (om, or_unknown-OneLine device.serial os, or_unknown-OneLine device.model od)
                  (chosen-AllOneLine selection store.registry.defs values line oi) text total)
      ]

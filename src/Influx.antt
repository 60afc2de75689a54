-- ===== src/Influx.antt =====
-- The InfluxDB export of app/influx.c: the hand-over of payloads from the sampler to the worker thread
-- through a queue, and the escaping of line protocol. Each push and pop is a step of its own or falls
-- inside one that leaves the queue as if it were; what `build_payload` gives, and what a write leaves
-- as the state, are arguments.
pub mod Queue
pub mod Payload
pub mod Url
use axis_cam_metrics.Base.{
  ℕ, ◌-◌, List, [], ◌∷◌, ◌++◌, Option, none, some, Bool, true, false, not, ◌&&◌, ◌||◌, ◌==◌, ltb,
  if◌then◌else◌,
}
use axis_cam_metrics.Base.Text.{Text, codes}
use axis_cam_metrics.Settings.Config.{InfluxConfig}

abbrev pub is_empty : Text → Bool
is_empty [] = true
is_empty (c ∷ cs) = false

-- An entry of the queue: a payload, or QUIT.
pub data Entry : Type 0 where
  payload : Text → Entry
  quit : Entry

-- `struct Influx`; `worker` says that the thread runs.
pub record Influx : Type 0 where
  pub config : InfluxConfig
  pub worker : Bool
  pub queue : List Entry
  pub stopping : Bool
  pub last_write : ℕ
  pub state : Text

unfoldable pub influx_state : Option Influx → Text
influx_state none = codes "disabled"
influx_state (some x) = if x.config.enabled then x.state else codes "disabled"

unfoldable pub influx_apply : Influx → InfluxConfig → Influx
influx_apply x config =
    let state =
      if not config.enabled
      then codes "disabled"
      else if not x.config.enabled
      then codes "pending"
      else x.state in
    record x {
      config = config;
      state = state;
      last_write = if config.enabled && not x.config.enabled then 0 else x.last_write;
    }

-- `influx_tick` at the time `now`; `built` is what `build_payload` returns.
unfoldable pub influx_tick : Influx → ℕ → Option Text → Influx
influx_tick x now built =
    let wait = not (x.last_write == 0) && ltb (now - x.last_write) x.config.interval_s in
    let queue : List Entry = elim built [ none ↦ [] | some t ↦ payload t ∷ [] ] in
    if not x.config.enabled || (x.stopping || is_empty x.config.url)
    then x
    else if wait
    then x
    else record x { last_write = now; queue = queue }

-- The start of `influx_free`, up to the join.
unfoldable pub influx_stop : Influx → Influx
influx_stop x = record x { stopping = true; queue = x.queue ++ (quit ∷ []) }

-- One round of `worker_main`, which waits while the queue is empty: the state afterwards, and the write
-- that it makes, if any. `outcome` is the state that the write leaves.
unfoldable pub worker_take : Influx → List Entry → Text → Influx × Option (InfluxConfig × Text)
worker_take x [] outcome = (x, none)
worker_take x (quit ∷ rest) outcome = (record x { worker = false; queue = rest }, none)
worker_take x (payload t ∷ rest) outcome =
    let write : Influx × Option (InfluxConfig × Text) =
      (record x { queue = rest; state = outcome }, some (x.config, t)) in
    let skip : Influx × Option (InfluxConfig × Text) = (record x { queue = rest }, none) in
    if x.config.enabled && not (is_empty x.config.url) then write else skip

unfoldable pub worker_round : Influx → Text → Influx × Option (InfluxConfig × Text)
unfolding worker_take
worker_round x outcome = worker_take x x.queue outcome

-- The bytes that a backslash is put before.
abbrev pub escaped : (ℕ → Bool) → Text → Text
escaped special [] = []
escaped special (c ∷ cs) = (if special c then 92 ∷ c ∷ [] else c ∷ []) ++ escaped special cs

unfoldable pub append_escaped_tag : Text → Text → Text
append_escaped_tag out value =
    out ++ escaped (λ c. c == 44 || (c == 61 || (c == 32 || c == 92))) value

unfoldable pub append_escaped_measurement : Text → Text → Text
append_escaped_measurement out value = out ++ escaped (λ c. c == 44 || (c == 32 || c == 92)) value

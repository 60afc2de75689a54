-- ===== src/Influx/Queue.antt =====
-- What the queue can hold, over every interleaving of the program and the worker.
use axis_cam_metrics.Base.{
  ℕ, ◌≡◌, refl, sym, List, [], ◌∷◌, ◌++◌, Option, none, some, Bool, true, false, not, ◌&&◌, ◌||◌,
  ◌==◌, ◌-◌, ltb, if_ind, subst, inl, inr, ◌⊎◌,
}
use axis_cam_metrics.Base.Text.{Text}
use axis_cam_metrics.Settings.Config.{InfluxConfig}
use axis_cam_metrics.Influx.{
  Influx, Entry, payload, quit, is_empty, influx_apply, influx_tick, influx_stop, worker_take,
  worker_round,
}

-- The steps of the program and, while it runs, of the worker. Stopping happens once.
pub data Step : Influx → Influx → Type 0 where
  apply : {x : Influx} (config : InfluxConfig) → Step x (influx_apply x config)
  tick : {x : Influx} (now : ℕ) (built : Option Text) → Step x (influx_tick x now built)
  stop : {x : Influx} → x.stopping ≡ false → Step x (influx_stop x)
  work : {x : Influx} (outcome : Text) → x.worker ≡ true → Step x (worker_round x outcome).0

-- The queue, by whether the program is stopping and the worker runs: one payload at most, then QUIT,
-- which is there exactly from the stop until the worker takes it.
abbrev pub Fits : Bool → Bool → List Entry → Type 0
Fits false true [] = Unit
Fits false true (payload t ∷ []) = Unit
Fits true true (quit ∷ []) = Unit
Fits true true (payload t ∷ quit ∷ []) = Unit
Fits true false [] = Unit
Fits stopping worker queue = ⊥

abbrev pub Sound : Influx → Type 0
Sound x = Fits x.stopping x.worker x.queue

open_Fits : (s w : Bool) (q : List Entry) → s ≡ false → Fits s w q → w ≡ true
open_Fits true w q e h = cc
open_Fits false true q e h = refl
open_Fits false false [] e h = absurd h
open_Fits false false (payload t ∷ []) e h = absurd h
open_Fits false false (payload t ∷ c ∷ q) e h = absurd h
open_Fits false false (quit ∷ q) e h = absurd h

stop_Fits : (w : Bool) (q : List Entry) → Fits false w q → Fits true w (q ++ (quit ∷ []))
stop_Fits true [] h = tt
stop_Fits true (payload t ∷ []) h = tt
stop_Fits true (payload t ∷ c ∷ q) h = absurd h
stop_Fits true (quit ∷ q) h = absurd h
stop_Fits false [] h = absurd h
stop_Fits false (payload t ∷ []) h = absurd h
stop_Fits false (payload t ∷ c ∷ q) h = absurd h
stop_Fits false (quit ∷ q) h = absurd h

-- A payload leaves the queue, and so does QUIT, with which the worker ends.
pop_Fits : (s : Bool) (t : Text) (q : List Entry) → Fits s true (payload t ∷ q) → Fits s true q
pop_Fits false t [] h = tt
pop_Fits false t (c ∷ q) h = absurd h
pop_Fits true t [] h = absurd h
pop_Fits true t (quit ∷ []) h = tt
pop_Fits true t (quit ∷ c ∷ q) h = absurd h
pop_Fits true t (payload u ∷ q) h = absurd h

quit_Fits : (s : Bool) (q : List Entry) → Fits s true (quit ∷ q) → Fits s false q
quit_Fits false q h = absurd h
quit_Fits true [] h = tt
quit_Fits true (c ∷ q) h = absurd h

apply-Sound : (x : Influx) (config : InfluxConfig) → Sound x → Sound (influx_apply x config)
unfolding influx_apply
apply-Sound x config h = h

tick-Sound :
    (x : Influx) (now : ℕ) (built : Option Text) → Sound x → Sound (influx_tick x now built)
unfolding influx_tick
tick-Sound x now built h =
    if_ind Sound (not x.config.enabled || (x.stopping || is_empty x.config.url)) (λ e. h)
      (λ e.
        if_ind Sound (not (x.last_write == 0) && ltb (now - x.last_write) x.config.interval_s)
          (λ w. h)
          (λ w.
            let s : x.stopping ≡ false =
              running (not x.config.enabled) x.stopping (is_empty x.config.url) e in
            rw (s, open_Fits x.stopping x.worker x.queue s h) (built_Fits built)))
  where
    running : (a b c : Bool) → (a || (b || c)) ≡ false → b ≡ false
    running true b c e = cc
    running false true c e = cc
    running false false c e = refl

    built_Fits :
        (o : Option Text) → Fits false true (elim o [ none ↦ [] | some t ↦ payload t ∷ [] ])
    built_Fits none = tt
    built_Fits (some t) = tt

stop-Sound : (x : Influx) → x.stopping ≡ false → Sound x → Sound (influx_stop x)
unfolding influx_stop
stop-Sound x s h = stop_Fits x.worker x.queue (subst (λ b. Fits b x.worker x.queue) s h)

take-Sound :
    (x : Influx) (q : List Entry) (outcome : Text)
    → x.worker ≡ true
    → Fits x.stopping true q
    → Sound x
    → Sound (worker_take x q outcome).0
unfolding worker_take
take-Sound x [] outcome w f h = h
take-Sound x (quit ∷ q) outcome w f h = quit_Fits x.stopping q f
take-Sound x (payload t ∷ q) outcome w f h =
    if_ind (λ (r : Influx × Option (InfluxConfig × Text)). Sound r.0)
      (x.config.enabled && not (is_empty x.config.url)) (λ e. popped) (λ e. popped)
  where
    popped : Fits x.stopping x.worker q
    popped = subst (λ b. Fits x.stopping b q) (sym w) (pop_Fits x.stopping t q f)

work-Sound :
    (x : Influx) (outcome : Text) → x.worker ≡ true → Sound x → Sound (worker_round x outcome).0
unfolding worker_round
work-Sound x outcome w h =
    take-Sound x x.queue outcome w (subst (λ b. Fits x.stopping b x.queue) w h) h

-- Every step of the program and of the worker keeps the queue to one payload and QUIT.
Step-Sound : {x y : Influx} → Step x y → Sound x → Sound y
Step-Sound {x} (apply config) h = apply-Sound x config h
Step-Sound {x} (tick now built) h = tick-Sound x now built h
Step-Sound {x} (stop s) h = stop-Sound x s h
Step-Sound {x} (work outcome w) h = work-Sound x outcome w h

pub data Run : Influx → Influx → Type 0 where
  done : {x : Influx} → Run x x
  more : {x y z : Influx} → Step x y → Run y z → Run x z

-- Over every interleaving of settings, ticks, the stop and the worker's rounds, the queue holds at most
-- one payload, however slow the server is, and QUIT stands in it, last, exactly from the stop until the
-- worker takes it; before the stop the worker runs.
pub Run-Sound : {x y : Influx} → Run x y → Sound x → Sound y
Run-Sound done h = h
Run-Sound (more s r) h = Run-Sound r (Step-Sound s h)

-- The worker has ended, or ends in its next round.
abbrev pub Ends : Influx → Text → Type 0
Ends z outcome =
    (z.worker ≡ false) ⊎ ((z.worker ≡ true) × ((worker_round z outcome).0.worker ≡ false))

take-Ends :
    (x : Influx) (q : List Entry) (first next : Text)
    → x.worker ≡ true
    → Fits true true q
    → Ends (worker_take x q first).0 next
unfolding worker_take worker_round
take-Ends x [] first next w h = absurd h
take-Ends x (quit ∷ q) first next w h = inl refl
take-Ends x (payload t ∷ []) first next w h = absurd h
take-Ends x (payload t ∷ payload u ∷ q) first next w h = absurd h
take-Ends x (payload t ∷ quit ∷ []) first next w h =
    if_ind (λ (r : Influx × Option (InfluxConfig × Text)). Ends r.0 next)
      (x.config.enabled && not (is_empty x.config.url)) (λ e. inr (w, refl)) (λ e. inr (w, refl))
take-Ends x (payload t ∷ quit ∷ c ∷ q) first next w h = absurd h

-- From the stop of a sound program the worker ends within two rounds, whatever its writes give, so the
-- join of `influx_free` returns.
pub stop-Ends :
    (x : Influx) (first next : Text)
    → Sound x
    → x.stopping ≡ false
    → Ends (worker_round (influx_stop x) first).0 next
unfolding worker_round influx_stop
stop-Ends x first next h s =
    let w = open_Fits x.stopping x.worker x.queue s h in
    take-Ends (influx_stop x) (x.queue ++ (quit ∷ [])) first next w
      (subst (λ b. Fits true b (x.queue ++ (quit ∷ []))) w (stop-Sound x s h))

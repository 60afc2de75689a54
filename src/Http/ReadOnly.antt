-- ===== src/Http/ReadOnly.antt =====
-- What a reader of the server can do.
use axis_cam_metrics.Base.{
  ℕ, ◌≡◌, refl, ap, Option, Bool, true, false, not, ◌||◌, if_ind, ◌⊎◌, inl, inr,
}
use axis_cam_metrics.Base.Text.{Text, codes, str_eq, str_eq→eq}
use axis_cam_metrics.Floats.{Floats}
use axis_cam_metrics.Settings.{settings_json}
use axis_cam_metrics.Http.{
  Reply, settings, route_is, World, Response, served, dispatch, handle_request,
}

abbrev pub is_settings : Reply → Bool
is_settings (settings t) = true
is_settings r = false

get_post :
    (method : Text) → str_eq method (codes "GET") ≡ true → str_eq method (codes "POST") ≡ false
unfolding str_eq
get_post method h = ap (λ t. str_eq t (codes "POST")) (str_eq→eq method (codes "GET") h)

first_false : (a b : Bool) → (not a || b) ≡ false → (a ≡ true) × (b ≡ false)
first_false true b h = (refl, h)
first_false false b h = cc

module _ (F : Floats) (strtod : Text → F.Double) (strtoull : Text → ℕ) (strip : Text → Text)
    (accepts : Text → Text → Bool) (answer : Option ℕ) (path body : Text)
    (w : World F strtod strtoull strip accepts answer) where
  -- The response leaves the state alone, configures nothing, and tells of the settings only where that
  -- is allowed.
  abbrev pub Reads : Bool → Response F strtod strtoull strip accepts answer → Type 0
  Reads allowed r =
      (reply : Reply) × ((r ≡ served w reply false) × (is_settings reply ≡ true → allowed ≡ true))

  plain :
      {allowed : Bool} (reply : Reply)
      → is_settings reply ≡ false
      → Reads allowed (served w reply false)
  plain reply e = (reply, (refl, λ f. cc))

  dispatch-Reads :
      Reads
        (route_is path (codes "settings"))
        (dispatch F strtod strtoull strip accepts answer true false path body w)
  unfolding dispatch
  dispatch-Reads =
      if_ind R (route_is path (codes "settings"))
        (λ e. (settings (settings_json w.parameters), (refl, λ f. e)))
        (λ e.
          if_ind R (route_is path (codes "meta")) (λ e. plain _ refl)
            (λ e.
              if_ind R (route_is path (codes "current")) (λ e. plain _ refl)
                (λ e.
                  if_ind R (route_is path (codes "series")) (λ e. plain _ refl)
                    (λ e.
                      if_ind R (route_is path (codes "health")) (λ e. plain _ refl)
                        (λ e.
                          if_ind R (route_is path (codes "prometheus")) (λ e. plain _ refl)
                            (λ e.
                              if_ind R (route_is path (codes "processes")) (λ e. plain _ refl)
                                (λ e.
                                  if_ind R (route_is path (codes "alerts")) (λ e. plain _ refl)
                                    (λ e.
                                      if_ind R (route_is path (codes "stream")) (λ e. plain _ refl)
                                        (λ e. plain _ refl)))))))))
    where
      R : Response F strtod strtoull strip accepts answer → Type 0
      R = Reads (route_is path (codes "settings"))

  allow :
      {a b : Bool} {r : Response F strtod strtoull strip accepts answer}
      → (a ≡ true → b ≡ true)
      → Reads a r
      → Reads b r
  allow h (reply, (e, f)) = (reply, (e, λ k. h (f k)))

  get_Reads :
      (method : Text)
      → str_eq method (codes "GET") ≡ true
      → Reads (route_is path (codes "settings")) (
          dispatch F strtod strtoull strip accepts answer
            (str_eq method (codes "GET"))
            (str_eq method (codes "POST"))
            path
            body
            w)
  get_Reads method g = rw (g, get_post method g) dispatch-Reads

  -- A request to the read-only port, or a GET to either port, leaves the settings, the rules and the
  -- selection as they are and configures nothing anew; and the read-only port never tells the
  -- settings, whatever the method, the path and the body.
  pub handle_request-Reads :
      (read_only : Bool) (method : Text)
      → (read_only ≡ true) ⊎ (str_eq method (codes "GET") ≡ true)
      → Reads
          (not read_only)
          (handle_request F strtod strtoull strip accepts answer read_only method path body w)
  unfolding handle_request
  handle_request-Reads true method h =
      if_ind (Reads false) (not (str_eq method (codes "GET")) || route_is path (codes "settings"))
        (λ e. plain _ refl)
        (λ e.
          let (g, s) =
            first_false (str_eq method (codes "GET")) (route_is path (codes "settings")) e in
          allow (λ k. cc) (get_Reads method g))
  handle_request-Reads false method (inl h) = cc
  handle_request-Reads false method (inr g) = allow (λ k. refl) (get_Reads method g)

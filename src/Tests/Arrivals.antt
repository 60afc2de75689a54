-- ===== src/Tests/Arrivals.antt =====
-- A request that comes in three pieces.
use axis_cam_metrics.Base.{◌≡◌, ◌≢◌, refl, List, [], ◌∷◌, ℕ, Option, some, none, false, All, arith}
use axis_cam_metrics.Base.Int.{ℤ, pos}
use axis_cam_metrics.Base.Text.{Text, codes, c_str, has_prefix}
use axis_cam_metrics.Http.{after_name, handle_request}
use axis_cam_metrics.Http.Request.{handled, declared, find_text, on_http_request}
use axis_cam_metrics.Http.Request.Chunks.{on_http_request-handle_request}
use axis_cam_metrics.Tests.Requests.{strtod, strtoull, strip, accepts, world}
use axis_cam_metrics.Tests.Samples.{whole}

abbrev strtol : Text → ℤ
strtol t = pos 5

abbrev sscanf : Text → Option (Text × Text)
sscanf t = some (codes "POST", codes "/rules")

abbrev head : Text
head = codes "POST /rules\r\nContent-LENGTH: 5\r\n\r\n"

abbrev body : Text
body = codes "a=b&c"

abbrev pieces : List (List ℕ)
pieces = codes "POST /rules\r\nCont" ∷ codes "ent-LENGTH: 5\r\n\r" ∷ codes "\na=b" ∷ codes "&c" ∷ []

head_plain : All (λ c. c ≢ 0) head
head_plain = grind arith

on_http_request_example :
    on_http_request whole strtod strtoull strip accepts none sscanf strtol false pieces world
    ≡ handled (
        handle_request whole strtod strtoull strip accepts none false
          (codes "POST")
          (codes "/rules")
          body
          world)
unfolding declared after_name has_prefix find_text c_str
on_http_request_example =
    on_http_request-handle_request whole strtod strtoull strip accepts none strtol sscanf false head
      body (codes "POST") (codes "/rules") 30 pieces world head_plain refl refl refl (omega arith)
      (
        (λ e. cc e),
        (
          codes "ent-LENGTH: 5\r\n\r\na=b&c",
          refl,
          (
            (λ e. cc e),
            (
              codes "\na=b&c",
              refl,
              ((λ e. cc e), (codes "&c", refl, ((λ e. cc e), ([], refl, refl)))),
            ),
          ),
        ),
      )
      refl

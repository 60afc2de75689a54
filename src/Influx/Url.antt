-- ===== src/Influx/Url.antt =====
-- `build_url` of app/influx.c: where a payload is posted. Escaping stands for `curl_easy_escape`.
use axis_cam_metrics.Base.{[], ◌∷◌, ◌++◌, Option, none, some, ◌&&◌, ◌==◌, if◌then◌else◌}
use axis_cam_metrics.Base.Text.{Text, codes}
use axis_cam_metrics.Settings.Config.{InfluxConfig}
use axis_cam_metrics.Influx.{is_empty}

-- The loop that takes off slashes at the end.
unfoldable pub without_slashes : Text → Text
without_slashes [] = []
without_slashes (c ∷ cs) =
    let rest = without_slashes cs in if c == 47 && is_empty rest then [] else c ∷ rest

abbrev or_nothing : Option Text → Text
or_nothing none = []
or_nothing (some t) = t

unfoldable pub build_url : (Text → Option Text) → InfluxConfig → Text
unfolding without_slashes
build_url escape config =
    let base = without_slashes config.url in
    let database = or_nothing (escape config.database) in
    if config.is_v1
    then base ++ (codes "/write?db=" ++ (database ++ codes "&precision=s"))
    else base
      ++ (codes "/api/v2/write?org="
          ++ (or_nothing (escape config.org)
              ++ (codes "&bucket=" ++ (database ++ codes "&precision=s"))))

-- ===== src/Tests/Answers.antt =====
-- Series answers at a store whose fine tier is full.
use axis_cam_metrics.Base.{◌≡◌, refl, none, arith, map}
use axis_cam_metrics.Base.Int.{pos}
use axis_cam_metrics.Api.Series.{series_loop}
use axis_cam_metrics.Api.Series.Clock.{shown, expected, times_of, series_loop-shown}
use axis_cam_metrics.Tests.Samples.{whole, registry, full_tier, store}
use axis_cam_metrics.Tests.Files.{full_tier-IsTier}

series_loop_example :
    let (series, shared) = series_loop whole store 0 (pos 7) none registry.defs 0 none in
    map (shown whole store 0 full_tier (pos 7) refl full_tier-IsTier (times_of whole shared)) series
    ≡ expected whole store 0 full_tier (pos 7) refl full_tier-IsTier none registry.defs 0
series_loop_example =
    series_loop-shown whole store 0 full_tier (pos 7) refl full_tier-IsTier none registry.defs
      (omega arith)

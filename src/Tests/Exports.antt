-- ===== src/Tests/Exports.antt =====
-- The InfluxDB hand-over on one run: two ticks while the server is slow, the stop, and the worker's end.
use axis_cam_metrics.Base.{[], some, true, false, refl}
use axis_cam_metrics.Base.Text.{codes}
use axis_cam_metrics.Settings.Config.{InfluxConfig}
use axis_cam_metrics.Influx.{Influx, influx_tick, influx_stop, worker_round}
use axis_cam_metrics.Influx.Queue.{Step, Run, Sound, Run-Sound, Ends, stop-Ends}

abbrev config : InfluxConfig
config = record {
  enabled = true;
  is_v1 = false;
  url = codes "u";
  database = [];
  org = [];
  token = [];
  username = [];
  password = [];
  measurement = [];
  interval_s = 30;
}

abbrev influx : Influx
influx = record {
  config = config;
  worker = true;
  queue = [];
  stopping = false;
  last_write = 0;
  state = [];
}

abbrev ticked : Influx
ticked = influx_tick (influx_tick influx 100 (some (codes "a"))) 200 (some (codes "b"))

abbrev drained : Influx
drained = (worker_round (worker_round (influx_stop ticked) (codes "ok")).0 (codes "ok")).0

handed_over : Run influx drained
unfolding influx_tick influx_stop worker_round
handed_over = Run.more (Step.tick 100 (some (codes "a"))) (
    Run.more (Step.tick 200 (some (codes "b"))) (
      Run.more (Step.stop refl)
        (Run.more (Step.work (codes "ok") refl) (Run.more (Step.work (codes "ok") refl) Run.done))))

Run-Sound_example : Sound drained
Run-Sound_example = Run-Sound handed_over tt

stop-Ends_example : Ends (worker_round (influx_stop influx) (codes "ok")).0 (codes "error")
stop-Ends_example = stop-Ends influx (codes "ok") (codes "error") tt refl

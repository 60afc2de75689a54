-- ===== src/Tests/Sampling.antt =====
-- The main loop at a store of one metric with a history file, and at an attempt that rebuilds first.
use axis_cam_metrics.Base.{refl, [], ◌∷◌, none, some, true, false, arith, inr}
use axis_cam_metrics.Base.Int.{pos}
use axis_cam_metrics.Base.Text.{codes}
use axis_cam_metrics.Main.{App, Attempt, Discovery, push_sample, try_open_persistence}
use axis_cam_metrics.Main.Mirror.{IsApp, IsAlone}
use axis_cam_metrics.Main.Delivery.{push_sample-IsApp}
use axis_cam_metrics.Main.Attempts.{Outcome, try_open_persistence-Outcome}
use axis_cam_metrics.Tests.Samples.{whole, registry, full_tier, empty_tier, store}
use axis_cam_metrics.Tests.Stores.{whole-Rounds}
use axis_cam_metrics.Tests.Files.{history, history-IsFile, full_tier-IsTier}

abbrev recording : App whole
recording = record {
  store = record store { fine = record full_tier { callback = some 0 } };
  alerts = record { rules = []; events = false; notify = true };
  sample_buffer = none ∷ [];
  fine = some history;
  medium = none;
  coarse = none;
  persist_path = none;
  persist_retry_timer = false;
  closed = [];
  effects = [];
}

empty_tier-IsAlone : IsAlone whole empty_tier
empty_tier-IsAlone = record {
  tier_ok = record {
    some_room = omega arith;
    small = omega arith;
    head_in = omega arith;
    count_in = omega arith;
    times = refl;
    all_rows = refl;
  };
  unheard = refl;
}

recording-IsApp : IsApp whole recording
recording-IsApp = record {
  width = refl;
  fine_ok = record {
    tier_ok = record {
      some_room = omega arith;
      small = omega arith;
      head_in = omega arith;
      count_in = omega arith;
      times = refl;
      all_rows = refl;
    };
    file_ok = history-IsFile;
    heard = refl;
    same_room = refl;
    same_width = refl;
    same_entries = refl;
  };
  medium_ok = empty_tier-IsAlone;
  coarse_ok = empty_tier-IsAlone;
}

push_sample_example : IsApp whole (push_sample whole (λ i. true) recording (some 90 ∷ []) (pos 9))
push_sample_example =
    push_sample-IsApp whole (λ i. true) (λ i. refl) recording (some 90 ∷ []) (pos 9) recording-IsApp

abbrev in_memory : App whole
in_memory = record recording { store = store; fine = none }

in_memory-IsApp : IsApp whole in_memory
in_memory-IsApp = record {
  width = refl;
  fine_ok = record { tier_ok = full_tier-IsTier; unheard = refl };
  medium_ok = empty_tier-IsAlone;
  coarse_ok = empty_tier-IsAlone;
}

abbrev attempt : Attempt whole
attempt = record {
  opened = λ i. some (codes "history.bin", history.file);
  residue = λ i slot. (pos 0, []);
  written = λ i round. true;
}

abbrev discovery : Discovery whole
discovery = record {
  registry = registry;
  memory = 4000;
  events = false;
  answer = λ id. none;
  groups = [];
}

try_open_example :
    Outcome whole (try_open_persistence whole (some 1) 1 (discovery ∷ []) attempt in_memory)
try_open_example =
    try_open_persistence-Outcome whole attempt (λ tier round. refl) (some 1) 1 whole-Rounds
      (discovery ∷ []) in_memory in_memory-IsApp (inr (refl, (refl, refl)))

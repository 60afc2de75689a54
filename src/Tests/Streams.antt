-- ===== src/Tests/Streams.antt =====
-- The event stream with a client that stops to read and one that reads every second frame.
use axis_cam_metrics.Base.{
  ℕ, zero, suc, ◌≡◌, refl, List, [], ◌∷◌, arith, All, replicate, ◌==◌, if◌then◌else◌,
  length-replicate,
}
use axis_cam_metrics.Stream.{SseClient, Answer, taken, would_block}
use axis_cam_metrics.Stream.Life.{broadcast_all, Present, stalled-dropped}

abbrev clients : List SseClient
clients = record { connection = 7; stalled = 29 } ∷ record { connection = 8; stalled = 3 } ∷ []

abbrev stuck : ℕ → Answer
stuck c = if c == 7 then would_block else taken

stuck_blocks : (n : ℕ) → All (λ (f : ℕ → Answer). f 7 ≡ would_block) (replicate n stuck)
stuck_blocks zero = tt
stuck_blocks (suc n) = (refl, stuck_blocks n)

stalled_example : ¬ Present 7 (broadcast_all (replicate 40 stuck) clients)
stalled_example =
    stalled-dropped 7 (replicate 40 stuck) clients (omega (arith, length-replicate 40 stuck))
      (stuck_blocks 40) (omega arith, (omega arith, tt))

abbrev slow : List (ℕ → Answer)
slow = (λ c. would_block) ∷ (λ c. taken) ∷ (λ c. would_block) ∷ []

-- ===== src/Stream.antt =====
-- The event-stream clients of app/main.c: who stays in the list when a frame is sent. What a write to
-- a client's socket gives is a parameter; a connection is a number.
pub mod Life
use axis_cam_metrics.Base.{
  ℕ, ◌+◌, List, [], ◌∷◌, ◌++◌, Bool, true, false, leb, if◌then◌else◌, ◌==◌, ◌||◌,
}
use axis_cam_metrics.Base.Words.{u32}

abbrev pub sse_max_stalled : ℕ
sse_max_stalled = 30

-- `SseClient`
pub record SseClient : Type 0 where
  pub connection : ℕ
  pub stalled : ℕ

-- What a write of a frame gives: some of its bytes taken, G_IO_ERROR_WOULD_BLOCK, or another error.
pub data Answer : Type 0 where
  taken would_block failed : Answer

-- `sse_add`: `sent` says whether the headers could be written.
unfoldable pub sse_add : List SseClient → ℕ → Bool → List SseClient
sse_add clients connection sent =
    if sent then record { connection = connection; stalled = 0 } ∷ clients else clients

-- The body of the loop of `sse_broadcast`: the client, if it is not dropped.
unfoldable pub send_frame : SseClient → Answer → List SseClient
send_frame c taken = record c { stalled = 0 } ∷ []
send_frame c would_block =
    if leb sse_max_stalled (u32 (c.stalled + 1))
    then []
    else record c { stalled = u32 (c.stalled + 1) } ∷ []
send_frame c failed = []

unfoldable pub sse_broadcast : (ℕ → Answer) → List SseClient → List SseClient
unfolding send_frame
sse_broadcast answer [] = []
sse_broadcast answer (c ∷ cs) = send_frame c (answer c.connection) ++ sse_broadcast answer cs

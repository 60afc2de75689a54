-- ===== src/Stream/Life.antt =====
-- How long an event-stream client stays, over any sequence of frames.
use axis_cam_metrics.Base.{
  ℕ, suc, ◌+◌, ◌≤◌, ◌<◌, ◌≡◌, sym, ap, ◌∙◌, ◌⊎◌, inl, inr, List, [], ◌∷◌, ◌++◌, arith, All, length,
  leb, leb→le, if_ind, subst,
}
use axis_cam_metrics.Base.Words.{u32}
use axis_cam_metrics.Stream.{
  SseClient, Answer, taken, would_block, failed, sse_max_stalled, send_frame, sse_broadcast,
}

-- The frames, one after the other, each with what the writes of it give.
unfoldable pub broadcast_all : List (ℕ → Answer) → List SseClient → List SseClient
unfolding sse_broadcast
broadcast_all [] cs = cs
broadcast_all (f ∷ fs) cs = broadcast_all fs (sse_broadcast f cs)

-- A client of the connection is in the list.
abbrev pub Present : ℕ → List SseClient → Type 0
Present c [] = ⊥
Present c (x ∷ xs) = (x.connection ≡ c) ⊎ Present c xs

abbrev pub IsLive : SseClient → Type 0
IsLive x = x.stalled < sse_max_stalled

-- The connection has stalled for the last `k` frames.
abbrev Stuck : ℕ → ℕ → SseClient → Type 0
Stuck c k x = (x.connection ≡ c → k ≤ x.stalled) × IsLive x

send_frame-Stuck :
    (c k : ℕ) (x : SseClient) (a : Answer)
    → (x.connection ≡ c → a ≡ would_block)
    → Stuck c k x
    → All (Stuck c (suc k)) (send_frame x a)
unfolding send_frame
send_frame-Stuck c k x taken h (s, live) = ((λ e. absurd (cc (h e)), omega arith), tt)
send_frame-Stuck c k x would_block h (s, live) =
    if_ind (All (Stuck c (suc k))) (leb sse_max_stalled (u32 (x.stalled + 1))) (λ b. tt)
      (λ b. ((λ e. omega (arith, s e), ground arith), tt))
send_frame-Stuck c k x failed h (s, live) = tt

All-join :
    (c k : ℕ) (xs ys : List SseClient)
    → All (Stuck c k) xs
    → All (Stuck c k) ys
    → All (Stuck c k) (xs ++ ys)
All-join c k [] ys h g = g
All-join c k (x ∷ xs) ys h g = (h.0, All-join c k xs ys h.1 g)

sse_broadcast-Stuck :
    (c k : ℕ) (f : ℕ → Answer) (xs : List SseClient)
    → f c ≡ would_block
    → All (Stuck c k) xs
    → All (Stuck c (suc k)) (sse_broadcast f xs)
unfolding sse_broadcast
sse_broadcast-Stuck c k f [] b h = tt
sse_broadcast-Stuck c k f (x ∷ xs) b h =
    All-join c (suc k) (send_frame x (f x.connection)) _
      (send_frame-Stuck c k x (f x.connection) (λ e. ap f e ∙ b) h.0)
      (sse_broadcast-Stuck c k f xs b h.1)

broadcast_all-Stuck :
    (c : ℕ) (fs : List (ℕ → Answer)) (k : ℕ) (xs : List SseClient)
    → All (λ f. f c ≡ would_block) fs
    → All (Stuck c k) xs
    → All (Stuck c (k + length fs)) (broadcast_all fs xs)
unfolding broadcast_all
broadcast_all-Stuck c [] k xs b h = subst (λ (n : ℕ). All (Stuck c n) xs) (omega arith) h
broadcast_all-Stuck c (f ∷ fs) k xs b h =
    subst (λ (n : ℕ). All (Stuck c n) (broadcast_all (f ∷ fs) xs)) (omega arith)
      (broadcast_all-Stuck c fs (suc k) (sse_broadcast f xs) b.1
        (sse_broadcast-Stuck c k f xs b.0 h))

All-start : (c : ℕ) (xs : List SseClient) → All IsLive xs → All (Stuck c 0) xs
All-start c [] h = tt
All-start c (x ∷ xs) h = ((λ e. omega arith, h.0), All-start c xs h.1)

Stuck-absent :
    (c k : ℕ) (xs : List SseClient) → sse_max_stalled ≤ k → All (Stuck c k) xs → Present c xs → ⊥
Stuck-absent c k [] b h p = p
Stuck-absent c k (x ∷ xs) b h (inl e) = absurd (omega (arith, h.0.0 e, h.0.1))
Stuck-absent c k (x ∷ xs) b h (inr p) = Stuck-absent c k xs b h.1 p

-- A client for which 30 frames in a row, or more, would block is not in the list after them, however
-- many clients there are and whatever the others do; at the start no client has stalled 30 times.
pub stalled-dropped :
    (c : ℕ) (fs : List (ℕ → Answer)) (xs : List SseClient)
    → sse_max_stalled ≤ length fs
    → All (λ f. f c ≡ would_block) fs
    → All IsLive xs
    → ¬ Present c (broadcast_all fs xs)
stalled-dropped c fs xs n b h =
    Stuck-absent c (0 + length fs) _ (omega (arith, n))
      (broadcast_all-Stuck c fs 0 xs b (All-start c xs h))

-- No frame to the connection fails, and no 30 in a row would block, where `k` did before.
abbrev pub Reads : ℕ → ℕ → List (ℕ → Answer) → Type 0
Reads c k [] = Unit
Reads c k (f ∷ fs) =
    ((f c ≡ taken) × Reads c 0 fs)
    ⊎ ((f c ≡ would_block) × ((suc k < sse_max_stalled) × Reads c (suc k) fs))

-- A client of the connection with at most `k` stalled frames.
abbrev pub Within : ℕ → ℕ → List SseClient → Type 0
Within c k [] = ⊥
Within c k (x ∷ xs) = ((x.connection ≡ c) × (x.stalled ≤ k)) ⊎ Within c k xs

Within-append : (c k : ℕ) (xs ys : List SseClient) → Within c k ys → Within c k (xs ++ ys)
Within-append c k [] ys h = h
Within-append c k (x ∷ xs) ys h = inr (Within-append c k xs ys h)

Within-front : (c k : ℕ) (xs ys : List SseClient) → Within c k xs → Within c k (xs ++ ys)
Within-front c k [] ys h = absurd h
Within-front c k (x ∷ xs) ys (inl h) = inl h
Within-front c k (x ∷ xs) ys (inr h) = inr (Within-front c k xs ys h)

sse_broadcast-Within :
    (c k k' : ℕ) (f : ℕ → Answer) (xs : List SseClient)
    → ((x : SseClient) → x.connection ≡ c → x.stalled ≤ k → Within c k' (send_frame x (f c)))
    → Within c k xs
    → Within c k' (sse_broadcast f xs)
unfolding sse_broadcast
sse_broadcast-Within c k k' f [] step h = absurd h
sse_broadcast-Within c k k' f (x ∷ xs) step (inl (e, b)) =
    Within-front c k' (send_frame x (f x.connection)) _
      (subst (λ (n : ℕ). Within c k' (send_frame x (f n))) (sym e) (step x e b))
sse_broadcast-Within c k k' f (x ∷ xs) step (inr h) =
    Within-append c k' (send_frame x (f x.connection)) _ (sse_broadcast-Within c k k' f xs step h)

taken-Within :
    (c k : ℕ) (a : Answer) (x : SseClient)
    → a ≡ taken
    → x.connection ≡ c
    → Within c 0 (send_frame x a)
unfolding send_frame
taken-Within c k taken x e h = inl (h, omega arith)
taken-Within c k would_block x e h = absurd (cc e)
taken-Within c k failed x e h = absurd (cc e)

blocked-Within :
    (c k : ℕ) (a : Answer) (x : SseClient)
    → a ≡ would_block
    → suc k < sse_max_stalled
    → x.connection ≡ c
    → x.stalled ≤ k
    → Within c (suc k) (send_frame x a)
unfolding send_frame
blocked-Within c k taken x e b h s = absurd (cc e)
blocked-Within c k failed x e b h s = absurd (cc e)
blocked-Within c k would_block x e b h s =
    if_ind (Within c (suc k)) (leb sse_max_stalled (u32 (x.stalled + 1)))
      (λ t. absurd (omega (arith, leb→le sse_max_stalled (u32 (x.stalled + 1)) t)))
      (λ t. inl (h, omega arith))

Within-Present : (c k : ℕ) (xs : List SseClient) → Within c k xs → Present c xs
Within-Present c k [] h = h
Within-Present c k (x ∷ xs) (inl h) = inl h.0
Within-Present c k (x ∷ xs) (inr h) = inr (Within-Present c k xs h)

-- A client that stalled for `k` frames at most stays in the list over any frames none of which fails
-- for it and no 30 of which in a row would block, counting those `k`.
pub reading-Present :
    (c k : ℕ) (fs : List (ℕ → Answer)) (xs : List SseClient)
    → Within c k xs
    → Reads c k fs
    → Present c (broadcast_all fs xs)
unfolding broadcast_all
reading-Present c k [] xs h r = Within-Present c k xs h
reading-Present c k (f ∷ fs) xs h (inl (e, r)) =
    reading-Present c 0 fs (sse_broadcast f xs)
      (sse_broadcast-Within c k 0 f xs (λ x q s. taken-Within c k (f c) x e q) h) r
reading-Present c k (f ∷ fs) xs h (inr (e, (b, r))) =
    reading-Present c (suc k) fs (sse_broadcast f xs)
      (sse_broadcast-Within c k (suc k) f xs (λ x q s. blocked-Within c k (f c) x e b q s) h) r

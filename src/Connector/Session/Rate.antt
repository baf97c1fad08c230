-- ===== src/Connector/Session/Rate.antt =====
-- The rate limit of the connector's sessions: how many messages get through.
use rw_manager_backend.Base.{
  ℕ, List, [], ◌∷◌, ◌+◌, ◌-◌, ◌≤◌, ◌<◌, length, All, if◌then◌else◌, arith, ◌≡◌, refl,
}
use rw_manager_backend.Connector.Session.{ConnectorSession, consume_message_allowance}

-- How many of the messages at these times the session allows.
unfoldable pub allowed_of : List ℕ → ConnectorSession → ℕ
unfolding consume_message_allowance
allowed_of [] s = 0
allowed_of (now ∷ times) s =
    let (allowed, s') = consume_message_allowance now s in
    let rest = allowed_of times s' in if allowed then rest + 1 else rest

All-map : {P Q : ℕ → Type 0} → ((n : ℕ) → P n → Q n) → (ns : List ℕ) → All P ns → All Q ns
All-map f [] h = h
All-map f (n ∷ ns) (h, hs) = (f n h, All-map f ns hs)

-- In one window the session allows what is left of the 120 messages.
one_window :
    (times : List ℕ) (s : ConnectorSession)
    → All (λ now. now < s.rate_window_started_at + 60000) times
    → allowed_of times s ≤ 120 - s.messages_in_rate_window
unfolding allowed_of consume_message_allowance
one_window [] s h = ground arith
one_window (now ∷ times) s (h, hs) =
    let ih =
      one_window times (record s { messages_in_rate_window = s.messages_in_rate_window + 1 }) hs in
    ground (arith, h, ih)

two_windows :
    (start : ℕ) (times : List ℕ) (s : ConnectorSession)
    → All (λ now. (start ≤ now) × (now < start + 60000)) times
    → allowed_of times s ≤ 120 - s.messages_in_rate_window + 120
unfolding allowed_of consume_message_allowance
two_windows start [] s h = ground arith
two_windows start (now ∷ times) s ((low, high), hs) =
    let ih =
      two_windows start times (record s { messages_in_rate_window = s.messages_in_rate_window + 1 })
        hs in
    let fresh =
      one_window times (record s { rate_window_started_at = now; messages_in_rate_window = 1 })
        (All-map (λ t h. ground (arith, h.1, low)) times hs) in
    ground (arith, ih, fresh)

-- In a span of less than a minute a session allows at most 240 messages, however many arrive and
-- whatever the session went through before.
pub allowed_in_span :
    (start : ℕ) (times : List ℕ) (s : ConnectorSession)
    → All (λ now. (start ≤ now) × (now < start + 60000)) times
    → allowed_of times s ≤ 240
allowed_in_span start times s h = let bound = two_windows start times s h in ground (arith, bound)

-- A session allows all messages, at whatever times, as long as they are no more than its window has
-- left of the 120.
pub allowed_all :
    (times : List ℕ) (s : ConnectorSession)
    → s.messages_in_rate_window + length times ≤ 120
    → allowed_of times s ≡ length times
unfolding allowed_of consume_message_allowance
allowed_all [] s h = refl
allowed_all (now ∷ times) s h =
    let kept =
      allowed_all times (record s { messages_in_rate_window = s.messages_in_rate_window + 1 })
        (ground (arith, h)) in
    let fresh =
      allowed_all times (record s { rate_window_started_at = now; messages_in_rate_window = 1 })
        (ground (arith, h)) in
    ground (arith, kept, fresh)

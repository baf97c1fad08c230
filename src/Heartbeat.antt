-- ===== src/Heartbeat.antt =====
-- src/service/websocket-heartbeat-service.ts: one round of the heartbeat over the clients of a
-- WebSocket server. A socket is its number and whether readyState is OPEN; `alive` is the set of the
-- sockets that have answered since the last round.
pub mod Rounds
use rw_manager_backend.Base.{
  ℕ, Bool, true, false, not, List, [], ◌∷◌, nat_eq, filter, if◌then◌else◌,
}

pub record Socket : Type 0 where
  pub id : ℕ
  pub is_open : Bool

pub record Round : Type 0 where
  pub alive : List ℕ
  pub terminated : List ℕ
  pub pinged : List ℕ

unfoldable pub has : ℕ → List ℕ → Bool
has id [] = false
has id (i ∷ ids) = let rest = has id ids in if nat_eq i id then true else rest

abbrev pub delete : ℕ → List ℕ → List ℕ
delete id ids = filter (λ i. not (nat_eq i id)) ids

unfoldable pub run_heartbeat : List Socket → List ℕ → Round
run_heartbeat [] alive = record { alive = alive; terminated = []; pinged = [] }
run_heartbeat (s ∷ ss) alive =
    let same = run_heartbeat ss alive in
    let answered = run_heartbeat ss (delete s.id alive) in
    if not s.is_open
    then same
    else if not (has s.id alive)
    then record same { terminated = s.id ∷ same.terminated }
    else record answered { pinged = s.id ∷ answered.pinged }

-- A client connects, or answers with a pong: it is in the set.
unfoldable pub pong : ℕ → List ℕ → List ℕ
pong id alive = if has id alive then alive else id ∷ alive

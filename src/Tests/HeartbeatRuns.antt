-- ===== src/Tests/HeartbeatRuns.antt =====
-- The theorems of the heartbeat with one answering, one silent and one closed socket.
use rw_manager_backend.Base.{true, false, List, [], ◌∷◌, filter, ◌≡◌, refl}
use rw_manager_backend.Heartbeat.{Socket, has, run_heartbeat}
use rw_manager_backend.Heartbeat.Rounds.{
  ids, HasDistinctIds, silent, terminated-silent, second_round,
}

abbrev clients : List Socket
clients =
    record { id = 1; is_open = true }
    ∷ record { id = 2; is_open = true }
    ∷ record { id = 3; is_open = false }
    ∷ []

clients-HasDistinctIds : HasDistinctIds clients
unfolding has
clients-HasDistinctIds = (refl, (refl, (refl, tt)))

terminated-silent_example :
    (run_heartbeat clients (1 ∷ 3 ∷ [])).terminated ≡ ids (filter (silent (1 ∷ 3 ∷ [])) clients)
terminated-silent_example = terminated-silent clients (1 ∷ 3 ∷ []) clients-HasDistinctIds

second_round_example :
    (run_heartbeat clients (run_heartbeat clients (1 ∷ 3 ∷ [])).alive).terminated
    ≡ ids (filter (λ s. s.is_open) clients)
second_round_example = second_round clients (1 ∷ 3 ∷ []) clients-HasDistinctIds

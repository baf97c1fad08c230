-- ===== src/OpenId/Runs.antt =====
-- Sign-ins under way at the same time, as a sequence of the two steps of each.
use rw_manager_backend.Base.{
  ℕ, String, Bool, not, ◌≤◌, ◌<◌, Option, none, some, List, [], ◌∷◌, find?, filter, str_eq,
  if◌then◌else◌, Result, ok, err, ◌≡◌,
}
use rw_manager_backend.OpenId.{
  SteamAuthRequest, OpenIdHost, Nonces, nonce_time, begin_verification, end_verification,
}

-- A request to Steam that is under way.
pub record Task : Type 0 where
  pub started : ℕ
  pub steam_id : String
  pub nonce : String

pub record World : Type 0 where
  pub clock : ℕ
  pub nonces : Nonces
  pub tasks : List Task
  pub accepted : List String

pub data Event : Type 0 where
  begins : ℕ → SteamAuthRequest → Event
  ends : String → Bool → Event

abbrev pub is_task : String → Task → Bool
is_task nonce t = str_eq t.nonce nonce

module _ (host : OpenIdHost) where
  abbrev pub begun : ℕ → World → Result (String × String) × Nonces → World
  begun now w (ok (steam_id, nonce), n) = record w {
    clock = now;
    nonces = n;
    tasks = record { started = now; steam_id = steam_id; nonce = nonce } ∷ w.tasks;
  }
  begun now w (err e, n) = record w { clock = now; nonces = n }

  abbrev pub ended : Bool → World → Option Task → World
  ended is_valid w none = w
  ended is_valid w (some t) =
      let (result, n) = end_verification t.started t.steam_id t.nonce is_valid w.nonces in
      record w {
        nonces = n;
        tasks = filter (λ u. not (is_task t.nonce u)) w.tasks;
        accepted = if is_valid then t.nonce ∷ w.accepted else w.accepted;
      }

  unfoldable pub step : Event → World → World
  step (begins now input) w = begun now w (begin_verification host now input w.nonces)
  step (ends nonce is_valid) w = ended is_valid w (find? (is_task nonce) w.tasks)

  unfoldable pub run : List Event → World → World
  run [] w = w
  run (e ∷ es) w = run es (step e w)

  -- The clock does not go back, and a nonce is of a time before it is taken.
  abbrev pub IsTimely : ℕ → List Event → Type 0
  IsTimely clock [] = Unit
  IsTimely clock (begins now input ∷ es) =
      (clock ≤ now)
      × ((nonce : String) (t : ℕ)
          → input.response_nonce ≡ some nonce
          → nonce_time host nonce ≡ some t
          → t < now)
      × IsTimely now es
  IsTimely clock (ends nonce is_valid ∷ es) = IsTimely clock es

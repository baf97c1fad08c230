-- ===== src/Tests/OpenIdRuns.antt =====
-- The theorem of Steam's OpenID: a sign-in, and the same response once more.
use rw_manager_backend.Base.{
  ℕ, String, Bool, true, false, none, some, List, [], ◌∷◌, ◌≡◌, ◌<◌, refl, arith, IsDistinct,
  includes, all, filter, find?, map_get, map_set, split_on, is_digit, all_chars, if◌then◌else◌,
}
use mathlib.Core.Option
use mathlib.Core.Option.{some_inj}
use rw_manager_backend.OpenId.{
  SteamAuthRequest, OpenIdHost, claim, claimed_steam_id, begin_verification, end_verification,
  nonce_time, is_nonce,
}
use rw_manager_backend.OpenId.Runs.{Event, begins, ends, IsTimely, step, run}
use rw_manager_backend.OpenId.Replay.{at_start, accepted-IsDistinct}

abbrev host : OpenIdHost
host = record {
  parse_url = λ s.
      some (record { origin = "https://manager"; pathname = "/auth/steam/callback"; search = "" });
  date_ms = λ s. some 1000;
  return_origin = "https://manager";
}

abbrev claimed : String
claimed = "https://steamcommunity.com/openid/id/76561198000000000"

abbrev nonce : String
nonce = "2026-01-01T00:00:00Zabc"

abbrev response : SteamAuthRequest
response = record {
  ns = some "http://specs.openid.net/auth/2.0";
  mode = some "id_res";
  op_endpoint = some "https://steamcommunity.com/openid/login";
  claimed_id = some claimed;
  identity = some claimed;
  return_to = some "https://manager/auth/steam/callback";
  response_nonce = some nonce;
  assoc_handle = some "handle";
  signed = some "op_endpoint,claimed_id,identity,return_to,response_nonce,assoc_handle";
  sig = some "signature";
}

abbrev events : List Event
events =
    begins 2000 response
    ∷ begins 2001 response
    ∷ ends nonce true
    ∷ begins 5000 response
    ∷ ends nonce true
    ∷ []

-- The time in the nonce is that of the host's clock at 1000.
past :
    (now : ℕ)
    → 1000 < now
    → (n : String) (t : ℕ) → response.response_nonce ≡ some n
    → nonce_time host n ≡ some t
    → t < now
unfolding nonce_time
past now after n t is_it at = timed (is_nonce n) at
  where
    timed : (b : Bool) → (if b then some 1000 else none) ≡ some t → t < now
    timed true h = omega (arith, (some_inj).0 h, after)
    timed false h = absurd (cc h)

timely : IsTimely host 1 events
timely = (
  omega arith,
  past 2000 (omega arith),
  (omega arith, past 2001 (omega arith), (omega arith, past 5000 (omega arith), tt)),
)

-- The first of them is accepted.
accepted-once : (run host events (at_start 1)).accepted ≡ nonce ∷ []
unfolding run step begin_verification end_verification claim claimed_steam_id nonce_time is_nonce
    is_digit all_chars includes all filter find? map_get map_set split_on Option.bind
accepted-once = refl

accepted-IsDistinct_example : IsDistinct (run host events (at_start 1)).accepted
accepted-IsDistinct_example = accepted-IsDistinct host 1 events timely

-- A nonce of 30 seconds after the clock is accepted again ten minutes later.
abbrev ahead : OpenIdHost
ahead = record host { date_ms = λ s. some 32000 }

accepted-twice :
    (run ahead
      (begins 2000 response ∷ ends nonce true ∷ begins 602001 response ∷ ends nonce true ∷ [])
      (at_start 1)).accepted
    ≡ nonce ∷ nonce ∷ []
unfolding run step begin_verification end_verification claim claimed_steam_id nonce_time is_nonce
    is_digit all_chars includes all filter find? map_get map_set split_on Option.bind
accepted-twice = refl

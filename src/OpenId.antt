-- ===== src/OpenId.antt =====
-- service/steam-openid-service.ts: `verifySteamOpenId`. The check is two steps, before and after the
-- request to Steam: `begin_verification` and `end_verification`.
pub mod Runs
pub mod Lists
pub mod Replay
use Prim.Native.Char.{Char, code}
use Prim.Native.String
use mathlib.Core.Option
use rw_manager_backend.Base.{
  ℕ, String, Bool, true, false, not, ◌&&◌, ◌||◌, ◌+◌, ◌-◌, ◌*◌, Option, none, some, List, [], ◌∷◌,
  all, filter, ltb, leb, nat_eq, str_eq, opt_eq, truthy, is_some, or_else, is_digit, all_chars,
  includes, split_on, map_get, map_set, map_has, Entries, if◌then◌else◌, Code, Result, ok, err, Run,
  openid_invalid,
}
use rw_manager_backend.Auth.Token.{line?}

-- dto/steam-auth-request.ts: the fields `openid.…`.
pub record SteamAuthRequest : Type 0 where
  pub ns : Option String
  pub mode : Option String
  pub op_endpoint : Option String
  pub claimed_id : Option String
  pub identity : Option String
  pub return_to : Option String
  pub response_nonce : Option String
  pub assoc_handle : Option String
  pub signed : Option String
  pub sig : Option String

-- `new URL(s)`
pub record Url : Type 0 where
  pub origin : String
  pub pathname : String
  pub search : String

-- `parse_url` is none where the constructor throws; `date_ms` is Date.parse, with none for NaN and for
-- a date before 1970; `return_origin` is AppConfig.steamOpenIdReturnOrigin.
pub record OpenIdHost : Type 0 where
  pub parse_url : String → Option Url
  pub date_ms : String → Option ℕ
  pub return_origin : String

abbrev pub nonce_ttl_ms : ℕ
nonce_ttl_ms = 10 * 60 * 1000

-- usedNonces, with the times of their expiry, and pendingNonces.
pub record Nonces : Type 0 where
  pub used : Entries ℕ
  pub pending : List String

strip_prefix : String → String → Option String
strip_prefix String.[] s = some s
strip_prefix (String.◌∷◌ c p) String.[] = none
strip_prefix (String.◌∷◌ c p) (String.◌∷◌ d s) =
    let rest = strip_prefix p s in if nat_eq (code c) (code d) then rest else none

-- (\d{17})$
abbrev digits_17 : String → Option String
digits_17 s = if all_chars is_digit s && nat_eq (String.count s) 17 then some s else none

-- /^https?:\/\/steamcommunity\.com\/openid\/id\/(\d{17})$/
unfoldable pub claimed_steam_id : String → Option String
unfolding strip_prefix
claimed_steam_id s =
    Option.bind
      (or_else (strip_prefix "https://steamcommunity.com/openid/id/" s)
        (strip_prefix "http://steamcommunity.com/openid/id/" s))
      digits_17

-- What a template with `0` for a digit leaves of a string.
strip_shape : String → String → Option String
strip_shape String.[] s = some s
strip_shape (String.◌∷◌ c p) String.[] = none
strip_shape (String.◌∷◌ c p) (String.◌∷◌ d s) =
    let rest = strip_shape p s in
    if nat_eq (code c) b'0'
    then if is_digit d then rest else none
    else if nat_eq (code c) (code d)
    then rest
    else none

-- /^\d{4}-\d{2}-\d{2}T\d{2}:\d{2}:\d{2}Z.+$/
unfoldable pub is_nonce : String → Bool
unfolding strip_shape
is_nonce s = is_some (Option.bind (strip_shape "0000-00-00T00:00:00Z" s) line?)

-- s.slice(0, 20), of a nonce
take_chars : List (Unit {0}) → String → String
take_chars [] s = String.[]
take_chars (u ∷ us) String.[] = String.[]
take_chars (u ∷ us) (String.◌∷◌ c s) = String.◌∷◌ c (take_chars us s)

abbrev twenty : List (Unit {0})
twenty =
    tt ∷ tt ∷ tt ∷ tt ∷ tt ∷ tt ∷ tt ∷ tt ∷ tt ∷ tt ∷ tt ∷ tt ∷ tt ∷ tt ∷ tt ∷ tt ∷ tt ∷ tt ∷ tt
    ∷ tt ∷ []

ends_with : String → String → Bool
ends_with end String.[] = str_eq String.[] end
ends_with end (String.◌∷◌ c s) = str_eq (String.◌∷◌ c s) end || ends_with end s

abbrev is_return : OpenIdHost → Option Url → Bool
is_return host none = false
is_return host (some url) =
    str_eq url.origin host.return_origin
    && ends_with "/auth/steam/callback" url.pathname
    && str_eq url.search ""

abbrev signs_all : List String → Bool
signs_all signed =
    all (λ field. includes field signed)
      ("op_endpoint" ∷ "claimed_id" ∷ "identity" ∷ "return_to" ∷ "response_nonce" ∷ "assoc_handle"
        ∷ [])

-- The Steam id that a well-formed response claims.
unfoldable pub claim : OpenIdHost → SteamAuthRequest → Option String
unfolding ends_with
claim host input = elim (Option.bind input.claimed_id claimed_steam_id) [
  | none ↦ none
  | some steam_id ↦
      if opt_eq input.identity input.claimed_id
        && not (str_eq host.return_origin "")
        && opt_eq input.ns (some "http://specs.openid.net/auth/2.0")
        && opt_eq input.mode (some "id_res")
        && opt_eq input.op_endpoint (some "https://steamcommunity.com/openid/login")
        && truthy input.sig
        && is_some input.assoc_handle
        && elim input.signed [ none ↦ false | some s ↦ signs_all (split_on "," s) ]
        && is_return host
            (elim input.return_to [ none ↦ host.parse_url "" | some s ↦ host.parse_url s ])
      then some steam_id
      else none
]

unfoldable pub nonce_time : OpenIdHost → String → Option ℕ
unfolding take_chars
nonce_time host nonce = if is_nonce nonce then host.date_ms (take_chars twenty nonce) else none

-- A nonce that is neither too old nor of the future.
abbrev pub in_window : ℕ → Option ℕ → Bool
in_window now none = false
in_window now (some t) = leb now (t + nonce_ttl_ms) && leb t (now + 60000)

abbrev pub live : ℕ → Entries ℕ → Entries ℕ
live now [] = []
live now ((nonce, expiry) ∷ es) =
    let rest = live now es in if leb expiry now then rest else (nonce, expiry) ∷ rest

-- The nonces that have expired are forgotten, and a new one is pending.
abbrev pub take_nonce : ℕ → String → String → Nonces → Result (String × String) × Nonces
take_nonce now steam_id nonce n =
    let used = live now n.used in
    if map_has nonce used || includes nonce n.pending
    then (err openid_invalid, record n { used = used })
    else (ok (steam_id, nonce), record { used = used; pending = nonce ∷ n.pending })

abbrev pub check_nonce :
    OpenIdHost → ℕ → String → Option String → Nonces → Result (String × String) × Nonces
check_nonce host now steam_id none n = (err openid_invalid, n)
check_nonce host now steam_id (some nonce) n =
    if in_window now (nonce_time host nonce)
    then take_nonce now steam_id nonce n
    else (err openid_invalid, n)

abbrev pub check_claim :
    OpenIdHost → ℕ → Option String → SteamAuthRequest → Nonces → Result (String × String) × Nonces
check_claim host now none input n = (err openid_invalid, n)
check_claim host now (some steam_id) input n = check_nonce host now steam_id input.response_nonce n

-- The steam id and the nonce, where Steam is asked.
unfoldable pub begin_verification :
    OpenIdHost → ℕ → SteamAuthRequest → Nonces → Result (String × String) × Nonces
begin_verification host now input n = check_claim host now (claim host input) input n

-- `now` is the time before the request, `is_valid` whether Steam answers `is_valid:true`.
unfoldable pub end_verification :
    ℕ → (steam_id nonce : String) → Bool → Nonces → Result String × Nonces
end_verification now steam_id nonce is_valid n =
    let pending = filter (λ p. not (str_eq p nonce)) n.pending in
    if is_valid
    then (
      ok steam_id,
      record { used = map_set nonce (now + nonce_ttl_ms) n.used; pending = pending },
    )
    else (err openid_invalid, record n { pending = pending })

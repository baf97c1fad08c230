-- ===== src/Connector/Provision.antt =====
-- The first message of a connection: provisioning by the peer's address, and authentication. `is_ip`
-- is isIP of node:net, `random` and `iv` stand for randomBytes.
pub mod Laws
pub mod Authentication
use Prim.Native.Char.{code}
use Prim.Native.String
use mathlib.Core.Option
use rw_manager_backend.Base.{
  ℕ, String, Bool, true, false, not, Option, none, some, List, [], ◌∷◌, ltb, nat_eq, str_eq,
  includes, truthy, is_some, get_or, filter, unique, if◌then◌else◌, Run, throw, return, read, call,
  guard, or_throw, ◌>>=◌, ◌>>◌, after, Result, ok, err, Code, connector_not_configured,
  pairing_ambiguous, server_not_found, provision_failed, untrusted_proxy, peer_ip_unavailable,
  invalid_message, unauthorized,
}
use rw_manager_backend.Data.Server.{ServerConfig}
use rw_manager_backend.Data.Value.{Value}
use rw_manager_backend.Store.State.{MongoCollections, Store}
use rw_manager_backend.Store.Servers.{list_servers, at_endpoint}
use rw_manager_backend.Store.Credentials.{
  claim_server_connector_credential, replace_server_connector_credential,
  replace_server_connector_credential_if_current,
}
use rw_manager_backend.Connector.Message.{provision_port, authenticate_credential}
use rw_manager_backend.Connector.Credential.{
  Cipher, encrypt_game_connector_credential, decrypt_game_connector_credential_with_key_ring,
}

pub record ConnectorConfig : Type 0 where
  pub credential_key : Option String
  pub previous_keys : List String
  pub trusted_proxy_ips : List String

-- What node:crypto, node:net and the language provide.
pub record Host : Type 0 where
  pub cipher : Cipher
  pub is_ip : String → Bool
  pub utf16_length : String → ℕ

-- value.startsWith(prefix), with value.slice(prefix.length)
unfoldable pub strip_prefix : String → String → Option String
strip_prefix String.[] s = some s
strip_prefix (String.◌∷◌ c p) String.[] = none
strip_prefix (String.◌∷◌ c p) (String.◌∷◌ d s) =
    let rest = strip_prefix p s in if nat_eq (code c) (code d) then rest else none

-- An error code in place of a candidate.
abbrev pub only : List ServerConfig → Result ServerConfig
only [] = err server_not_found
only (s ∷ []) = ok s
only (s ∷ t ∷ ss) = err pairing_ambiguous

abbrev pub from_result : {S A : Type 0} → Result A → Run S A
from_result r s = (r, s)

module _ (m : MongoCollections) (config : ConnectorConfig) (host : Host) where
  unfoldable pub normalize_ip : Option String → Option String
  normalize_ip none = none
  normalize_ip (some value) =
      let ip = get_or (strip_prefix "::ffff:" value) value in
      if str_eq value "" then none else if host.is_ip ip then some ip else none

  abbrev trusted : List String → Option String → Bool
  trusted [] ip = false
  trusted (proxy ∷ proxies) none = false
  trusted (proxy ∷ proxies) (some ip) =
      same (normalize_ip (some proxy)) ip (trusted proxies (some ip))
    where
      same : Option String → String → Bool → Bool
      same none ip rest = rest
      same (some p) ip rest = if str_eq p ip then true else rest

  -- `remote` is request.socket.remoteAddress, `header` the header x-real-ip where it is one string.
  unfoldable pub peer_ip_from_request : (remote header : Option String) → Run (Store m) String
  peer_ip_from_request remote header = do
    address ← or_throw (normalize_ip remote) untrusted_proxy
    guard (trusted config.trusted_proxy_ips (some address)) untrusted_proxy
    or_throw (normalize_ip header) peer_ip_unavailable

  -- The write of the encrypted credential: whether it was done.
  abbrev pub store_credential : ServerConfig → String → Store m → Bool × Store m
  store_credential server encrypted st =
      if truthy server.connector_credential
      then replace_server_connector_credential m server.id encrypted st
      else claim_server_connector_credential m server.id encrypted st

  abbrev pub provision_server : (random iv key : String) → ServerConfig → Run (Store m) String
  provision_server random iv key server = do
    stored ←
        call (store_credential server (encrypt_game_connector_credential host.cipher iv random key))
    guard stored provision_failed
    return random

  abbrev pub provision_for :
      (random iv : String) (port : ℕ) (key peer_ip : String) → Run (Store m) String
  provision_for random iv port key peer_ip = do
    servers ← read (list_servers m)
    server ← from_result (only (filter (at_endpoint peer_ip port) servers))
    provision_server random iv key server

  unfoldable pub provision :
      (random iv : String) (remote header : Option String) (game_port : ℕ) → Run (Store m) String
  provision random iv remote header game_port = do
    key ← or_throw config.credential_key connector_not_configured
    peer_ip ← peer_ip_from_request remote header
    provision_for random iv game_port key peer_ip

  abbrev key_ring : String → List String
  key_ring key = key ∷ config.previous_keys

  -- The server whose credential the text is, with its stored form and the place of its key.
  abbrev matches : String → Option (String × ℕ) → Option ℕ
  matches credential none = none
  matches credential (some (c, n)) = if str_eq c credential then some n else none

  abbrev decrypted : String → Option String → Option (String × ℕ)
  decrypted key none = none
  decrypted key (some stored) =
      if str_eq stored ""
      then none
      else decrypt_game_connector_credential_with_key_ring host.cipher stored (key_ring key)

  abbrev pub accepts : String → String → ServerConfig → Option ℕ
  accepts key credential s = matches credential (decrypted key s.connector_credential)

  -- A credential under a previous key is encrypted anew with the current one.
  abbrev re_encrypt : (iv key credential : String) → ServerConfig → ℕ → Store m → Store m
  re_encrypt iv key credential s n st =
      if ltb 0 n
      then (replace_server_connector_credential_if_current m s.id (get_or s.connector_credential "")
          (encrypt_game_connector_credential host.cipher iv credential key) st).1
      else st

  unfoldable pub authenticate_in :
      (iv key credential : String) → List ServerConfig → Run (Store m) String
  authenticate_in iv key credential [] st = (err unauthorized, st)
  authenticate_in iv key credential (s ∷ ss) st = elim (accepts key credential s) [
    | none ↦ authenticate_in iv key credential ss st
    | some n ↦ (ok s.id, re_encrypt iv key credential s n st)
  ]

  unfoldable pub authenticate : (iv credential : String) → Run (Store m) String
  unfolding authenticate_in
  authenticate iv credential = do
    key ← or_throw config.credential_key unauthorized
    guard (not (ltb 256 (host.utf16_length credential))) unauthorized
    servers ← read (list_servers m)
    authenticate_in iv key credential servers

  -- What the first message yields.
  pub data FirstMessage : Type 0 where
    provisioned authenticated : String → FirstMessage

  -- `message` is none where it is no JSON object.
  abbrev authenticate_message : String → Option String → Run (Store m) FirstMessage
  authenticate_message iv none st = (err invalid_message, st)
  authenticate_message iv (some credential) st =
      after (authenticate iv credential st) (λ id. return (authenticated id))

  abbrev first_of :
      (random iv : String) (remote header : Option String)
      → Value
      → Option ℕ
      → Run (Store m) FirstMessage
  first_of random iv remote header v (some port) st =
      after (provision random iv remote header port st) (λ c. return (provisioned c))
  first_of random iv remote header v none st =
      authenticate_message iv (authenticate_credential host.utf16_length v) st

  unfoldable pub handle_first_message :
      (random iv : String) (remote header : Option String)
      → Option Value
      → Run (Store m) FirstMessage
  handle_first_message random iv remote header none st = (err invalid_message, st)
  handle_first_message random iv remote header (some v) st =
      first_of random iv remote header v (provision_port v) st

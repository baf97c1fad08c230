-- ===== src/Connector/Provision/Laws.antt =====
-- What provisioning and authentication store, and for whom.
use rw_manager_backend.Base.{
  ℕ, String, Option, none, some, List, [], ◌∷◌, filter, update_first, or_throw, after, truthy,
  Result, ok, err, Code, true, str_eq, eq_iff, ap, ◌∙◌, Bool-cases, Option-cases, inl, inr, ◌≡◌,
  refl, ◌⊎◌, if◌then◌else◌, arith, connector_not_configured, provision_failed, peer_ip_unavailable,
  untrusted_proxy,
}
use rw_manager_backend.Data.Server.{ServerConfig}
use rw_manager_backend.Store.State.{MongoCollections, Store, servers_of}
use rw_manager_backend.Store.Servers.{has_id, at_endpoint}
use rw_manager_backend.Store.Servers.Views.{HasUniqueIds, list_servers-view}
use rw_manager_backend.Store.Credentials.{set_credential}
use rw_manager_backend.Store.Credentials.Views.{replace-IsWrite, claim-IsWrite_guard}
use rw_manager_backend.Connector.Credential.{encrypt_game_connector_credential}
use rw_manager_backend.Connector.Provision.{
  ConnectorConfig, Host, peer_ip_from_request, normalize_ip, trusted, only, from_result,
  store_credential, provision, provision_for, provision_server,
}

module _ (m : MongoCollections) (config : ConnectorConfig) (host : Host) where
  -- The address is that of one of the proxies.
  abbrev pub HasProxy : String → List String → Type 0
  HasProxy address [] = ⊥
  HasProxy address (proxy ∷ proxies) =
      (normalize_ip m config host (some proxy) ≡ some address) ⊎ HasProxy address proxies

  -- The request comes from a trusted proxy, and the peer is the one that its header names.
  abbrev pub IsFromProxy : (remote header : Option String) → String → Type 0
  IsFromProxy remote header peer =
      (address : String) × (normalize_ip m config host remote ≡ some address)
      × HasProxy address config.trusted_proxy_ips
      × (normalize_ip m config host header ≡ some peer)

  trusted-HasProxy :
      (proxies : List String) (address : String)
      → trusted m config host proxies (some address) ≡ true
      → HasProxy address proxies
  trusted-HasProxy [] address h = absurd (cc h)
  trusted-HasProxy (proxy ∷ proxies) address h =
      elim (Option-cases (normalize_ip m config host (some proxy))) [
        | inl e ↦ inr (trusted-HasProxy proxies address (rw e at h))
        | inr (ip, e) ↦ elim (Bool-cases (str_eq ip address)) [
          | inl same ↦ inl (e ∙ ap (λ t. some t) ((eq_iff ip address).0 same))
          | inr other ↦ inr (trusted-HasProxy proxies address (rw (e, other) at h))
        ]
      ]

  peer_ip_cases :
      (remote header : Option String) (st : Store m)
      → let r = peer_ip_from_request m config host remote header st in
        ((peer : String) × (r ≡ (ok peer, st)) × IsFromProxy remote header peer)
        ⊎ ((e : Code) × (r ≡ (err e, st)))
  unfolding peer_ip_from_request
  peer_ip_cases remote header st = elim (Option-cases (normalize_ip m config host remote)) [
    | inl e ↦ inr (untrusted_proxy, rw e refl)
    | inr (ip, e) ↦ elim (Bool-cases (trusted m config host config.trusted_proxy_ips (some ip))) [
      | inl t ↦ elim (Option-cases (normalize_ip m config host header)) [
        | inl h ↦ inr (peer_ip_unavailable, rw (e, t, h) refl)
        | inr (peer, h) ↦
            inl
              (peer, rw (e, t, h) refl, (ip, e, trusted-HasProxy config.trusted_proxy_ips ip t, h))
      ]
      | inr f ↦ inr (untrusted_proxy, rw (e, f) refl)
    ]
  ]

  -- The credential is written, or nothing is.
  written :
      (server : ServerConfig) (c : String) (st : Store m)
      → HasUniqueIds (servers_of m st)
      → let (done, st') = store_credential m config host server c st in
        servers_of m st' ≡ (
          if done
          then update_first (has_id server.id) (set_credential (some c)) (servers_of m st)
          else servers_of m st)
  written server c st unique = elim (Bool-cases (truthy server.connector_credential)) [
    | inl e ↦ let (done, now) = replace-IsWrite m server.id c st in rw (e, done) now
    | inr e ↦ let (done, now) = claim-IsWrite_guard m server.id c st unique in rw (e, done) now
  ]

  -- What a request to provision the server at a game port did.
  pub data Provisioned (random iv : String) (remote header : Option String) (port : ℕ)
      (st : Store m) : Result String × Store m → Type 0 where
    refused :
        {r : Result String × Store m} (e : Code)
        → r.0 ≡ err e
        → servers_of m r.1 ≡ servers_of m st
        → Provisioned random iv remote header port st r
    provisioned :
        {r : Result String × Store m} (key peer : String) (server : ServerConfig)
        → config.credential_key ≡ some key
        → peer_ip_from_request m config host remote header st ≡ (ok peer, st)
        → IsFromProxy remote header peer
        → filter (at_endpoint peer port) (servers_of m st) ≡ server ∷ []
        → r.0 ≡ ok random
        → servers_of m r.1
          ≡ update_first
              (has_id server.id)
              (set_credential (some (encrypt_game_connector_credential host.cipher iv random key)))
              (servers_of m st)
        → Provisioned random iv remote header port st r

  -- A request to provision is refused and changes no server, or it answers with the new credential
  -- and stores it, encrypted with the current key, for the server at the port and at the peer's
  -- address, as a proxy that the settings trust reports it. There is exactly one such server. Ids are unique.
  pub provision-Provisioned :
      (random iv : String) (remote header : Option String) (port : ℕ) (st : Store m)
      → HasUniqueIds (servers_of m st)
      → Provisioned random iv remote header port st
          (provision m config host random iv remote header port st)
  unfolding provision
  provision-Provisioned random iv remote header port st unique = with_key config.credential_key refl
    where
      with_server :
          (key peer : String)
          → config.credential_key ≡ some key
          → peer_ip_from_request m config host remote header st ≡ (ok peer, st)
          → IsFromProxy remote header peer
          → (ss : List ServerConfig) → filter (at_endpoint peer port) (servers_of m st) ≡ ss
          → Provisioned random iv remote header port st
              (after (from_result (only ss) st) (provision_server m config host random iv key))
      with_server key peer has_key from proxied [] e = refused _ refl refl
      with_server key peer has_key from proxied (s ∷ t ∷ ss) e = refused _ refl refl
      with_server key peer has_key from proxied (s ∷ []) e =
          let encrypted = encrypt_game_connector_credential host.cipher iv random key in
          let change = written s encrypted st unique in
          elim (Bool-cases (store_credential m config host s encrypted st).0) [
            | inl done ↦
                provisioned key peer s has_key from proxied e (rw done refl)
                  (rw done (ground (arith, change, done)))
            | inr fails ↦
                refused provision_failed (rw fails refl) (rw fails (ground (arith, change, fails)))
          ]

      with_peer :
          (key : String)
          → config.credential_key ≡ some key
          → Provisioned random iv remote header port st (
              after
                (peer_ip_from_request m config host remote header st)
                (provision_for m config host random iv port key))
      with_peer key has_key = elim (peer_ip_cases remote header st) [
        | inr (e, fails) ↦ rw fails (refused e refl refl)
        | inl (peer, from, proxied) ↦
            rw (from, list_servers-view m st)
              (with_server key peer has_key from proxied
                (filter (at_endpoint peer port) (servers_of m st)) refl)
      ]

      with_key :
          (o : Option String)
          → config.credential_key ≡ o
          → Provisioned random iv remote header port st (
              after (or_throw o connector_not_configured st) (λ key s.
                after
                  (peer_ip_from_request m config host remote header s)
                  (provision_for m config host random iv port key)))
      with_key none e = refused _ refl refl
      with_key (some key) e = with_peer key e

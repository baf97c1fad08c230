-- ===== src/Tests/ConnectorRuns.antt =====
-- The theorems of the connector at concrete connections.
use rw_manager_backend.Base.{
  ℕ, String, ok, split_on, true, some, [], ◌∷◌, ◌≤◌, ◌<◌, ◌≡◌, refl, find?, includes, arith, lacks,
  all_chars, headed, is_lower,
}
use rw_manager_backend.Data.Value.{Value, text, num, nat, object, prop, end}
use rw_manager_backend.Store.State.{Store, memory}
use rw_manager_backend.Store.Servers.{list_servers}
use rw_manager_backend.Store.Servers.Views.{HasUniqueIds}
use rw_manager_backend.Connector.Message.{Event, event_message, is_event_name, features_events}
use rw_manager_backend.Connector.Session.{
  ConnectorSession, handle_in_session, consume_message_allowance, delivered,
}
use rw_manager_backend.Connector.Session.Rate.{allowed_of, allowed_in_span, allowed_all}
use rw_manager_backend.Connector.Session.Order.{
  deliveries, Ascending, deliveries-Ascending, delivered_event,
}
use rw_manager_backend.Connector.Credential.{
  Cipher, encrypt_game_connector_credential, decrypt_game_connector_credential,
  decrypt_game_connector_credential_with_key_ring, decrypt_from, decrypt-encrypt,
}
use rw_manager_backend.Connector.Provision.{ConnectorConfig, Host, provision, authenticate}
use rw_manager_backend.Connector.Provision.Laws.{Provisioned, provision-Provisioned}
use rw_manager_backend.Connector.Provision.Authentication.{
  Authenticated, authenticate-Authenticated,
}
use rw_manager_backend.Tests.Fixtures.{lists, alpha, beta, in_memory}

abbrev session : ConnectorSession
session = record {
  server_id = "a";
  socket = 1;
  events = "chat" ∷ [];
  rate_window_started_at = 0;
  messages_in_rate_window = 2;
  last_event_sequence = 4;
}

abbrev chat : ℕ → Value
chat n = object (
    prop "type" (text "connector.event") (
      prop "schemaVersion" (num (nat 1))
        (prop "event" (text "chat") (prop "sequence" (num (nat n)) (prop "data" (text "hi") end)))))

abbrev chat_event : ℕ → Event
chat_event n = record { name = "chat"; sequence = n; payload = text "hi" }

allowed_in_span_example : allowed_of (10 ∷ 20 ∷ 30 ∷ []) session ≤ 240
allowed_in_span_example =
    allowed_in_span 10 (10 ∷ 20 ∷ 30 ∷ []) session
      ((omega arith, omega arith), ((omega arith, omega arith), ((omega arith, omega arith), tt)))

allowed_all_example : allowed_of (10 ∷ 20 ∷ 70000 ∷ []) session ≡ 3
allowed_all_example = allowed_all (10 ∷ 20 ∷ 70000 ∷ []) session (omega arith)

deliveries-Ascending_example :
    Ascending 4 (deliveries ((10, chat 5) ∷ (11, chat 5) ∷ (12, chat 9) ∷ []) session)
deliveries-Ascending_example =
    deliveries-Ascending ((10, chat 5) ∷ (11, chat 5) ∷ (12, chat 9) ∷ []) session

chat_delivered : (handle_in_session 10 (chat 5) session).0 ≡ delivered "a" (chat_event 5)
unfolding handle_in_session consume_message_allowance event_message includes is_event_name
    features_events headed is_lower all_chars
chat_delivered = refl

delivered_event_example :
    (◌≡◌ {A = String} "a" "a")
    × (event_message (chat 5) ≡ some (chat_event 5))
    × (4 < 5)
    × (includes "chat" ("chat" ∷ []) ≡ true)
delivered_event_example = delivered_event 10 (chat 5) session "a" (chat_event 5) chat_delivered

-- A cipher that seals nothing away: the ciphertext is the credential.
abbrev plain : Cipher
plain = record {
  seal = λ secret iv credential. ("tag", credential);
  open_sealed = λ secret iv tag ciphertext. some ciphertext;
}

part_iv : lacks ":" "iv" ≡ true
unfolding lacks all_chars
part_iv = refl

part_tag : lacks ":" "tag" ≡ true
unfolding lacks all_chars
part_tag = refl

part_token : lacks ":" "token" ≡ true
unfolding lacks all_chars
part_token = refl

decrypt-encrypt_example :
    decrypt_game_connector_credential plain
      (encrypt_game_connector_credential plain "iv" "token" "key")
      "key"
    ≡ some "token"
decrypt-encrypt_example =
    decrypt-encrypt plain "iv" "token" "key" (refl, part_iv) (refl, part_tag) (refl, part_token)
      refl

abbrev connector : ConnectorConfig
connector = record {
  credential_key = some "key";
  previous_keys = [];
  trusted_proxy_ips = "10.0.0.1" ∷ [];
}

abbrev host : Host
host = record { cipher = plain; is_ip = λ s. true; utf16_length = λ s. 5 }

unique_ids : HasUniqueIds (alpha ∷ beta ∷ [])
unfolding find?
unique_ids = (refl, (refl, tt))

provision-Provisioned_example :
    Provisioned lists connector host "token" "iv"
      (some "10.0.0.1")
      (some "10.0.0.7")
      4256
      in_memory
      (provision lists connector host "token" "iv"
        (some "10.0.0.1")
        (some "10.0.0.7")
        4256
        in_memory)
provision-Provisioned_example =
    provision-Provisioned lists connector host "token" "iv" (some "10.0.0.1") (some "10.0.0.7") 4256
      in_memory unique_ids

abbrev sealed : Store lists
sealed = memory (record alpha { connector_credential = some "v1:iv:tag:token" } ∷ beta ∷ []) []

authenticated : (authenticate lists connector host "iv" "token" sealed).0 ≡ ok "a"
unfolding authenticate list_servers decrypt_game_connector_credential_with_key_ring decrypt_from
    decrypt_game_connector_credential split_on
authenticated = refl

authenticate-Authenticated_example :
    Authenticated lists connector host "iv" "token" sealed
      (authenticate lists connector host "iv" "token" sealed)
authenticate-Authenticated_example =
    authenticate-Authenticated lists connector host "iv" "token" sealed

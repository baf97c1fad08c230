-- ===== src/Connector/Provision/Authentication.antt =====
-- Which server a credential authenticates.
use rw_manager_backend.Base.{
  ℕ, String, false, not, Option, none, some, List, [], ◌∷◌, ◌++◌, All, ltb, str_eq, eq_iff, eq_refl,
  Result, ok, err, Option-cases, Bool-cases, ◌⊎◌, inl, inr, ◌↔◌, ◌≡◌, ◌≤◌, ◌<◌, refl, sym, ap, ◌∙◌,
  unauthorized, arith, after, or_throw, Run, guard, if◌then◌else◌,
}
use mathlib.Core.Option.{some_inj}
use rw_manager_backend.Data.Server.{ServerConfig}
use rw_manager_backend.Store.State.{MongoCollections, Store, servers_of}
use rw_manager_backend.Store.Servers.{list_servers}
use rw_manager_backend.Store.Servers.Views.{list_servers-view}
use rw_manager_backend.Store.Credentials.{replace_server_connector_credential_if_current}
use rw_manager_backend.Connector.Credential.{
  encrypt_game_connector_credential, decrypt_game_connector_credential_with_key_ring,
}
use rw_manager_backend.Connector.Credential.KeyRing.{
  Yields, decrypt_from-Yields, Yields-decrypt_from,
}
use rw_manager_backend.Connector.Provision.{
  ConnectorConfig, Host, authenticate, authenticate_in, accepts, matches, decrypted,
}

module _ (m : MongoCollections) (config : ConnectorConfig) (host : Host) where
  -- A server holds a stored text from which the current key, which has number 0, or the previous
  -- keys after it, yield the credential.
  abbrev pub IsAuthentic : (key credential : String) → ServerConfig → (stored : String) → ℕ → Type 0
  IsAuthentic key credential server stored n =
      (server.connector_credential ≡ some stored)
      × (str_eq stored "" ≡ false)
      × Yields host.cipher stored credential 0 (key ∷ config.previous_keys) n

  matched :
      (credential : String) (o : Option (String × ℕ)) (n : ℕ)
      → matches m config host credential o ≡ some n
      → o ≡ some (credential, n)
  matched credential none n h = absurd (cc h)
  matched credential (some (c, i)) n h = elim (Bool-cases (str_eq c credential)) [
    | inl same ↦
        let at : i ≡ n = (some_inj).0 (rw same at h) in rw ((eq_iff c credential).0 same, at) refl
    | inr other ↦ absurd (cc (rw other at h))
  ]

  decrypted-IsAuthentic :
      (key credential : String) (server : ServerConfig) (o : Option String) (n : ℕ)
      → server.connector_credential ≡ o
      → decrypted m config host key o ≡ some (credential, n)
      → (stored : String) × IsAuthentic key credential server stored n
  unfolding decrypt_game_connector_credential_with_key_ring
  decrypted-IsAuthentic key credential server none n has h = absurd (cc h)
  decrypted-IsAuthentic key credential server (some stored) n has h =
      elim (Bool-cases (str_eq stored "")) [
        | inl blank ↦ absurd (cc (rw blank at h))
        | inr full ↦ (
          stored,
          (
            has,
            full,
            decrypt_from-Yields host.cipher stored credential (key ∷ config.previous_keys) 0 n
                (rw full at h),
          ),
        )
      ]

  -- The test of a server tells exactly whether the credential is authentic, and by which key.
  accepts-IsAuthentic :
      (key credential : String) (server : ServerConfig) (n : ℕ)
      → (accepts m config host key credential server ≡ some n)
        ↔ ((stored : String) × IsAuthentic key credential server stored n)
  unfolding decrypt_game_connector_credential_with_key_ring
  accepts-IsAuthentic key credential server n = (
    (λ h.
        decrypted-IsAuthentic key credential server server.connector_credential n refl
          (matched credential (decrypted m config host key server.connector_credential) n h)),
    (λ (stored, (has, full, y)).
        rw
          (
            has,
            full,
            Yields-decrypt_from host.cipher stored credential (key ∷ config.previous_keys) 0 n y,
            eq_refl credential,
          )
          refl),
  )

  -- What the search of a list of servers comes to.
  pub data Searched (iv key credential : String) (st : Store m) (ss : List ServerConfig)
      (r : Result String × Store m) : Type 0 where
    nobody :
        All (λ s. (stored : String) (n : ℕ) → ¬ IsAuthentic key credential s stored n) ss
        → r ≡ (err unauthorized, st)
        → Searched iv key credential st ss r
    somebody :
        (before : List ServerConfig) (s : ServerConfig) (behind : List ServerConfig)
        (stored : String) (n : ℕ)
        → ss ≡ before ++ s ∷ behind
        → All (λ t. (text : String) (i : ℕ) → ¬ IsAuthentic key credential t text i) before
        → IsAuthentic key credential s stored n
        → r ≡ (
          ok s.id,
          (if ltb 0 n
              then (replace_server_connector_credential_if_current m s.id stored
                  (encrypt_game_connector_credential host.cipher iv credential key)
                  st).1
              else st),
        )
        → Searched iv key credential st ss r

  past :
      (iv key credential : String) (st : Store m) (s : ServerConfig) (ss : List ServerConfig)
      (r : Result String × Store m)
      → ((stored : String) (n : ℕ) → ¬ IsAuthentic key credential s stored n)
      → Searched iv key credential st ss r
      → Searched iv key credential st (s ∷ ss) r
  past iv key credential st s ss r other (nobody others is) = nobody (other, others) is
  past iv key credential st s ss r other (somebody before t behind stored n at others found is) =
      somebody (s ∷ before) t behind stored n (ap (λ ts. s ∷ ts) at) (other, others) found is

  authenticate_in-Searched :
      (iv key credential : String) (st : Store m) (ss : List ServerConfig)
      → Searched iv key credential st ss (authenticate_in m config host iv key credential ss st)
  unfolding authenticate_in
  authenticate_in-Searched iv key credential st [] = nobody tt refl
  authenticate_in-Searched iv key credential st (s ∷ ss) =
      elim (Option-cases (accepts m config host key credential s)) [
        | inl e ↦
            rw (e, authenticate_in)
              (past iv key credential st s ss
                (authenticate_in m config host iv key credential ss st)
                (λ stored n is.
                  absurd (cc (sym e ∙ (accepts-IsAuthentic key credential s n).1 (stored, is))))
                (authenticate_in-Searched iv key credential st ss))
        | inr (n, e) ↦
            let (stored, is) = (accepts-IsAuthentic key credential s n).0 e in
            somebody [] s ss stored n refl tt is (rw (e, authenticate_in, is.0) refl)
      ]

  -- What a request to authenticate comes to.
  pub data Authenticated (iv credential : String) (st : Store m) (r : Result String × Store m)
      : Type 0 where
    locked :
        (config.credential_key ≡ none) ⊎ (256 < host.utf16_length credential)
        → r ≡ (err unauthorized, st)
        → Authenticated iv credential st r
    searched :
        (key : String)
        → config.credential_key ≡ some key
        → host.utf16_length credential ≤ 256
        → Searched iv key credential st (servers_of m st) r
        → Authenticated iv credential st r

  checked : (iv key credential : String) → Run (Store m) String
  checked iv key credential s =
      after (guard (not (ltb 256 (host.utf16_length credential))) unauthorized s)
        (λ _ t. authenticate_in m config host iv key credential (list_servers m t) t)

  with_key-Authenticated :
      (iv credential : String) (st : Store m) (o : Option String)
      → config.credential_key ≡ o
      → Authenticated iv credential st
          (after (or_throw o unauthorized st) (λ key. checked iv key credential))
  unfolding checked
  with_key-Authenticated iv credential st none has = locked (inl has) refl
  with_key-Authenticated iv credential st (some key) has =
      elim (Bool-cases (ltb 256 (host.utf16_length credential))) [
        | inl long ↦ locked (inr (ground arith)) (rw long refl)
        | inr short ↦ searched key has (ground arith) (
            rw (short, list_servers-view m st)
              (authenticate_in-Searched iv key credential st (servers_of m st)))
      ]

  -- Without a current key, or with a credential of more than 256 characters, an authentication is
  -- refused. Else it answers the first stored server whose stored text yields the credential, by
  -- the first of the current and the previous keys that decrypts that text to something, and is
  -- refused exactly where there is no such server. Where the key is a previous one, the stored text is
  -- replaced by the credential under the current key if it is still the same; nothing else changes.
  pub authenticate-Authenticated :
      (iv credential : String) (st : Store m)
      → Authenticated iv credential st (authenticate m config host iv credential st)
  unfolding authenticate checked
  authenticate-Authenticated iv credential st =
      with_key-Authenticated iv credential st config.credential_key refl

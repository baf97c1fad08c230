-- ===== src/Connector/Credential/KeyRing.antt =====
-- Which key of a ring yields a credential.
use mathlib.Core.Option.{some_inj}
use rw_manager_backend.Base.{
  ℕ, String, true, false, Option, none, some, List, [], ◌∷◌, ◌+◌, str_eq, Bool-cases, ◌⊎◌, inl, inr,
  ◌≡◌, refl, sym, ap, ◌∙◌,
}
use rw_manager_backend.Connector.Credential.{
  Cipher, found_key, decrypt_game_connector_credential, decrypt_from,
}

module _ (cipher : Cipher) (stored credential : String) where
  -- The key decrypts the stored text to the credential, which is not empty.
  abbrev pub Opens : String → Type 0
  Opens secret =
      (decrypt_game_connector_credential cipher stored secret ≡ some credential)
      × (str_eq credential "" ≡ false)

  -- The key decrypts the stored text to nothing, or to an empty text.
  abbrev pub Fails : String → Type 0
  Fails secret =
      (d : String)
      → decrypt_game_connector_credential cipher stored secret ≡ some d
      → str_eq d "" ≡ true

  -- The key of number `n` yields the credential, and those before it yield nothing; the keys are
  -- numbered from `k` on.
  abbrev pub Yields : ℕ → List String → ℕ → Type 0
  Yields k [] n = ⊥
  Yields k (secret ∷ secrets) n =
      ((n ≡ k) × Opens secret) ⊎ (Fails secret × Yields (k + 1) secrets n)

  -- The two ways in which a key and those after it find the credential.
  of_found :
      (o : Option String) (rest : Option (String × ℕ)) (k n : ℕ)
      → found_key cipher o k rest ≡ some (credential, n)
      → ((n ≡ k) × (o ≡ some credential) × (str_eq credential "" ≡ false))
        ⊎ (((d : String) → o ≡ some d → str_eq d "" ≡ true) × (rest ≡ some (credential, n)))
  of_found none rest k n h = inr ((λ d is. absurd (cc is)), h)
  of_found (some d) rest k n h = elim (Bool-cases (str_eq d "")) [
    | inl blank ↦ inr ((λ d' is. rw (← (some_inj).0 is) blank), (rw blank at h))
    | inr full ↦
        let same : (d, k) ≡ (credential, n) = (some_inj).0 (rw full at h) in
        let text : d ≡ credential = ap (λ p. p.0) same in
        inl (sym (ap (λ p. p.1) same), ap (λ t. some t) text, rw (← text) full)
  ]

  pub decrypt_from-Yields :
      (secrets : List String) (k n : ℕ)
      → decrypt_from cipher stored k secrets ≡ some (credential, n)
      → Yields k secrets n
  unfolding decrypt_from
  decrypt_from-Yields [] k n e = absurd (cc e)
  decrypt_from-Yields (secret ∷ secrets) k n e =
      elim (of_found (decrypt_game_connector_credential cipher stored secret)
        (decrypt_from cipher stored (k + 1) secrets) k n e) [
          | inl (at, opens, text) ↦ inl (at, (opens, text))
          | inr (fails, later) ↦ inr (fails, decrypt_from-Yields secrets (k + 1) n later)
        ]

  found_fails :
      (o : Option String) (rest : Option (String × ℕ)) (k : ℕ)
      → ((d : String) → o ≡ some d → str_eq d "" ≡ true)
      → found_key cipher o k rest ≡ rest
  found_fails none rest k fails = refl
  found_fails (some d) rest k fails = rw (fails d refl) refl

  pub Yields-decrypt_from :
      (secrets : List String) (k n : ℕ)
      → Yields k secrets n
      → decrypt_from cipher stored k secrets ≡ some (credential, n)
  unfolding decrypt_from
  Yields-decrypt_from [] k n y = absurd y
  Yields-decrypt_from (secret ∷ secrets) k n (inl (at, opens)) = rw (opens.0, opens.1, at) refl
  Yields-decrypt_from (secret ∷ secrets) k n (inr (fails, y)) =
      found_fails (decrypt_game_connector_credential cipher stored secret)
        (decrypt_from cipher stored (k + 1) secrets) k fails
      ∙ Yields-decrypt_from secrets (k + 1) n y

-- ===== src/Connector/Credential.antt =====
-- src/service/game-connector-credential-service.ts: how a connector credential is encrypted. AES-256-GCM,
-- SHA-256 and base64url are node:crypto and Buffer: `seal secret iv credential` yields the tag and the
-- ciphertext, and `open secret iv tag ciphertext` the credential, or none where decipher.final() throws. All
-- stand here in base64url.
pub mod KeyRing
use Prim.Native.String
use rw_manager_backend.Base.{
  ℕ, String, true, false, not, ◌||◌, Option, none, some, List, [], ◌∷◌, ◌+◌, str_eq, all_chars,
  split_on, lacks, split_on-append, split_on-lacks, if◌then◌else◌, ◌≡◌, refl, ap, ◌∙◌,
}

pub record Cipher : Type 0 where
  pub seal : (secret iv credential : String) → String × String
  pub open_sealed : (secret iv tag ciphertext : String) → Option String

module _ (cipher : Cipher) where
  unfoldable pub encrypt_game_connector_credential : (iv credential secret : String) → String
  encrypt_game_connector_credential iv credential secret =
      let (tag, ciphertext) = cipher.seal secret iv credential in
      String.◌++◌ "v1" (
        String.◌∷◌ ":"
          (String.◌++◌ iv (String.◌∷◌ ":" (String.◌++◌ tag (String.◌∷◌ ":" ciphertext)))))

  open_parts : String → List String → Option String
  open_parts secret (version ∷ iv ∷ tag ∷ ciphertext ∷ rest) =
      if not (str_eq version "v1") || str_eq iv "" || str_eq tag "" || str_eq ciphertext ""
      then none
      else cipher.open_sealed secret iv tag ciphertext
  open_parts secret parts = none

  unfoldable pub decrypt_game_connector_credential : (value secret : String) → Option String
  unfolding open_parts
  decrypt_game_connector_credential value secret = open_parts secret (split_on ":" value)

  -- The first key that yields a credential, and its place.
  abbrev found_key : Option String → ℕ → Option (String × ℕ) → Option (String × ℕ)
  found_key none n rest = rest
  found_key (some c) n rest = if str_eq c "" then rest else some (c, n)

  unfoldable pub decrypt_from : String → ℕ → List String → Option (String × ℕ)
  decrypt_from value n [] = none
  decrypt_from value n (secret ∷ secrets) =
      found_key (decrypt_game_connector_credential value secret) n
        (decrypt_from value (n + 1) secrets)

  unfoldable pub decrypt_game_connector_credential_with_key_ring :
      String → List String → Option (String × ℕ)
  decrypt_game_connector_credential_with_key_ring value secrets = decrypt_from value 0 secrets

-- What a part of base64url looks like: not empty, with no colon.
abbrev pub IsPart : String → Type 0
IsPart s = (str_eq s "" ≡ false) × (lacks ":" s ≡ true)

-- What is encrypted with a key decrypts with it to the same credential, where the cipher opens what
-- it sealed, and the initialization vector, the tag and the ciphertext are not empty and have no colon.
pub decrypt-encrypt :
    (cipher : Cipher) (iv credential secret : String)
    → IsPart iv
    → IsPart (cipher.seal secret iv credential).0
    → IsPart (cipher.seal secret iv credential).1
    → cipher.open_sealed secret iv
        (cipher.seal secret iv credential).0
        (cipher.seal secret iv credential).1
      ≡ some credential
    → decrypt_game_connector_credential cipher
        (encrypt_game_connector_credential cipher iv credential secret)
        secret
      ≡ some credential
unfolding decrypt_game_connector_credential encrypt_game_connector_credential open_parts lacks
    all_chars
decrypt-encrypt cipher iv credential secret (iv_some, iv_part) (tag_some, tag_part)
      (text_some, text_part) opened =
    let (tag, ciphertext) = cipher.seal secret iv credential in
    let parts =
      split_on-append ":" "v1" _ refl
      ∙ ap (λ ps. "v1" ∷ ps)
          (split_on-append ":" iv _ iv_part
            ∙ ap (λ ps. iv ∷ ps)
                (split_on-append ":" tag _ tag_part
                  ∙ ap (λ ps. tag ∷ ps) (split_on-lacks ":" ciphertext text_part))) in
    ap (open_parts cipher secret) parts ∙ rw (iv_some, tag_some, text_some) opened

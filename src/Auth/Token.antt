-- ===== src/Auth/Token.antt =====
-- src/service/auth-token-service.ts: the signed token of a user and its check. JSON, base64 and HMAC-SHA256 are
-- of the language and of node:crypto.
use Prim.Native.Char.{Char, code}
use Prim.Native.String
use mathlib.Core.Option
use rw_manager_backend.Base.{
  ℕ, String, Bool, true, false, not, ◌&&◌, ◌||◌, Option, none, some, List, ◌∷◌, ◌+◌, ◌*◌, ◌/◌, leb,
  ltb, str_eq, split_on, lacks, split_on-append, split_on-lacks, if◌then◌else◌, ◌≡◌, ap, ◌∙◌, arith,
  eq_refl, all_chars, is_space, is_upper, nat_eq, trim_start,
}
use rw_manager_backend.Data.User.{PrivateUser}
use rw_manager_backend.Store.State.{MongoCollections, Store}
use rw_manager_backend.Store.Users.{find_user_by_id, to_private_user}

pub record JwtPayload : Type 0 where
  pub sub : String
  pub iat : ℕ
  pub exp : ℕ

-- The encodings, in base64url: `header_part` of { alg: 'HS256', typ: 'JWT' }, `read_header` whether a part
-- decodes to such a header, `payload_part` and `read_payload` of a payload, and the signature of
-- `header.payload` under the session secret. A payload that is read has a `sub` and a number `exp`.
pub record Encoding : Type 0 where
  pub header_part : String
  pub read_header : String → Bool
  pub payload_part : JwtPayload → String
  pub read_payload : String → Option JwtPayload
  pub sign : String → String

abbrev pub join_dot : String → String → String
join_dot a b = String.◌++◌ a (String.◌∷◌ "." b)

abbrev pub week_seconds : ℕ
week_seconds = 60 * 60 * 24 * 7

-- The character c of a pattern, in either case.
abbrev same_letter : Char → Char → Bool
same_letter c d = nat_eq (code c) (code d) || (is_upper d && nat_eq (code c) (code d + 32))

unfoldable pub strip_word : String → String → Option String
strip_word String.[] s = some s
strip_word (String.◌∷◌ c p) String.[] = none
strip_word (String.◌∷◌ c p) (String.◌∷◌ d s) =
    let rest = strip_word p s in if same_letter c d then rest else none

abbrev pub is_line_end : Char → Bool
is_line_end c =
    nat_eq (code c) 10 || nat_eq (code c) 13 || nat_eq (code c) 0x2028 || nat_eq (code c) 0x2029

abbrev pub line? : String → Option String
line? s = if str_eq s "" || not (all_chars (λ c. not (is_line_end c)) s) then none else some s

after_space : String → Option String
after_space String.[] = none
after_space (String.◌∷◌ c s) = if is_space c then line? (trim_start s) else none

-- /^Bearer\s+(.+)$/i, with the capture. Where only white space follows, the program captures white
-- space, which is no token either.
unfoldable pub bearer_token : String → Option String
unfolding strip_word after_space
bearer_token authorization = Option.bind (strip_word "bearer" authorization) after_space

module _ (encoding : Encoding) where
  abbrev pub sign_token_part : String → String → String
  sign_token_part header payload = encoding.sign (join_dot header payload)

  abbrev pub payload_of : String → ℕ → JwtPayload
  payload_of user_id now_ms = record {
    sub = user_id;
    iat = now_ms / 1000;
    exp = now_ms / 1000 + week_seconds;
  }

  unfoldable pub create_auth_token : String → ℕ → String
  create_auth_token user_id now_ms =
      let payload = encoding.payload_part (payload_of user_id now_ms) in
      join_dot encoding.header_part
        (join_dot payload (sign_token_part encoding.header_part payload))

  -- The user id that a payload names, where it has not expired.
  abbrev unexpired : ℕ → Option JwtPayload → Option String
  unexpired now_ms none = none
  unexpired now_ms (some p) =
      if str_eq p.sub "" then none else if leb p.exp (now_ms / 1000) then none else some p.sub

  verify_parts : ℕ → List String → Option String
  verify_parts now_ms (header ∷ payload ∷ signature ∷ rest) =
      if str_eq header "" || str_eq payload "" || str_eq signature ""
      then none
      else if str_eq signature (sign_token_part header payload) && encoding.read_header header
      then unexpired now_ms (encoding.read_payload payload)
      else none
  verify_parts now_ms parts = none

  -- The user id of the token after `Bearer `.
  unfoldable pub verified_subject : ℕ → String → Option String
  unfolding verify_parts
  verified_subject now_ms token = verify_parts now_ms (split_on "." token)

  unfoldable pub get_user_from_bearer_token :
      (m : MongoCollections) → ℕ → Option String → Store m → Option PrivateUser
  get_user_from_bearer_token m now_ms authorization st = Option.map to_private_user (
      Option.bind (Option.bind (Option.bind authorization bearer_token) (verified_subject now_ms))
        (λ id. find_user_by_id m id st))

  -- A part that stands in a token: not empty, with no dot.
  abbrev pub IsTokenPart : String → Type 0
  IsTokenPart s = (str_eq s "" ≡ false) × (lacks "." s ≡ true)

  -- A token that was issued for a user id names that user until a week later, by the second, and no
  -- one from then on. The id is not empty, and what the encodings write they read back, in parts
  -- that are not empty and have no dot.
  pub verified_subject-create :
      (user_id : String) (issued now : ℕ)
      → str_eq user_id "" ≡ false
      → let payload = encoding.payload_part (payload_of user_id issued) in
        IsTokenPart encoding.header_part
        → IsTokenPart payload
        → IsTokenPart (sign_token_part encoding.header_part payload)
        → encoding.read_header encoding.header_part ≡ true
        → encoding.read_payload payload ≡ some (payload_of user_id issued)
        → verified_subject now (create_auth_token user_id issued)
          ≡ (if ltb (now / 1000) (issued / 1000 + week_seconds) then some user_id else none)
  unfolding verified_subject create_auth_token verify_parts
  verified_subject-create user_id issued now named (h_some, h_part) (p_some, p_part)
        (s_some, s_part) reads decodes =
      let payload = encoding.payload_part (payload_of user_id issued) in
      let signature = sign_token_part encoding.header_part payload in
      let parts =
        split_on-append "." encoding.header_part _ h_part
        ∙ ap (λ ps. encoding.header_part ∷ ps)
            (split_on-append "." payload _ p_part
              ∙ ap (λ ps. payload ∷ ps) (split_on-lacks "." signature s_part)) in
      ap (verify_parts now) parts
      ∙ rw (h_some, p_some, s_some, eq_refl signature, reads, decodes, named) (ground arith)

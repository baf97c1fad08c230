-- ===== src/Native/AdminInfo.antt =====
-- service/native-admin-utils-info.ts: what the admin tools of a game server tell.
use Prim.Native.Char.{code}
use Prim.Native.String
use mathlib.Core.Path.{subst}
use rw_manager_backend.Base.{
  ℕ, String, Bool, true, ◌&&◌, ◌+◌, ◌-◌, ◌*◌, Option, none, some, List, [], ◌∷◌, all, leb, str_eq,
  trim, is_digit, all_chars, includes, unique, if◌then◌else◌, ◌≡◌, refl, arith, ap, sym, ◌∙◌,
  Bool-cases, inl, inr, IsDistinct, unique-IsDistinct, includes-unique, eq_refl, eq_iff,
}
use rw_manager_backend.Data.Value.{is_one, Value, get, text?, array?}

pub record NativeAdminUtilsInfo : Type 0 where
  pub map_url : String
  pub admin_uid : String
  pub admins : List String

abbrev pub max_unsigned_long : ℕ
max_unsigned_long = 18446744073709551615

-- BigInt(digits)
value_from : ℕ → String → ℕ
value_from n String.[] = n
value_from n (String.◌∷◌ c s) = value_from (n * 10 + (code c - b'0')) s

-- /^\d{1,20}$/, and at most the largest unsigned long
unfoldable pub is_uid : String → Bool
unfolding value_from
is_uid s =
    all_chars is_digit s
    && leb 1 (String.count s)
    && leb (String.count s) 20
    && leb (value_from 0 s) max_unsigned_long

abbrev trimmed_uid : Option String → Option String
trimmed_uid none = none
trimmed_uid (some s) = if is_uid (trim s) then some (trim s) else none

abbrev pub uid : Value → Option String
uid v = trimmed_uid (text? v)

abbrev pub cons_uid : Option String → List String → List String
cons_uid none rest = rest
cons_uid (some u) rest = u ∷ rest

abbrev pub uids_of : List Value → List String
uids_of [] = []
uids_of (v ∷ vs) = cons_uid (uid v) (uids_of vs)

abbrev info_of : Option String → Option String → Option (List Value) → Option NativeAdminUtilsInfo
info_of (some url) (some admin) (some admins) =
    some (record { map_url = url; admin_uid = admin; admins = unique (admin ∷ uids_of admins) })
info_of none admin admins = none
info_of (some url) none admins = none
info_of (some url) (some admin) none = none

-- `http_href s` is the text of `new URL(s)` where it is one of http or https, and otherwise none. It
-- is not empty.
module _ (http_href : String → Option String) where
  abbrev trimmed_url : Option String → Option String
  trimmed_url none = none
  trimmed_url (some s) = if str_eq (trim s) "" then none else http_href (trim s)

  abbrev http_url : Value → Option String
  http_url v = trimmed_url (text? v)

  unfoldable pub parse_native_admin_utils_info : Value → Option NativeAdminUtilsInfo
  parse_native_admin_utils_info payload =
      if is_one (get "schemaVersion" payload)
      then info_of (http_url (get "mapUrl" payload)) (uid (get "adminUid" payload))
          (array? (get "admins" payload))
      else none

cons_uid-IsUid :
    (o : Option String) (rest : List String)
    → all is_uid rest ≡ true
    → all is_uid (cons_uid (trimmed_uid o) rest) ≡ true
unfolding all
cons_uid-IsUid none rest h = h
cons_uid-IsUid (some s) rest h = ground (arith, h)

uids_of-IsUid : (vs : List Value) → all is_uid (uids_of vs) ≡ true
unfolding all
uids_of-IsUid [] = refl
uids_of-IsUid (v ∷ vs) = cons_uid-IsUid (text? v) (uids_of vs) (uids_of-IsUid vs)

all-includes :
    (x : String) (ss : List String) → all is_uid ss ≡ true → includes x ss ≡ true → is_uid x ≡ true
unfolding all includes
all-includes x [] h found = absurd (cc found)
all-includes x (s ∷ ss) h found =
    ground (arith, h, found, eq_iff s x, ap is_uid {x = s} {y = x}, all-includes x ss)

-- What the names of the administrators are.
pub record AreAdmins (info : NativeAdminUtilsInfo) : Type 0 where
  pub admin_IsUid : is_uid info.admin_uid ≡ true
  pub includes_admin : includes info.admin_uid info.admins ≡ true
  pub each_IsUid : (x : String) → includes x info.admins ≡ true → is_uid x ≡ true
  pub distinct : IsDistinct info.admins

info_of-AreAdmins :
    (url admin : Option String) (admins : Option (List Value)) (info : NativeAdminUtilsInfo)
    → ((s : String) → admin ≡ some s → is_uid s ≡ true)
    → info_of url admin admins ≡ some info
    → AreAdmins info
unfolding all includes
info_of-AreAdmins none admin admins info checked h = absurd (cc h)
info_of-AreAdmins (some url) none admins info checked h = absurd (cc h)
info_of-AreAdmins (some url) (some admin) none info checked h = absurd (cc h)
info_of-AreAdmins (some url) (some admin) (some admins) info checked h =
    let all_uids = admin ∷ uids_of admins in
    let made : NativeAdminUtilsInfo = record {
      map_url = url;
      admin_uid = admin;
      admins = unique all_uids;
    } in
    let same : made ≡ info = cc h in
    subst AreAdmins same (record {
      admin_IsUid = checked admin refl;
      includes_admin = includes-unique all_uids admin ∙ ground (arith, eq_refl admin);
      each_IsUid = λ x found.
          all-includes x all_uids (ground (arith, checked admin refl, uids_of-IsUid admins))
            (sym (includes-unique all_uids x) ∙ found);
      distinct = unique-IsDistinct all_uids;
    })

trimmed_uid-IsUid : (o : Option String) (s : String) → trimmed_uid o ≡ some s → is_uid s ≡ true
trimmed_uid-IsUid none s h = absurd (cc h)
trimmed_uid-IsUid (some t) s h = elim (Bool-cases (is_uid (trim t))) [
  | inl e ↦
      let same : some (trim t) ≡ some s = sym (ap (λ b. if b then some (trim t) else none) e) ∙ h in
      subst (λ u. is_uid u ≡ true) (some_inj same) e
  | inr e ↦
      let same : none ≡ some s = sym (ap (λ b. if b then some (trim t) else none) e) ∙ h in
      absurd (cc same)
]
  where
    some_inj : {a b : String} → some a ≡ some b → a ≡ b
    some_inj h = cc h

-- Where the answer of the admin tools is read, its administrators are distinct, each is an unsigned
-- long of at most 20 digits, and the administrator that it names first is one of them.
pub parse-AreAdmins :
    (http_href : String → Option String) (payload : Value) (info : NativeAdminUtilsInfo)
    → parse_native_admin_utils_info http_href payload ≡ some info
    → AreAdmins info
unfolding parse_native_admin_utils_info
parse-AreAdmins http_href payload info h =
    elim (Bool-cases (is_one (get "schemaVersion" payload))) [
      | inl e ↦ info_of-AreAdmins _ _ _ info (trimmed_uid-IsUid (text? (get "adminUid" payload))) (
          sym (
            ap
              (λ b.
                if b
                then info_of (http_url http_href (get "mapUrl" payload))
                    (uid (get "adminUid" payload)) (array? (get "admins" payload))
                else none)
              e)
          ∙ h)
      | inr e ↦ absurd (
          cc (
            sym (
              ap
                (λ b.
                  if b
                  then info_of (http_url http_href (get "mapUrl" payload))
                      (uid (get "adminUid" payload)) (array? (get "admins" payload))
                  else none)
                e)
            ∙ h))
    ]

-- ===== src/Storage/Access.antt =====
-- Who may see and change a server, and the checks of a server's backend.
use rw_manager_backend.Base.{
  ℕ, String, Bool, true, false, not, ◌&&◌, ◌||◌, ◌-◌, ◌*◌, Option, none, some, List, [], ◌∷◌, max,
  opt_eq, str_eq, truthy, leb, ltb, includes, get_or, trim, if◌then◌else◌, Run, throw, return,
  guard, ◌>>◌, failed_verify_backend_admins, not_backend_admin, query_url_name_required,
  failed_verify_backend_config, query_url_name_mismatch, server_not_found,
}
use rw_manager_backend.Data.Value.{Value, get, text?, array?}
use rw_manager_backend.Data.Server.{ServerConfig, Stamp, stamp_ms, Status, online, offline, unknown}
use rw_manager_backend.Config.{AppConfig}

-- What Node's `URL` and `fetch` do for the service. `fetch_json url` is the body of a response that
-- is `ok` and parses as JSON; `none` stands for every failure.
pub record Web : Type 0 where
  pub is_url : String → Bool
  pub resolve : (path base : String) → Option String
  pub fetch_json : String → Option Value

-- interfaces/storage-request-context.ts
pub record Context : Type 0 where
  pub user_id : Option String
  pub user_steam_id : Option String

-- Array.isArray(admins) && every entry is a string
texts? : List Value → Option (List String)
texts? [] = some []
texts? (v ∷ vs) = elim (text? v) [
  | none ↦ none
  | some s ↦ elim (texts? vs) [ none ↦ none | some rest ↦ some (s ∷ rest) ]
]

-- The string of a value, without the space around it, unless it is empty.
abbrev trimmed_text : Value → Option String
trimmed_text v = elim (text? v) [
  | none ↦ none
  | some s ↦ if str_eq (trim s) "" then none else some (trim s)
]

unfoldable pub normalize_backend_url : Option String → Option String
normalize_backend_url none = none
normalize_backend_url (some s) = if str_eq (trim s) "" then none else some (trim s)

-- !!superAdminId && steamId === superAdminId
unfoldable pub is_super_admin : AppConfig → Option String → Bool
is_super_admin config steam =
    if str_eq config.super_admin_id "" then false else opt_eq steam (some config.super_admin_id)

abbrev date_ms : Option Stamp → ℕ
date_ms none = 0
date_ms (some s) = get_or (stamp_ms s) 0

abbrev pub seven_days_ms : ℕ
seven_days_ms = 7 * 24 * 60 * 60 * 1000

pub last_reachable : ServerConfig → ℕ
last_reachable s =
    max (max (date_ms s.last_seen) (date_ms s.last_checked)) (date_ms s.query_data_updated_at)

abbrev is_offline : Option Status → Bool
is_offline (some offline) = true
is_offline (some online) = false
is_offline (some unknown) = false
is_offline none = false

unfoldable pub is_unavailable_for_seven_days : ServerConfig → ℕ → Bool
unfolding last_reachable
is_unavailable_for_seven_days s now =
    is_offline s.status && ltb 0 (last_reachable s) && leb seven_days_ms (now - last_reachable s)

unfoldable pub can_list_server : AppConfig → ServerConfig → Context → ℕ → Bool
unfolding is_super_admin is_unavailable_for_seven_days
can_list_server config s context now =
    if is_super_admin config context.user_steam_id
    then true
    else if get_or s.blocked false
    then false
    else not (is_unavailable_for_seven_days s now)

-- new URL succeeds and the text has the URL format of typia: one test of `web`.
unfoldable pub normalized_query_url : Web → String → Option String
normalized_query_url web value =
    if str_eq (trim value) ""
    then none
    else if web.is_url (trim value)
    then some (trim value)
    else none

unfoldable pub fetch_backend_admins : Web → String → Option (List String)
unfolding texts?
fetch_backend_admins web backend_url = elim (web.resolve "api/data/server/admins" backend_url) [
  | none ↦ none
  | some url ↦ elim (web.fetch_json url) [
    | none ↦ none
    | some payload ↦ elim (array? (get "admins" payload)) [ none ↦ none | some vs ↦ texts? vs ]
  ]
]

unfoldable pub can_admin_server : AppConfig → Web → Option String → Option String → Bool
unfolding fetch_backend_admins
can_admin_server config web (some backend_url) (some steam) =
    if not config.enable_auth || str_eq backend_url "" || str_eq steam ""
    then false
    else elim (fetch_backend_admins web backend_url) [
      | none ↦ false
      | some admins ↦ includes steam admins
    ]
can_admin_server config web _ _ = false

unfoldable pub fetch_query_url_name : Web → String → Option String
fetch_query_url_name web query_url =
    if str_eq (trim query_url) "" then none else elim (web.fetch_json query_url) [
      | none ↦ none
      | some payload ↦ trimmed_text (get "name" payload)
    ]

pub data NameMatch : Type 0 where
  same_name other_name failed : NameMatch

unfoldable pub verify_server_name_match : Web → (backend_url query_url_name : String) → NameMatch
verify_server_name_match web backend_url name =
    elim (web.resolve "api/data/server/name" backend_url) [
      | none ↦ failed
      | some url ↦ elim (web.fetch_json url) [
        | none ↦ failed
        | some payload ↦ elim (text? (get "name" payload)) [
          | none ↦ failed
          | some found ↦ if str_eq found name then same_name else other_name
        ]
      ]
    ]

abbrev pub check_match : {S : Type 0} → NameMatch → Run S (Unit {0})
check_match same_name = return tt
check_match other_name = throw query_url_name_mismatch
check_match failed = throw failed_verify_backend_config

-- An empty list of admins lets everybody through.
abbrev pub allows : List String → Option String → Bool
allows [] steam = true
allows (a ∷ rest) none = false
allows (a ∷ rest) (some s) = if str_eq s "" then false else includes s (a ∷ rest)

unfoldable pub check_admin :
    {S : Type 0}
    → Web
    → Option String
    → Option String
    → Option (List String)
    → String
    → Run S (Unit {0})
check_admin web steam name none backend_url = throw failed_verify_backend_admins
check_admin web steam name (some admins) backend_url = do
  guard (allows admins steam) not_backend_admin
  guard (truthy name) query_url_name_required
  check_match (verify_server_name_match web backend_url (get_or name ""))

unfoldable pub check_backend_for_write :
    {S : Type 0} → AppConfig → Web → (backend_url steam name : Option String) → Run S (Unit {0})
unfolding check_admin fetch_backend_admins verify_server_name_match
check_backend_for_write config web none steam name = return tt
check_backend_for_write config web (some backend_url) steam name =
    if not config.enable_auth || str_eq backend_url ""
    then return tt
    else check_admin web steam name (fetch_backend_admins web backend_url) backend_url

unfoldable pub is_writer : AppConfig → Web → ServerConfig → Context → Bool
unfolding can_admin_server
is_writer config web current context =
    not config.enable_auth
    || opt_eq current.user_id context.user_id
    || can_admin_server config web current.backend_url context.user_steam_id

unfoldable pub assert_server_write_access :
    {S : Type 0} → AppConfig → Web → ServerConfig → Context → Run S (Unit {0})
unfolding is_writer
assert_server_write_access config web current context =
    guard (is_writer config web current context) server_not_found

-- ===== src/Tests/Fixtures.antt =====
-- A collection that is a list, with two servers and two users.
use rw_manager_backend.Base.{
  String, true, not, Option, none, some, List, [], ◌∷◌, refl, find?, filter, sort_by, update_first,
  upsert, remove_first, map, is_some, str_eq, if◌then◌else◌,
}
use rw_manager_backend.Data.Value.{nat}
use rw_manager_backend.Data.Server.{ServerConfig, at}
use rw_manager_backend.Data.User.{DbUser, UserRole, UserState}
use rw_manager_backend.Config.{AppConfig, from_env}
use rw_manager_backend.Driver.{Collection}
use rw_manager_backend.Store.State.{MongoCollections, Store, memory, mongo}
use rw_manager_backend.Storage.Access.{Web, Context}

abbrev pub listed : (D : Type 0) → Collection D
listed D = record {
  State = List D;
  docs = λ s. s;
  find = λ s. s;
  find_sorted = λ p less s. sort_by less (filter p s);
  find_one = λ p s. find? p s;
  update_one = λ p f s. (update_first p f s, is_some (find? p s), is_some (find? p s));
  upsert_one = λ p f d s. upsert p f d s;
  update_many = λ p f s. map (λ d. if p d then f d else d) s;
  delete_one = λ p s. remove_first p s;
  delete_many = λ p s. filter (λ d. not (p d)) s;
  find_lem = λ s. refl;
  find_sorted_lem = λ p less s. refl;
  find_one_lem = λ p s. refl;
  update_one-docs = λ p f s. refl;
  update_one-miss = λ p f s h. rw h (refl, refl);
  update_one-matched = λ p f s d h. rw h refl;
  update_one-modified = λ p f s d h ne. rw h refl;
  upsert_one-docs = λ p f d s. refl;
  update_many-docs = λ p f s. refl;
  delete_one-docs = λ p s. refl;
  delete_many-docs = λ p s. refl;
}

abbrev pub lists : MongoCollections
lists = record { servers = listed ServerConfig; users = listed DbUser }

abbrev pub server : (id url : String) → (credential owner : Option String) → ServerConfig
server id url credential owner = record {
  id = id;
  label = id;
  steam_id = none;
  addr = none;
  version = none;
  name = none;
  ip = some "10.0.0.7";
  port = some 4255;
  region = none;
  gm = none;
  mods = none;
  password = none;
  whitelist = none;
  admin_uid = none;
  query_url = url;
  query_url_explicit = none;
  map_url = none;
  backend_url = some "https://backend";
  query_data = none;
  info = none;
  status = none;
  online_players = none;
  known_players = none;
  blocked = none;
  blocked_at = none;
  last_checked = none;
  error_message = none;
  first_seen = none;
  last_seen = some (at 5);
  query_data_updated_at = none;
  connector_credential = credential;
  is_public = true;
  created_at = 0;
  user_id = owner;
}

abbrev pub alpha : ServerConfig
alpha = server "a" "https://a" (some "sealed") (some "ann")

abbrev pub beta : ServerConfig
beta = record (server "b" "https://b" none none) { port = some 4256; steam_id = some "s" }

abbrev pub account : (id name : String) → List String → DbUser
account id name pins = record {
  id = id;
  username = name;
  email = "x@y.z";
  state = UserState.verified;
  role = UserRole.user;
  steam_id = none;
  pinned_servers = some pins;
  intercom_channels = none;
  password_hash = "h";
  salt = "s";
  api_token_hash = none;
  api_token_salt = none;
  api_token_created_at = none;
  created_at = 0;
  last_seen_at = none;
}

abbrev pub ann : DbUser
ann = account "ann" "Ann" ("b" ∷ [])

abbrev pub bob : DbUser
bob = account "bob" "Bob" []

abbrev pub in_memory : Store lists
in_memory = memory (alpha ∷ beta ∷ []) (ann ∷ bob ∷ [])

abbrev pub in_mongo : Store lists
in_mongo = mongo (alpha ∷ beta ∷ []) (ann ∷ bob ∷ [])

abbrev pub env : String → Option String
env name = if str_eq name "ENABLE_AUTH" then some "true" else none

-- Numbers of the environment read as 1000.
abbrev pub config : AppConfig
config = from_env (λ s. nat 1000) env

abbrev pub web : Web
web = record { is_url = λ s. true; resolve = λ path base. some base; fetch_json = λ url. none }

abbrev pub as_ann : Context
as_ann = record { user_id = some "ann"; user_steam_id = none }

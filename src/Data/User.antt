-- ===== src/Data/User.antt =====
-- interfaces/app-user.ts
use rw_manager_backend.Base.{ℕ, String, Option, List}

pub data UserRole : Type 0 where
  guest user admin : UserRole

pub data UserState : Type 0 where
  new verified closed : UserState

pub record PublicUser : Type 0 where
  pub id : String
  pub username : String
  pub state : UserState
  pub role : UserRole
  pub steam_id : Option String
  pub pinned_servers : List String
  pub intercom_channels : Option (List String)
  pub created_at : ℕ
  pub last_seen_at : Option ℕ

pub record PrivateUser : Type 0 where
  pub profile : PublicUser
  pub open profile use *
  pub email : String

-- The stored user. Records of older versions may lack the two lists.
pub record DbUser : Type 0 where
  pub id : String
  pub username : String
  pub email : String
  pub state : UserState
  pub role : UserRole
  pub steam_id : Option String
  pub pinned_servers : Option (List String)
  pub intercom_channels : Option (List String)
  pub password_hash : String
  pub salt : String
  pub api_token_hash : Option String
  pub api_token_salt : Option String
  pub api_token_created_at : Option ℕ
  pub created_at : ℕ
  pub last_seen_at : Option ℕ

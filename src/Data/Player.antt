-- ===== src/Data/Player.antt =====
-- interfaces/game-player.ts. The profile fields that no operation reads (position, health, spawns and
-- so on) are carried together, as one list of properties.
use rw_manager_backend.Base.{ℕ, String, Option, List}
use rw_manager_backend.Data.Value.{Value, Number}

pub data Platform : Type 0 where
  steam standalone : Platform
  other_platform : Value → Platform

pub record DbPlayer : Type 0 where
  pub uid : String
  pub id : Option Number
  pub name : Option String
  pub platform : Option Platform
  pub playtime : Option ℕ
  pub firstseen : Option ℕ
  pub lastseen : Option ℕ
  pub profile : List (String × Value)

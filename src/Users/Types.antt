-- ===== src/Users/Types.antt =====
-- The rows and the requests of subscribers, from master/src/db/models.rs.
use honey.Prelude.{ℕ, String, Bool, Option}
use honey.Api.{ℤ}
use honey.Inbound.{Patch}

pub record User : Type 0 where
  pub id : ℕ
  pub username : String
  pub password : String
  pub enabled : Bool
  pub traffic_limit_bytes : ℤ
  pub expires_at : Option ℕ
  pub device_limit : ℤ
  pub created_by : Option ℕ
  pub subscription_title : Option String
  pub subscription_description : Option String
  pub subscription_group : Option String
  pub subscription_traffic_policy : String

pub record NewUser : Type 0 where
  pub username : String
  pub password : String
  pub subscription_title : Option String
  pub subscription_description : Option String
  pub subscription_group : Option String
  pub subscription_traffic_policy : String
  pub traffic_limit_bytes : ℤ
  pub expires_at : Option ℕ
  pub device_limit : ℤ

pub record UpdateUser : Type 0 where
  pub username : Option String
  pub password : Option String
  pub subscription_title : Patch String
  pub subscription_description : Patch String
  pub subscription_group : Patch String
  pub subscription_traffic_policy : Option String
  pub enabled : Option Bool
  pub traffic_limit_bytes : Option ℤ
  pub expires_at : Patch ℕ
  pub device_limit : Option ℤ

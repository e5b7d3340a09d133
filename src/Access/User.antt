-- ===== src/Access/User.antt =====
-- src/models/user.rs: the user as the check-token service answers it. `Value` is serde_json's.
use hoopoe.Base.{ℕ, ℤ, Text, Bool, Option}

pub record UserData (Value : Type 0) : Type 0 where
  pub id : ℤ
  pub region : Option Text
  pub username : Text
  pub bio : Option Text
  pub avatar : Option Text
  pub banner : Option Text
  pub wallet_background : Option Text
  pub activity_code : Text
  pub twitter_username : Option Text
  pub facebook_username : Option Text
  pub discord_username : Option Text
  pub identifier : Option Text
  pub mail : Option Text
  pub google_id : Option Text
  pub microsoft_id : Option Text
  pub is_mail_verified : Bool
  pub is_phone_verified : Bool
  pub phone_number : Option Text
  pub paypal_id : Option Text
  pub account_number : Option Text
  pub device_id : Option Text
  pub social_id : Option Text
  pub cid : Option Text
  pub screen_cid : Option Text
  pub snowflake_id : Option ℤ
  pub stars : Option ℤ
  pub user_role : Text
  pub token_time : Option ℤ
  pub balance : Option ℤ
  pub last_login : Option Text
  pub extra : Option Value
  pub created_at : Text
  pub updated_at : Text

-- The field `data` is the user.
pub record CheckTokenResponse (Value : Type 0) : Type 0 where
  pub user_data : UserData Value
  pub message : Text
  pub status : ℕ
  pub is_error : Bool

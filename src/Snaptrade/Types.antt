-- ===== src/Snaptrade/Types.antt =====
-- snaptrade/types.rs: what SnapTrade answers and what the desktop receives. The fields that serde
-- reads and nothing uses, `_session_id` and `_enabled`, are left out.
use mizan_connect.Base.{ℕ, Str, Bool, Option}
use mizan_connect.Json.{Value}

pub record StRegisterUserResponse : Type 0 where
  pub user_id : Str
  pub user_secret : Str

pub record StLoginResponse : Type 0 where
  pub redirect_uri : Str

pub record StBrokerage : Type 0 where
  pub id : Str
  pub slug : Str
  pub name : Str
  pub display_name : Option Str
  pub aws_s3_logo_url : Option Str
  pub aws_s3_square_logo_url : Option Str

pub record StAuthorization : Type 0 where
  pub id : Str
  pub name : Option Str
  pub auth_type : Option Str
  pub disabled : Bool
  pub created_date : Option Str
  pub updated_date : Option Str
  pub brokerage : Option StBrokerage

pub record StAccount : Type 0 where
  pub id : Str
  pub brokerage_authorization : Option Str
  pub name : Option Str
  pub number : Option Str
  pub institution_name : Option Str
  pub status : Option Str
  pub raw_type : Option Str
  pub balance : Option Value
  pub sync_status : Option Value
  pub is_paper : Option Bool

pub record LoginPortalResponse : Type 0 where
  pub url : Str
  pub expires_at : ℕ

pub record BrokerageDto : Type 0 where
  pub id : Str
  pub slug : Str
  pub name : Str
  pub display_name : Option Str
  pub aws_s3_logo_url : Option Str
  pub aws_s3_square_logo_url : Option Str

pub record BrokerConnectionDto : Type 0 where
  pub id : Str
  pub name : Option Str
  pub auth_type : Option Str
  pub disabled : Bool
  pub status : Str
  pub brokerage : Option BrokerageDto
  pub created_date : Option Str
  pub updated_date : Option Str

pub record BrokerAccountDto : Type 0 where
  pub id : Str
  pub brokerage_authorization : Option Str
  pub name : Option Str
  pub number : Option Str
  pub institution_name : Option Str
  pub status : Option Str
  pub raw_type : Option Str
  pub balance : Option Value
  pub sync_status : Option Value
  pub is_paper : Bool

pub record ActivitiesQuery : Type 0 where
  pub cursor : Option Str
  pub limit : Option ℕ
  pub start_date : Option Str
  pub end_date : Option Str

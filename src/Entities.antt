-- ===== src/Entities.antt =====
-- The rows of the tables: modules/users/entities, modules/auth/entities, modules/invites/entities
-- and modules/admin/entities. Dates are milliseconds since the epoch.
pub mod Pages
pub mod Content
pub mod Tracking
pub mod Notifications
pub mod PublicProfiles
use open_profile_be.Prelude.{ℕ, String, Bool, Option}

pub data UserRole : Type 0 where
  admin user : UserRole

pub data AuthProvider : Type 0 where
  email google : AuthProvider

pub data UserStatus : Type 0 where
  active blocked suspended deactivated flagged_for_review : UserStatus

pub record UserPreferences : Type 0 where
  pub mode : Option String
  pub color_theme : Option String

pub record User : Type 0 where
  pub id : String
  pub email : String
  pub password : String
  pub full_name : Option String
  pub username : Option String
  pub bio : Option String
  pub photo_url : Option String
  pub is_published : Bool
  pub role : Option UserRole
  pub status : UserStatus
  pub auth_provider : AuthProvider
  pub is_verified : Bool
  pub onboarding_complete : Bool
  pub preferences : UserPreferences
  pub otp_hash : Option String
  pub otp_expires_at : Option ℕ
  pub last_login_ip : Option String
  pub created_at : ℕ

pub record RefreshToken : Type 0 where
  pub id : String
  pub user_id : String
  pub token_hash : String
  pub expires_at : ℕ
  pub created_at : ℕ

pub record Invite : Type 0 where
  pub id : String
  pub inviter_user_id : String
  pub recipient_email : String
  pub token : String
  pub expires_at : ℕ
  pub clicked_at : Option ℕ
  pub claimed_at : Option ℕ
  pub claimed_by_user_id : Option String
  pub created_at : ℕ

pub record UserStatusHistory : Type 0 where
  pub id : String
  pub user_id : String
  pub from_status : UserStatus
  pub to_status : UserStatus
  pub changed_by : Option String
  pub changed_at : ℕ

-- ===== src/Accounts.antt =====
-- What the callers of modules/users give and get: modules/users/dto.
use open_profile_be.Entities.{AuthProvider, UserPreferences, UserRole}
use open_profile_be.Prelude.{Bool, Option, String, none, some}

-- What a caller gives for a new account; the database fills in the rest.
pub record NewUser : Type 0 where
  pub email : String
  pub password : String
  pub full_name : Option String
  pub role : Option UserRole
  pub auth_provider : AuthProvider
  pub is_verified : Bool
  pub onboarding_complete : Bool

pub record UserSettings : Type 0 where
  pub email : String
  pub username : Option String
  pub full_name : Option String
  pub is_verified : Bool
  pub auth_provider : AuthProvider
  pub onboarding_complete : Bool

-- A field that a PATCH leaves out is `none`.
pub record UpdateUser : Type 0 where
  pub email : Option String
  pub password : Option String
  pub role : Option UserRole

abbrev pub or_keep {ℓ} : {A : Type ℓ} → Option A → A → A
or_keep none old = old
or_keep (some new) old = new

abbrev pub or_keep_role : Option UserRole → Option UserRole → Option UserRole
or_keep_role none old = old
or_keep_role (some new) old = some new

-- `{ ...DEFAULT_PREFERENCES, ...preferences }`
abbrev pub with_defaults : UserPreferences → UserPreferences
with_defaults p = record {
  mode = some (or_keep p.mode "system");
  color_theme = some (or_keep p.color_theme "default");
}

abbrev pub or_keep_text : Option String → Option String → Option String
or_keep_text none old = old
or_keep_text (some new) old = some new

abbrev pub merged : UserPreferences → UserPreferences → UserPreferences
merged dto old = record {
  mode = or_keep_text dto.mode old.mode;
  color_theme = or_keep_text dto.color_theme old.color_theme;
}

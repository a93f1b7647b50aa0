-- ===== src/Entities/Pages.antt =====
-- The rows behind a profile's page: modules/profile/entities. The columns of a section's row that
-- no operation reads, its dates of creation and change, are left out; a JSON column that no
-- operation looks into is the text of its document.
use open_profile_be.Entities.Content.{AppearanceSettings, ProfileContent}
use open_profile_be.Prelude.{Bool, Option, String, ℕ}

pub record Profile : Type 0 where
  pub id : String
  pub user_id : String
  pub username : String
  pub full_name : String
  pub bio : Option String
  pub photo_url : Option String
  pub template_type : Option String
  pub theme_settings : Option String
  pub content : Option ProfileContent
  pub appearance : Option AppearanceSettings
  pub cta_label : Option String
  pub cta_url : Option String
  pub is_verified : Bool
  pub is_published : Bool
  pub published_at : Option ℕ
  pub is_public : Bool
  pub has_unpublished_changes : Bool
  pub view_count : ℕ
  pub created_at : ℕ
  pub updated_at : ℕ
  pub deleted_at : Option ℕ

pub record ProfileComponent : Type 0 where
  pub id : String
  pub profile_id : String
  pub section_type : String
  pub title : Option String
  pub content : Option String
  pub metadata : Option String
  pub is_enabled : Bool
  pub display_order : ℕ

pub record Skill : Type 0 where
  pub id : String
  pub profile_id : String
  pub name : String
  pub level : Option String
  pub display_order : ℕ

pub record Education : Type 0 where
  pub id : String
  pub profile_id : String
  pub school : String
  pub degree : String
  pub field_of_study : String
  pub location : Option String
  pub activities_honors : Option String
  pub start_year : ℕ
  pub end_year : ℕ
  pub display_order : ℕ

pub record WorkExperience : Type 0 where
  pub id : String
  pub profile_id : String
  pub company_name : String
  pub job_title : String
  pub location : Option String
  pub description : Option String
  pub start_month : ℕ
  pub start_year : ℕ
  pub end_month : Option ℕ
  pub end_year : Option ℕ
  pub is_current : Bool
  pub display_order : ℕ

pub record Award : Type 0 where
  pub id : String
  pub profile_id : String
  pub title : String
  pub issuer : String
  pub award_date : String
  pub description : Option String
  pub credential_url : Option String
  pub display_order : ℕ

pub record ProfileDraft : Type 0 where
  pub id : String
  pub profile_id : String
  pub full_name : Option String
  pub bio : Option String
  pub photo_url : Option String
  pub content : Option ProfileContent
  pub appearance : Option AppearanceSettings
  pub theme_settings : Option String
  pub updated_at : ℕ

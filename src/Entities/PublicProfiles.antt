-- ===== src/Entities/PublicProfiles.antt =====
-- What a profile's page answers: modules/profile/dto/profile-response.dto.ts.
use open_profile_be.Entities.Content.{AppearanceSettings, ProfileContent}
use open_profile_be.Prelude.{Bool, List, Option, String, ℕ}

pub record PublicSkill : Type 0 where
  pub id : String
  pub name : String
  pub level : Option String
  pub display_order : ℕ

pub record PublicEducation : Type 0 where
  pub id : String
  pub school : String
  pub degree : String
  pub field_of_study : String
  pub location : Option String
  pub activities_honors : Option String
  pub start_year : ℕ
  pub end_year : ℕ
  pub display_order : ℕ

pub record PublicWorkExperience : Type 0 where
  pub id : String
  pub company_name : String
  pub job_title : String
  pub location : Option String
  pub description : Option String
  pub start_month : ℕ
  pub start_year : ℕ
  pub end_month : Option ℕ
  pub end_year : Option ℕ
  pub is_current : Bool
  pub display_order : ℕ

pub record PublicAward : Type 0 where
  pub id : String
  pub title : String
  pub issuer : String
  pub award_date : String
  pub description : Option String
  pub credential_url : Option String
  pub display_order : ℕ

pub record SectionMeta : Type 0 where
  pub section_type : String
  pub display_order : ℕ

pub record PublicProfile : Type 0 where
  pub username : String
  pub full_name : String
  pub photo_url : Option String
  pub template_type : Option String
  pub theme_settings : Option String
  pub appearance : Option AppearanceSettings
  pub content : ProfileContent
  pub skills : List PublicSkill
  pub education : List PublicEducation
  pub work_experience : List PublicWorkExperience
  pub awards : List PublicAward
  pub sections : List SectionMeta

-- What the cache holds for a username: a page with the ids of its profile and its user, or the
-- mark `__notFound`.
pub data CachedPage : Type 0 where
  not_found_mark : CachedPage
  page : (profile_id user_id : String) → PublicProfile → CachedPage

-- ===== src/Profiles/EducationEntries.antt =====
-- The education of a profile: ProfileService, and modules/profile/dto/education.dto.ts.
pub mod Dates
use open_profile_be.Accounts.{or_keep}
use open_profile_be.Entities.Pages.{Education}
use open_profile_be.Exec.{Exception, http, pure, throw_if}
use open_profile_be.Prelude.{Bool, List, Option, String, key, leb, ltb, refl, ℕ}
use open_profile_be.Profiles.Reorder.{reorder}
use open_profile_be.Profiles.Sections.{Section, add_row, change_row, delete_row, list_rows}
use open_profile_be.Services.{Services}
use open_profile_be.World.{App}

pub record CreateEducation : Type 0 where
  pub school : String
  pub degree : String
  pub field_of_study : String
  pub location : Option String
  pub activities_honors : Option String
  pub start_year : ℕ
  pub end_year : ℕ

pub record UpdateEducation : Type 0 where
  pub school : Option String
  pub degree : Option String
  pub field_of_study : Option String
  pub location : Option (Option String)
  pub activities_honors : Option (Option String)
  pub start_year : Option ℕ
  pub end_year : Option ℕ

abbrev pub with_education : UpdateEducation → Education → Education
with_education dto r = record r {
  school = or_keep dto.school r.school;
  degree = or_keep dto.degree r.degree;
  field_of_study = or_keep dto.field_of_study r.field_of_study;
  location = or_keep dto.location r.location;
  activities_honors = or_keep dto.activities_honors r.activities_honors;
  start_year = or_keep dto.start_year r.start_year;
  end_year = or_keep dto.end_year r.end_year;
}

abbrev pub invalid_date_range : Exception
invalid_date_range = http 422 "INVALID_DATE_RANGE"

-- The validator of the DTO for a new entry: `endYear >= startYear`.
unfoldable pub is_valid_create_education : CreateEducation → Bool
is_valid_create_education dto = leb dto.start_year dto.end_year

abbrev pub new_education : CreateEducation → String → String → ℕ → Education
new_education dto id profile place = record {
  id = id;
  profile_id = profile;
  school = dto.school;
  degree = dto.degree;
  field_of_study = dto.field_of_study;
  location = dto.location;
  activities_honors = dto.activities_honors;
  start_year = dto.start_year;
  end_year = dto.end_year;
  display_order = place;
}

module _ (x : Services) where
  -- `this.educationRepo`, and what the errors say.
  abbrev pub education_section : Section x Education
  education_section = record {
    repository = x.pages.education;
    table = λ p. p.education;
    put = λ t p. record p { education = t };
    id = λ r. r.id;
    profile_id = λ r. r.profile_id;
    display_order = λ r. r.display_order;
    with_order = λ n r. record r { display_order = n };
    not_found = λ id. http 404 (key "Education entry " (key id " not found."));
    not_owned = http 403 "Education entry does not belong to the authenticated user.";
    foreign_ids = http 403 "One or more educationIds belong to a different profile.";
    table-put = λ t p. refl;
    profiles-put = λ t p. refl;
    id-with_order = λ n r. refl;
    profile_id-with_order = λ n r. refl;
    display_order-with_order = λ n r. refl;
  }

  unfoldable pub create_education : String → CreateEducation → App x Education
  unfolding add_row
  create_education user dto = add_row x education_section user (new_education dto) (λ row. pure tt)

  unfoldable pub list_education : String → App x (List Education)
  unfolding list_rows
  list_education user = list_rows x education_section user

  unfoldable pub update_education : (user id : String) → UpdateEducation → App x Education
  unfolding change_row
  update_education user id dto =
      change_row x education_section user id (with_education dto)
        (λ row. throw_if (ltb row.end_year row.start_year) invalid_date_range)

  unfoldable pub delete_education_entry : (user id : String) → App x (Unit {0})
  unfolding delete_row
  delete_education_entry user id = delete_row x education_section user id

  unfoldable pub reorder_education : String → List String → App x (List Education)
  unfolding reorder
  reorder_education user ids = reorder x education_section user ids

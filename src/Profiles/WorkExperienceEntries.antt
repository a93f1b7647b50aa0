-- ===== src/Profiles/WorkExperienceEntries.antt =====
-- The work experience of a profile: ProfileService, and modules/profile/dto/work-experience.dto.ts.
pub mod Dates
use open_profile_be.Accounts.{or_keep}
use open_profile_be.Entities.Pages.{WorkExperience}
use open_profile_be.Exec.{http, throw_if}
use open_profile_be.Prelude.{
  Bool, List, Option, String, false, if◌then◌else◌, is_some, key, ltb, nat_eq, none, refl, some,
  true, ℕ, ◌&&◌, ◌||◌,
}
use open_profile_be.Profiles.EducationEntries.{invalid_date_range}
use open_profile_be.Profiles.Reorder.{reorder}
use open_profile_be.Profiles.Sections.{Section, add_row, change_row, delete_row, list_rows}
use open_profile_be.Services.{Services}
use open_profile_be.World.{App}

pub record CreateWorkExperience : Type 0 where
  pub company_name : String
  pub job_title : String
  pub location : Option String
  pub description : Option String
  pub start_month : ℕ
  pub start_year : ℕ
  pub end_month : Option ℕ
  pub end_year : Option ℕ
  pub is_current : Bool

pub record UpdateWorkExperience : Type 0 where
  pub company_name : Option String
  pub job_title : Option String
  pub location : Option (Option String)
  pub description : Option (Option String)
  pub start_month : Option ℕ
  pub start_year : Option ℕ
  pub end_month : Option (Option ℕ)
  pub end_year : Option (Option ℕ)
  pub is_current : Option Bool

-- `isCurrent ? null : value`
abbrev pub unless_current : Bool → Option ℕ → Option ℕ
unless_current true value = none
unless_current false value = value

abbrev pub cleared_if_current : WorkExperience → WorkExperience
cleared_if_current r = record r {
  end_month = unless_current r.is_current r.end_month;
  end_year = unless_current r.is_current r.end_year;
}

abbrev pub with_work_experience : UpdateWorkExperience → WorkExperience → WorkExperience
with_work_experience dto r = cleared_if_current (record r {
  company_name = or_keep dto.company_name r.company_name;
  job_title = or_keep dto.job_title r.job_title;
  location = or_keep dto.location r.location;
  description = or_keep dto.description r.description;
  start_month = or_keep dto.start_month r.start_month;
  start_year = or_keep dto.start_year r.start_year;
  is_current = or_keep dto.is_current r.is_current;
  end_month = or_keep dto.end_month r.end_month;
  end_year = or_keep dto.end_year r.end_year;
})

-- `startsAfterEnds`, where both ends are given.
abbrev pub starts_after_ends : (end_month end_year : ℕ) → WorkExperience → Bool
starts_after_ends month year r =
    ltb year r.start_year || (nat_eq year r.start_year && ltb month r.start_month)

-- Without `isCurrent` both ends are required, and must not be before the start.
abbrev pub lacks_valid_end : Option ℕ → Option ℕ → WorkExperience → Bool
lacks_valid_end (some month) (some year) r = starts_after_ends month year r
lacks_valid_end _ _ r = true

-- Whether `validateWorkExperienceDates` throws.
unfoldable pub has_invalid_dates : WorkExperience → Bool
has_invalid_dates r =
    if r.is_current
    then is_some r.end_month || is_some r.end_year
    else lacks_valid_end r.end_month r.end_year r

abbrev pub new_work_experience : CreateWorkExperience → String → String → ℕ → WorkExperience
new_work_experience dto id profile place = record {
  id = id;
  profile_id = profile;
  company_name = dto.company_name;
  job_title = dto.job_title;
  location = dto.location;
  description = dto.description;
  start_month = dto.start_month;
  start_year = dto.start_year;
  end_month = unless_current dto.is_current dto.end_month;
  end_year = unless_current dto.is_current dto.end_year;
  is_current = dto.is_current;
  display_order = place;
}

module _ (x : Services) where
  unfoldable pub validate_work_experience_dates : WorkExperience → App x (Unit {0})
  unfolding has_invalid_dates
  validate_work_experience_dates r = throw_if (has_invalid_dates r) invalid_date_range

  -- `this.workExperienceRepo`, and what the errors say.
  abbrev pub work_experience_section : Section x WorkExperience
  work_experience_section = record {
    repository = x.pages.work_experience;
    table = λ p. p.work_experience;
    put = λ t p. record p { work_experience = t };
    id = λ r. r.id;
    profile_id = λ r. r.profile_id;
    display_order = λ r. r.display_order;
    with_order = λ n r. record r { display_order = n };
    not_found = λ id. http 404 (key "Work experience " (key id " not found."));
    not_owned = http 403 "Work experience does not belong to the authenticated user.";
    foreign_ids = http 403 "One or more workExperienceIds belong to a different profile.";
    table-put = λ t p. refl;
    profiles-put = λ t p. refl;
    id-with_order = λ n r. refl;
    profile_id-with_order = λ n r. refl;
    display_order-with_order = λ n r. refl;
  }

  unfoldable pub create_work_experience : String → CreateWorkExperience → App x WorkExperience
  unfolding add_row validate_work_experience_dates
  create_work_experience user dto =
      add_row x work_experience_section user (new_work_experience dto)
        validate_work_experience_dates

  unfoldable pub list_work_experience : String → App x (List WorkExperience)
  unfolding list_rows
  list_work_experience user = list_rows x work_experience_section user

  unfoldable pub update_work_experience :
      (user id : String) → UpdateWorkExperience → App x WorkExperience
  unfolding change_row validate_work_experience_dates
  update_work_experience user id dto =
      change_row x work_experience_section user id (with_work_experience dto)
        validate_work_experience_dates

  unfoldable pub delete_work_experience_entry : (user id : String) → App x (Unit {0})
  unfolding delete_row
  delete_work_experience_entry user id = delete_row x work_experience_section user id

  unfoldable pub reorder_work_experience : String → List String → App x (List WorkExperience)
  unfolding reorder
  reorder_work_experience user ids = reorder x work_experience_section user ids

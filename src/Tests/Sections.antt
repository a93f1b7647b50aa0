-- ===== src/Tests/Sections.antt =====
-- The lists of a profile's page at concrete rows, and the checks of usernames.
use open_profile_be.Entities.Pages.{Profile, Skill}
use open_profile_be.Exec.{Returned, ok, pure}
use open_profile_be.Prelude.{
  All, List, String, [], any, ap, arith, eq_iff, false, inr, keep, length, map, map_where, none,
  refl, some, true, ℕ, ◌<◌, ◌↔◌, ◌∷◌, ◌≡◌, ◌≢◌, ◌≤◌,
}
use open_profile_be.Profiles.EducationEntries.{CreateEducation}
use open_profile_be.Profiles.EducationEntries.Dates.{
  EducationRequest, HasValidYears, serve_all_education, serve_all_education-HasValidYears,
}
use open_profile_be.Profiles.Reorder.{place, reorder, reorder_rows}
use open_profile_be.Profiles.Reorder.Answer.{reorder-lists}
use open_profile_be.Profiles.Reorder.Lists.{IsPlaced, rows_with, times}
use open_profile_be.Profiles.Reorder.Others.{reorder-others}
use open_profile_be.Profiles.Reorder.Rows.{listed}
use open_profile_be.Profiles.Sections.{
  Section, add_row, change_row, delete_row, get_owned, has_row_id, invalidate_cache, is_of_profile,
  rows_after, rows_at,
}
use open_profile_be.Profiles.Sections.Ownership.{Owned, change_row-Effect, changes-Owned}
use open_profile_be.Profiles.Sections.Places.{add_row-last}
use open_profile_be.Profiles.Skills.{CreateSkill, new_skill, skills_section, with_skill}
use open_profile_be.Profiles.WorkExperienceEntries.{
  CreateWorkExperience, create_work_experience, has_invalid_dates, validate_work_experience_dates,
}
use open_profile_be.Profiles.WorkExperienceEntries.Dates.{
  HasValidDates, WorkExperienceRequest, serve_entries, serve_entries-HasValidDates, serve_entry,
}
use open_profile_be.Samples.{empty_pages, empty_world, sample}
use open_profile_be.Usernames.{
  available, has_double_hyphen, has_invalid_format, has_username, matches_format, normalized,
}
use open_profile_be.Usernames.Grammar.{IsGoodName, check-available}
use open_profile_be.World.{App, Pages, World}
use open_profile_be.Redis
use open_profile_be.Usernames

abbrev pub home : Profile
home = record {
  id = "p";
  user_id = "1";
  username = "ann";
  full_name = "Ann";
  bio = none;
  photo_url = none;
  template_type = none;
  theme_settings = none;
  content = none;
  appearance = none;
  cta_label = none;
  cta_url = none;
  is_verified = false;
  is_published = true;
  published_at = none;
  is_public = true;
  has_unpublished_changes = false;
  view_count = 0;
  created_at = 0;
  updated_at = 0;
  deleted_at = none;
}

abbrev skill_row : String → String → ℕ → Skill
skill_row id profile place = record {
  id = id;
  profile_id = profile;
  name = id;
  level = none;
  display_order = place;
}

abbrev pub with_home : World sample
with_home = record empty_world {
  pages = record empty_pages {
    profiles = home ∷ [];
    skills = skill_row "a" "p" 0 ∷ skill_row "c" "q" 0 ∷ skill_row "b" "p" 1 ∷ [];
  };
}

abbrev skills_of_ann : Section sample Skill
skills_of_ann = skills_section sample

swapped :
    (reorder sample skills_of_ann "1" ("b" ∷ "a" ∷ []) with_home).0
    ≡ ok (skill_row "b" "p" 0 ∷ skill_row "a" "p" 1 ∷ [])
unfolding reorder reorder_rows invalidate_cache Redis.del
swapped = refl

one_each : (j : String) → rows_with skills_of_ann.id j (rows_at sample skills_of_ann with_home) ≤ 1
one_each j = ground (
  arith,
  eq_iff "a" j,
  eq_iff "c" j,
  eq_iff "b" j,
  eq_iff "a" "b",
  eq_iff "a" "c",
  eq_iff "c" "b",
)

once_each : (j : String) → times j ("b" ∷ "a" ∷ []) ≤ 1
once_each j = ground (arith, eq_iff "a" j, eq_iff "b" j, eq_iff "a" "b")

reorder-lists_example :
    (map skills_of_ann.id (skill_row "b" "p" 0 ∷ skill_row "a" "p" 1 ∷ []) ≡ "b" ∷ "a" ∷ [])
    × IsPlaced skills_of_ann.id skills_of_ann.display_order 0
        ("b" ∷ "a" ∷ [])
        (skill_row "b" "p" 0 ∷ skill_row "a" "p" 1 ∷ [])
reorder-lists_example =
    reorder-lists sample skills_of_ann "1" ("b" ∷ "a" ∷ []) with_home home refl one_each once_each
      (skill_row "b" "p" 0 ∷ skill_row "a" "p" 1 ∷ []) swapped

reorder-others_example :
    listed sample skills_of_ann "q"
      (rows_at sample skills_of_ann (reorder sample skills_of_ann "1" ("b" ∷ "a" ∷ []) with_home).1)
    ≡ skill_row "c" "q" 0 ∷ []
reorder-others_example =
    reorder-others sample skills_of_ann "1" ("b" ∷ "a" ∷ []) with_home home refl "q" refl one_each

abbrev renamed : Skill → Skill
renamed = with_skill (record { name = some "z"; level = none })

abbrev unchecked : Skill → App sample (Unit {0})
unchecked row = pure tt

touched : (delete_row sample skills_of_ann "1" "a" with_home).1.pages ≢ with_home.pages
unfolding delete_row get_owned invalidate_cache Redis.del
touched e = absurd (ground (arith, ap (λ (g : Pages sample). length g.skills) e))

changes-Owned_example : Owned sample skills_of_ann "1" "a" with_home
changes-Owned_example =
    changes-Owned sample skills_of_ann "1" "a" with_home renamed unchecked (inr touched)

renames : Returned (change_row sample skills_of_ann "1" "a" renamed unchecked with_home).0
unfolding change_row get_owned invalidate_cache Redis.del
renames = tt

change_row-Effect_example :
    (o : Owned sample skills_of_ann "1" "a" with_home) × (rows_after sample skills_of_ann
        (change_row sample skills_of_ann "1" "a" renamed unchecked)
        with_home
      ≡ map_where
          (has_row_id sample skills_of_ann (skills_of_ann.id (renamed o.row)))
          (λ _. renamed o.row)
          (rows_at sample skills_of_ann with_home))
change_row-Effect_example =
    change_row-Effect sample skills_of_ann "1" "a" with_home renamed unchecked (λ row v. refl)
      renames

abbrev cooking : CreateSkill
cooking = record { name = "cooking"; level = none }

abbrev cooking_row : Skill
cooking_row = record {
  id = "u";
  profile_id = "p";
  name = "cooking";
  level = none;
  display_order = 2;
}

adds : (add_row sample skills_of_ann "1" (new_skill cooking) unchecked with_home).0 ≡ ok cooking_row
unfolding add_row invalidate_cache Redis.del
adds = refl

add_row-last_example :
    All
      (λ r. skills_of_ann.display_order r < skills_of_ann.display_order cooking_row)
      (keep (is_of_profile sample skills_of_ann "p") (rows_at sample skills_of_ann with_home))
add_row-last_example =
    add_row-last sample skills_of_ann "1" (new_skill cooking) unchecked (λ row v. refl) with_home
      (λ i p n. refl) home refl cooking_row adds

abbrev job : CreateWorkExperience
job = record {
  company_name = "c";
  job_title = "t";
  location = none;
  description = none;
  start_month = 5;
  start_year = 2020;
  end_month = some 4;
  end_year = some 2021;
  is_current = false;
}

-- The second entry ends before it starts, and is refused.
abbrev job_requests : List WorkExperienceRequest
job_requests =
    WorkExperienceRequest.create_entry "1" job
    ∷ WorkExperienceRequest.create_entry "1" (record job { end_year = some 2020 })
    ∷ []

no_entries : HasValidDates sample with_home
unfolding HasValidDates
no_entries = tt

serve_entries-HasValidDates_example :
    HasValidDates sample (serve_entries sample job_requests with_home)
serve_entries-HasValidDates_example =
    serve_entries-HasValidDates sample job_requests with_home no_entries

one_job : length (serve_entries sample job_requests with_home).pages.work_experience ≡ 1
unfolding serve_entries serve_entry create_work_experience add_row invalidate_cache Redis.del
    validate_work_experience_dates has_invalid_dates
one_job = refl

abbrev school : CreateEducation
school = record {
  school = "s";
  degree = "d";
  field_of_study = "f";
  location = none;
  activities_honors = none;
  start_year = 2010;
  end_year = 2014;
}

abbrev school_requests : List EducationRequest
school_requests =
    EducationRequest.create_entry "1" school
    ∷ EducationRequest.create_entry "1" (record school { end_year = 2009 })
    ∷ []

no_schools : HasValidYears sample with_home
unfolding HasValidYears
no_schools = tt

serve_all_education-HasValidYears_example :
    HasValidYears sample (serve_all_education sample school_requests with_home)
serve_all_education-HasValidYears_example =
    serve_all_education-HasValidYears sample school_requests with_home no_schools

check-available_example :
    ((Usernames.check sample "bob-1" with_home).0 ≡ ok (available "bob-1")) ↔ (
      ("bob-1" ≡ normalized sample "bob-1")
      × IsGoodName "bob-1"
      × (any (has_username "bob-1") (home ∷ []) ≡ false))
check-available_example = check-available sample "bob-1" "bob-1" with_home

bob_free : (Usernames.check sample "bob-1" with_home).0 ≡ ok (available "bob-1")
unfolding Usernames.check has_invalid_format matches_format has_double_hyphen
bob_free = refl

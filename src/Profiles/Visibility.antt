-- ===== src/Profiles/Visibility.antt =====
-- Changes of the profile itself: `updateVisibility`, `updateProfile` and `getDashboardProfile` of
-- ProfileService.
use open_profile_be.Accounts.{or_keep}
use open_profile_be.Entities.Pages.{Profile, ProfileComponent}
use open_profile_be.Entities.PublicProfiles.{
  PublicAward, PublicEducation, PublicSkill, PublicWorkExperience,
}
use open_profile_be.Exec.{gets, http, modify, pure, require, throw_if, ◌>>=◌, ◌>>◌}
use open_profile_be.Prelude.{
  Bool, List, Option, String, false, if◌then◌else◌, is_some, map, not, true, ℕ, ◌&&◌, ◌==◌,
}
use open_profile_be.Profiles.Awards.{awards_section}
use open_profile_be.Profiles.Components.{components_section}
use open_profile_be.Profiles.EducationEntries.{education_section}
use open_profile_be.Profiles.Pages.{
  public_award, public_education, public_skill, public_work_experience,
}
use open_profile_be.Profiles.Sections.{
  Section, invalidate_cache, is_of_profile, onboarding_first, own_profile, profile_of_user,
  table_of,
}
use open_profile_be.Profiles.Skills.{skills_section}
use open_profile_be.Profiles.WorkExperienceEntries.{work_experience_section}
use open_profile_be.Services.{Services}
use open_profile_be.World.{App, World}

pub record ProfileResponse : Type 0 where
  pub id : String
  pub username : String
  pub full_name : String
  pub bio : Option String
  pub photo_url : Option String
  pub template_type : Option String
  pub theme_settings : Option String
  pub cta_label : Option String
  pub cta_url : Option String
  pub is_published : Bool
  pub has_unpublished_changes : Bool
  pub is_verified : Bool
  pub is_public : Bool
  pub created_at : ℕ
  pub updated_at : ℕ

abbrev pub to_profile_response : Profile → ProfileResponse
to_profile_response p = record {
  id = p.id;
  username = p.username;
  full_name = p.full_name;
  bio = p.bio;
  photo_url = p.photo_url;
  template_type = p.template_type;
  theme_settings = p.theme_settings;
  cta_label = p.cta_label;
  cta_url = p.cta_url;
  is_published = p.is_published;
  has_unpublished_changes = p.has_unpublished_changes;
  is_verified = p.is_verified;
  is_public = p.is_public;
  created_at = p.created_at;
  updated_at = p.updated_at;
}

-- A null biography or photo is `some none`.
pub record UpdateProfile : Type 0 where
  pub full_name : Option String
  pub bio : Option (Option String)
  pub photo_url : Option (Option String)

abbrev pub with_update : UpdateProfile → Profile → Profile
with_update dto p = record p {
  full_name = or_keep dto.full_name p.full_name;
  bio = or_keep dto.bio p.bio;
  photo_url = or_keep dto.photo_url p.photo_url;
  has_unpublished_changes = true;
}

-- `where: { username, deletedAt: IsNull() }`
abbrev pub is_named : String → Profile → Bool
is_named name p = p.username == name && not (is_some p.deleted_at)

abbrev pub same_bool : Bool → Bool → Bool
same_bool true b = b
same_bool false b = not b

-- What the dashboard shows: the profile, and every row behind its page, shown or not.
pub record DashboardProfile : Type 0 where
  pub profile : ProfileResponse
  pub components : List ProfileComponent
  pub skills : List PublicSkill
  pub education : List PublicEducation
  pub work_experience : List PublicWorkExperience
  pub awards : List PublicAward

module _ (x : Services) where
  abbrev pub has_profile_id : String → Profile → Bool
  has_profile_id id p = p.id == id

  -- `profileRepo.save(profile)` of a profile that was read; it sets the time of the change.
  abbrev pub save_profile : Profile → App x (Unit {0})
  save_profile p = modify λ w. record w {
    pages = record (w.pages) {
      profiles =
          x.pages.profiles.update (has_profile_id p.id) (λ _. record p { updated_at = w.now })
            w.pages.profiles;
    };
  }

  abbrev pub set_visibility : Bool → Profile → App x Bool
  set_visibility is_public p = do
    save_profile (record p { is_public = is_public })
    invalidate_cache x p.username
    pure is_public

  unfoldable pub update_visibility : String → Bool → App x Bool
  update_visibility user is_public = do
    profile ← own_profile x user
    (if same_bool profile.is_public is_public
        then pure is_public
        else set_visibility is_public profile)

  unfoldable pub update_profile :
      (username : String) → UpdateProfile → String → App x ProfileResponse
  update_profile username dto user = do
    found ←
        gets
          (λ w. x.pages.profiles.find_one (is_named (x.crypto.to_lower username)) w.pages.profiles)
    profile ← require found onboarding_first
    throw_if (not (profile.user_id == user))
        (http 403 "You don't have permission to update this profile.")
    save_profile (with_update dto profile)
    invalidate_cache x profile.username
    now ← gets (λ w. w.now)
    pure (to_profile_response (record (with_update dto profile) { updated_at = now }))

  -- The rows behind a page, each list by display order.
  abbrev pub ordered_rows : {Row : Type 0} → Section x Row → String → World x → List Row
  ordered_rows s profile w =
      s.repository.find_ordered s.display_order (is_of_profile x s profile) (table_of x s w)

  unfoldable pub get_dashboard_profile : String → App x DashboardProfile
  get_dashboard_profile user = do
    found ← gets (profile_of_user x user)
    profile ← require found (http 404 "Profile not found. Please complete your profile setup.")
    gets (λ w. record {
      profile = to_profile_response profile;
      components = ordered_rows (components_section x) profile.id w;
      skills = map public_skill (ordered_rows (skills_section x) profile.id w);
      education = map public_education (ordered_rows (education_section x) profile.id w);
      work_experience =
          map public_work_experience (ordered_rows (work_experience_section x) profile.id w);
      awards = map public_award (ordered_rows (awards_section x) profile.id w);
    })

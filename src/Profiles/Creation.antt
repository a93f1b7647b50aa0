-- ===== src/Profiles/Creation.antt =====
-- `createProfile` of ProfileService.
use open_profile_be.Accounts.{or_keep}
use open_profile_be.Auth.UserStatusCache.{has_id}
use open_profile_be.Entities.Content.{SectionType}
use open_profile_be.Entities.Pages.{Profile}
use open_profile_be.Exec.{
  Exception, gets, http, ok, pure, throw, throw_if, transaction, ◌>>=◌, ◌>>◌,
}
use open_profile_be.Prelude.{
  Bool, List, Option, String, [], count_where, false, is_some, nat_eq, none, not, suc, true, ℕ,
  ◌==◌, ◌∷◌,
}
use open_profile_be.Profiles.Documents.{section_type_text}
use open_profile_be.Profiles.Visibility.{ProfileResponse, to_profile_response}
use open_profile_be.Services.{Services}
use open_profile_be.Usernames.{UsernameCheckResult, available, invalid_format, taken, unavailable}
use open_profile_be.World.{App, World, draw, stored}
use open_profile_be.Usernames

pub record CreateProfile : Type 0 where
  pub username : String
  pub full_name : String
  pub bio : Option String
  pub photo_url : Option String
  pub is_published : Option Bool

abbrev pub profile_exists : Exception
profile_exists = http 409 "User already has a profile"

abbrev pub username_taken : Exception
username_taken = http 409 "Username already taken"

abbrev pub invalid_username_format : Exception
invalid_username_format = http 422 "INVALID_USERNAME_FORMAT"

abbrev pub default_sections : List SectionType
default_sections =
    SectionType.bio ∷ SectionType.links ∷ SectionType.projects ∷ SectionType.cta
    ∷ SectionType.work_experience ∷ SectionType.education ∷ SectionType.skills ∷ SectionType.awards
    ∷ []

module _ (x : Services) where
  -- The name that a check of usernames allows.
  abbrev pub allowed_name : UsernameCheckResult → App x String
  allowed_name (available name) = pure name
  allowed_name (unavailable taken) = throw username_taken
  allowed_name (unavailable invalid_format) = throw invalid_username_format

  -- The row of a new profile; the columns that are not given have their defaults.
  abbrev pub new_profile : CreateProfile → String → String → World x → Profile
  new_profile dto user name w = record {
    id = x.crypto.uuid w.drawn;
    user_id = user;
    username = name;
    full_name = dto.full_name;
    bio = dto.bio;
    photo_url = dto.photo_url;
    template_type = none;
    theme_settings = none;
    content = none;
    appearance = none;
    cta_label = none;
    cta_url = none;
    is_verified = false;
    is_published = or_keep dto.is_published true;
    published_at = none;
    is_public = true;
    has_unpublished_changes = false;
    view_count = 0;
    created_at = w.now;
    updated_at = w.now;
    deleted_at = none;
  }

  abbrev pub put_profiles : World x → x.pages.profiles.Table → World x
  put_profiles w t = record w { pages = record (w.pages) { profiles = t } }

  abbrev pub put_components : World x → x.pages.components.Table → World x
  put_components w t = record w { pages = record (w.pages) { components = t } }

  -- `txUserRepo.update({ id }, { onboardingComplete: true })`, and the number of rows it changed.
  abbrev pub complete_onboarding : String → App x ℕ
  complete_onboarding user w = (
    ok (count_where (has_id user) (x.users.rows w.users)),
    record w {
      users = x.users.update (has_id user) (λ u. record u { onboarding_complete = true }) w.users;
    },
  )

  -- The default components are saved one by one, in the order of their places.
  abbrev pub save_components : String → ℕ → List SectionType → App x (Unit {0})
  save_components profile place [] = pure tt
  save_components profile place (type ∷ types) = do
    n ← draw x
    inserted_table ← gets (λ w.
        x.pages.components.insert
          (record {
            id = x.crypto.uuid n;
            profile_id = profile;
            section_type = section_type_text type;
            title = none;
            content = none;
            metadata = none;
            is_enabled = true;
            display_order = place;
          })
          w.pages.components)
    stored x put_components inserted_table
    save_components profile (suc place) types

  unfoldable pub store_profile : String → Profile → App x (Unit {0})
  store_profile user profile = do
    draw x
    inserted_table ← gets (λ w. x.pages.profiles.insert profile w.pages.profiles)
    stored x put_profiles inserted_table
    affected ← complete_onboarding user
    throw_if (not (nat_eq affected 1)) (http 404 "User not found")
    save_components profile.id 0 default_sections

  unfoldable pub create_profile : CreateProfile → String → App x ProfileResponse
  unfolding Usernames.check
  create_profile dto user = do
    existing ← gets (λ w. x.pages.profiles.find_one (λ p. p.user_id == user) w.pages.profiles)
    throw_if (is_some existing) profile_exists
    checked ← Usernames.check x dto.username
    name ← allowed_name checked
    profile ← gets (new_profile dto user name)
    transaction (store_profile user profile)
    pure (to_profile_response profile)

-- ===== src/Profiles/Appearance.antt =====
-- The look of a page: `updateAppearance` and `getAppearance` of ProfileService, and
-- modules/profile/constants/default-appearance.ts.
use open_profile_be.Entities.Content.{AppearanceComponents, AppearanceSettings, AppearanceStyle}
use open_profile_be.Entities.Pages.{Profile, ProfileDraft}
use open_profile_be.Exec.{gets, infrastructure, pure, require, transaction, ◌>>=◌, ◌>>◌}
use open_profile_be.Prelude.{
  Bool, Option, String, if◌then◌else◌, none, or_else, some, true, truthy, ◌==◌, ◌||◌,
}
use open_profile_be.Profiles.Drafts.{draft_of, save_draft}
use open_profile_be.Profiles.Sections.{own_profile}
use open_profile_be.Profiles.Visibility.{has_profile_id, save_profile}
use open_profile_be.Services.{Services}
use open_profile_be.World.{App}

-- `{ ...base, ...over }`
abbrev pub over_appearance : AppearanceStyle → AppearanceStyle → AppearanceStyle
over_appearance over base = record {
  template = or_else over.template base.template;
  accent_colour = or_else over.accent_colour base.accent_colour;
  background_colour = or_else over.background_colour base.background_colour;
  text_colour = or_else over.text_colour base.text_colour;
  font = or_else over.font base.font;
  corner_style = or_else over.corner_style base.corner_style;
  spacing = or_else over.spacing base.spacing;
  theme = or_else over.theme base.theme;
}

abbrev pub no_appearance : AppearanceStyle
no_appearance = record {
  template = none;
  accent_colour = none;
  background_colour = none;
  text_colour = none;
  font = none;
  corner_style = none;
  spacing = none;
  theme = none;
}

-- `style ?? {}`
abbrev pub or_no_appearance : Option AppearanceStyle → AppearanceStyle
or_no_appearance none = no_appearance
or_no_appearance (some s) = s

abbrev pub default_style : AppearanceStyle
default_style = record {
  template = some "default";
  accent_colour = some "#0EA5E9";
  background_colour = some "#ffffff";
  text_colour = some "#111827";
  font = some "inter";
  corner_style = some "rounded";
  spacing = some 20;
  theme = some "light";
}

abbrev pub no_components : AppearanceComponents
no_components = record {
  bio_style = none;
  links_style = none;
  projects_style = none;
  cta_style = none;
  work_experience_style = none;
  education_style = none;
  skills_style = none;
  awards_style = none;
}

abbrev pub no_settings : AppearanceSettings
no_settings = record { global = none; components = none }

abbrev pub or_no_settings : Option AppearanceSettings → AppearanceSettings
or_no_settings none = no_settings
or_no_settings (some s) = s

abbrev pub or_no_components : Option AppearanceComponents → AppearanceComponents
or_no_components none = no_components
or_no_components (some c) = c

-- `{ ...(existing ?? {}), ...(given ?? {}) }`
abbrev pub merged_style : Option AppearanceStyle → Option AppearanceStyle → Option AppearanceStyle
merged_style existing given =
    some (over_appearance (or_no_appearance given) (or_no_appearance existing))

abbrev pub merged_components : AppearanceComponents → AppearanceComponents → AppearanceComponents
merged_components existing given = record {
  bio_style = merged_style existing.bio_style given.bio_style;
  links_style = merged_style existing.links_style given.links_style;
  projects_style = merged_style existing.projects_style given.projects_style;
  cta_style = merged_style existing.cta_style given.cta_style;
  work_experience_style = merged_style existing.work_experience_style given.work_experience_style;
  education_style = merged_style existing.education_style given.education_style;
  skills_style = merged_style existing.skills_style given.skills_style;
  awards_style = merged_style existing.awards_style given.awards_style;
}

-- `mergedAppearance` of `updateAppearance`
unfoldable pub merged_appearance : AppearanceSettings → AppearanceSettings → AppearanceSettings
merged_appearance existing given = record {
  global = merged_style existing.global given.global;
  components = some (
      merged_components (or_no_components existing.components) (or_no_components given.components));
}

abbrev pub draft_appearance : Option ProfileDraft → Option AppearanceSettings
draft_appearance none = none
draft_appearance (some d) = d.appearance

abbrev pub given_template : AppearanceSettings → Option String
given_template dto = elim dto.global [ none ↦ none | some s ↦ truthy s.template ]

abbrev pub with_appearance : AppearanceSettings → ProfileDraft → ProfileDraft
with_appearance a d = record d { appearance = some a }

-- VALID_FONTS
abbrev pub is_valid_font : String → Bool
is_valid_font font =
    font == "afacad"
    || font == "inter"
    || font == "serif"
    || font == "mono"
    || font == "geologica"
    || font == "manrope"

abbrev pub valid_font : Option String → Option String
valid_font none = default_style.font
valid_font (some font) = if is_valid_font font then some font else default_style.font

abbrev pub with_default : Option AppearanceStyle → Option AppearanceStyle
with_default given = some (over_appearance (or_no_appearance given) default_style)

abbrev pub with_valid_font : AppearanceStyle → AppearanceStyle
with_valid_font s = record s { font = valid_font s.font }

-- What `getAppearance` answers for what is saved.
unfoldable pub shown_appearance : AppearanceSettings → AppearanceSettings
shown_appearance saved =
    let c = or_no_components saved.components in
    record {
      global =
          some (with_valid_font (over_appearance (or_no_appearance saved.global) default_style));
      components = some (record {
        bio_style = with_default c.bio_style;
        links_style = with_default c.links_style;
        projects_style = with_default c.projects_style;
        cta_style = with_default c.cta_style;
        work_experience_style = with_default c.work_experience_style;
        education_style = with_default c.education_style;
        skills_style = with_default c.skills_style;
        awards_style = with_default c.awards_style;
      });
    }

module _ (x : Services) where
  -- The draft and the profile are written together.
  unfoldable pub write_appearance : Profile → AppearanceSettings → App x AppearanceSettings
  unfolding merged_appearance
  write_appearance p dto = do
    locked ← gets (λ w. x.pages.profiles.find_one (has_profile_id x p.id) w.pages.profiles)
    profile ← require locked (infrastructure "EntityNotFoundError")
    existing ← gets (draft_of x p.id)
    let a =
          merged_appearance
            (or_no_settings (or_else (draft_appearance existing) profile.appearance)) dto in
        do
          save_draft x p.id (with_appearance a) existing
          save_profile x (record profile {
            template_type = or_else (given_template dto) profile.template_type;
            has_unpublished_changes = true;
          })
          pure a

  unfoldable pub update_appearance : String → AppearanceSettings → App x AppearanceSettings
  update_appearance user dto = do
    profile ← own_profile x user
    transaction (write_appearance profile dto)

  unfoldable pub get_appearance : String → App x AppearanceSettings
  unfolding shown_appearance
  get_appearance user = do
    profile ← own_profile x user
    gets (λ w.
        shown_appearance (
          or_no_settings (or_else (draft_appearance (draft_of x profile.id w)) profile.appearance)))

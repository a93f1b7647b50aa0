-- ===== src/Profiles/Contents.antt =====
-- `getProfileContent` of ProfileService: what an editor shows, the draft over the profile.
use open_profile_be.Entities.Content.{CtaSection, CtaType, ProfileContent}
use open_profile_be.Entities.Pages.{Profile, ProfileDraft}
use open_profile_be.Exec.{gets, require, ◌>>=◌}
use open_profile_be.Prelude.{Option, String, none, or_else, some, ℕ}
use open_profile_be.Profiles.Documents.{
  default_bio, default_cta, default_links, default_order, default_projects, or_no_content, over_bio,
  over_cta, over_links, over_projects, stored_type, stored_value,
}
use open_profile_be.Profiles.Drafts.{
  DraftResponse, DraftSource, cta_of, draft_of, from_draft, from_published,
}
use open_profile_be.Profiles.Sections.{onboarding_first, profile_of_user}
use open_profile_be.Services.{Services}
use open_profile_be.World.{App, stored}

-- The CTA of `baseContent`, which has no title and no layout.
abbrev pub base_cta : Profile → CtaSection
base_cta p = record (default_cta p) { title = none; subtitle = none; layout = none }

abbrev pub draft_content : Option ProfileDraft → Option ProfileContent
draft_content none = none
draft_content (some d) = d.content

-- `draft?.content?.cta ?? profile.content?.cta ?? {}`
abbrev pub raw_cta : Option ProfileContent → Option ProfileContent → Option CtaSection
raw_cta drafted stored = or_else (cta_of drafted) (cta_of stored)

abbrev pub cta_part_of :
    Option CtaSection → Option CtaSection → Option CtaSection → CtaSection → CtaSection
cta_part_of raw drafted stored base = record (over_cta drafted (over_cta stored base)) {
  cta_type = or_else (stored_type raw) (some CtaType.link);
  value = stored_value raw;
}

-- `content` of `getProfileContent`
unfoldable pub edited_content : Profile → Option ProfileContent → ProfileContent
edited_content p drafted =
    let c = or_no_content p.content in
    let d = or_no_content drafted in
    record {
      section_order = or_else d.section_order (or_else c.section_order (some default_order));
      bio_part = some (over_bio d.bio_part (over_bio c.bio_part (default_bio p)));
      links_part = some (over_links d.links_part (over_links c.links_part default_links));
      projects_part =
          some (over_projects d.projects_part (over_projects c.projects_part default_projects));
      cta_part = some (cta_part_of (raw_cta drafted p.content) d.cta_part c.cta_part (base_cta p));
      work_experience_part = or_else d.work_experience_part c.work_experience_part;
      education_part = or_else d.education_part c.education_part;
      skills_part = or_else d.skills_part c.skills_part;
    }

abbrev pub source_of : Option ProfileDraft → DraftSource
source_of none = from_published
source_of (some d) = from_draft

abbrev pub over_draft :
    {A : Type 0} → (ProfileDraft → Option A) → Option ProfileDraft → Option A → Option A
over_draft field none old = old
over_draft field (some d) old = or_else (field d) old

abbrev pub time_of : Option ProfileDraft → ℕ → ℕ
time_of none old = old
time_of (some d) old = d.updated_at

abbrev pub content_response : Profile → Option ProfileDraft → DraftResponse
content_response p draft = record {
  profile_id = p.id;
  bio = over_draft (λ d. d.bio) draft p.bio;
  photo_url = over_draft (λ d. d.photo_url) draft p.photo_url;
  content = some (edited_content p (draft_content draft));
  theme_settings = over_draft (λ d. d.theme_settings) draft p.theme_settings;
  appearance = over_draft (λ d. d.appearance) draft p.appearance;
  source = source_of draft;
  updated_at = some (time_of draft p.updated_at);
}

module _ (x : Services) where
  abbrev pub content_as : Option Profile → App x DraftResponse
  content_as found = do
    profile ← require found onboarding_first
    gets (λ w. content_response profile (draft_of x profile.id w))

  unfoldable pub get_profile_content : String → App x DraftResponse
  get_profile_content user = do found ← gets (profile_of_user x user); content_as found

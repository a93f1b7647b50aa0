-- ===== src/Profiles/Publishing.antt =====
-- `publishProfile` of ProfileService.
pub mod Applied
use open_profile_be.Accounts.{or_keep}
use open_profile_be.Entities.Content.{LinkItem}
use open_profile_be.Entities.Pages.{Profile, ProfileDraft}
use open_profile_be.Exec.{
  Exception, gets, http, modify, pure, require, transaction, when, ◌>>=◌, ◌>>◌,
}
use open_profile_be.Prelude.{List, Option, String, any, key, none, or_else, some, true, ℕ}
use open_profile_be.Profiles.Drafts.{
  cta_of, draft_of, is_draft_of, items_or_none, link_items, put_drafts, validate_cta_of,
}
use open_profile_be.Profiles.Links.{is_visible_link, validate_link_items}
use open_profile_be.Profiles.Sections.{invalidate_cache, profile_of_user}
use open_profile_be.Profiles.Visibility.{save_profile}
use open_profile_be.Services.{Services}
use open_profile_be.World.{App}
use open_profile_be.Redis

-- What a publish answers: that there was nothing to publish, or the time.
pub data PublishResponse : Type 0 where
  up_to_date : (profile_id username : String) (published_at : ℕ) → PublishResponse
  published : (profile_id username : String) (published_at : ℕ) → PublishResponse

abbrev pub complete_onboarding_first : Exception
complete_onboarding_first = http 404 "Complete onboarding before publishing."

-- `{ ...profile, bio: draft.bio ?? profile.bio, … }`
abbrev pub published_profile : ProfileDraft → ℕ → Profile → Profile
published_profile d now p = record p {
  bio = or_else d.bio p.bio;
  photo_url = or_else d.photo_url p.photo_url;
  content = or_else d.content p.content;
  full_name = or_keep d.full_name p.full_name;
  theme_settings = or_else d.theme_settings p.theme_settings;
  appearance = or_else d.appearance p.appearance;
  is_published = true;
  published_at = some now;
  updated_at = now;
}

module _ (x : Services) where
  -- The links of the draft, or else of the profile, are checked where one of them is visible.
  abbrev pub validate_visible : List LinkItem → App x (Unit {0})
  validate_visible items = when (any is_visible_link items) (validate_link_items x items)

  abbrev pub delete_draft : String → App x (Unit {0})
  delete_draft profile =
      modify λ w. put_drafts x w (x.pages.drafts.delete (is_draft_of profile) w.pages.drafts).1

  abbrev pub publish_draft : Profile → ProfileDraft → App x PublishResponse
  publish_draft p d = do
    validate_visible (items_or_none (or_else (link_items d.content) (link_items p.content)))
    validate_cta_of x (cta_of d.content)
    now ← gets (λ w. w.now)
    save_profile x (published_profile d now p)
    delete_draft p.id
    pure (published p.id p.username now)

  abbrev pub publish_found : Profile → Option ProfileDraft → App x PublishResponse
  publish_found p none = pure (up_to_date p.id p.username p.updated_at)
  publish_found p (some d) = publish_draft p d

  unfoldable pub publish_rows : Profile → App x PublishResponse
  publish_rows p = do draft ← gets (draft_of x p.id); publish_found p draft

  abbrev pub publish_as : Option Profile → App x PublishResponse
  publish_as found = do
    profile ← require found complete_onboarding_first
    result ← transaction (publish_rows profile)
    invalidate_cache x profile.username
    Redis.del x (key "profile:links:" (x.crypto.to_lower profile.username))
    pure result

  unfoldable pub publish_profile : String → App x PublishResponse
  publish_profile user = do found ← gets (profile_of_user x user); publish_as found

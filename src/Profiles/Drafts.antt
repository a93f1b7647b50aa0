-- ===== src/Profiles/Drafts.antt =====
-- The draft of a profile: `upsertDraft` and `getDraftState` of ProfileService.
pub mod Versions
use open_profile_be.Entities.Content.{
  AppearanceSettings, CtaSection, LinkItem, LinksSection, ProfileContent,
}
use open_profile_be.Entities.Pages.{ProfileDraft}
use open_profile_be.Exec.{Exception, gets, http, modify, pure, throw_if, transaction, ◌>>=◌, ◌>>◌}
use open_profile_be.Prelude.{
  Bool, List, Option, String, [], false, if◌then◌else◌, none, not, some, truthy, ℕ, ◌==◌,
}
use open_profile_be.Profiles.Links.{validate_cta_content, validate_link_items}
use open_profile_be.Profiles.Sections.{own_profile}
use open_profile_be.Services.{Services}
use open_profile_be.World.{App, World, draw, stored}

-- A field that a request leaves out is `none`; one that is null is `some none`.
pub record UpsertDraft : Type 0 where
  pub bio : Option (Option String)
  pub photo_url : Option (Option String)
  pub content : Option (Option ProfileContent)
  pub theme_settings : Option (Option String)
  pub appearance : Option (Option AppearanceSettings)

pub data DraftSource : Type 0 where
  from_draft from_published : DraftSource

pub record DraftResponse : Type 0 where
  pub profile_id : String
  pub bio : Option String
  pub photo_url : Option String
  pub content : Option ProfileContent
  pub theme_settings : Option String
  pub appearance : Option AppearanceSettings
  pub source : DraftSource
  pub updated_at : Option ℕ

pub data DraftState : Type 0 where
  no_draft : DraftState
  has_draft : (draft_id : String) (updated_at : ℕ) → DraftState

abbrev pub draft_conflict : Exception
draft_conflict =
    http 409 "Draft was modified by another session. Re-fetch (GET /profiles/content) and retry."

abbrev pub is_draft_of : String → ProfileDraft → Bool
is_draft_of profile d = d.profile_id == profile

-- `dto.bio !== undefined ? dto.bio : (existingDraft?.bio ?? null)`
abbrev pub or_existing : {A : Type 0} → Option (Option A) → Option A → Option A
or_existing none old = old
or_existing (some new) old = new

-- `dto.content?.links?.items`
abbrev pub items_of_links : Option LinksSection → Option (List LinkItem)
items_of_links none = none
items_of_links (some l) = l.items

abbrev pub link_items : Option ProfileContent → Option (List LinkItem)
link_items none = none
link_items (some c) = items_of_links c.links_part

abbrev pub cta_of : Option ProfileContent → Option CtaSection
cta_of none = none
cta_of (some c) = c.cta_part

abbrev pub given_content : Option (Option ProfileContent) → Option ProfileContent
given_content none = none
given_content (some c) = c

abbrev pub items_or_none : Option (List LinkItem) → List LinkItem
items_or_none none = []
items_or_none (some items) = items

module _ (x : Services) where
  abbrev pub draft_of : String → World x → Option ProfileDraft
  draft_of profile w = x.pages.drafts.find_one (is_draft_of profile) w.pages.drafts

  abbrev pub put_drafts : World x → x.pages.drafts.Table → World x
  put_drafts w t = record w { pages = record (w.pages) { drafts = t } }

  abbrev pub validate_links_of : Option (List LinkItem) → App x (Unit {0})
  validate_links_of none = pure tt
  validate_links_of (some items) = validate_link_items x items

  abbrev pub validate_cta_of : Option CtaSection → App x (Unit {0})
  validate_cta_of none = pure tt
  validate_cta_of (some c) = validate_cta_content x c

  -- Whether a caller's version is not that of the draft.
  abbrev pub is_stale : Option String → ProfileDraft → Bool
  is_stale none d = false
  is_stale (some version) d = not (x.web.to_iso_string d.updated_at == version)

  -- The fields that a request makes of a draft.
  abbrev pub with_fields : UpsertDraft → ProfileDraft → ProfileDraft
  with_fields dto d = record d {
    bio = or_existing dto.bio d.bio;
    photo_url = or_existing dto.photo_url d.photo_url;
    content = or_existing dto.content d.content;
    theme_settings = or_existing dto.theme_settings d.theme_settings;
    appearance = or_existing dto.appearance d.appearance;
  }

  -- The time of an UPDATE, and the row afterwards. A save that changes no column makes no UPDATE,
  -- and then the time of change stays.
  unfoldable pub time_of_update : ℕ → ProfileDraft → ProfileDraft → Option ℕ
  time_of_update now d e = if x.page_codec.is_unchanged d e then none else some now

  unfoldable pub updated_row : ℕ → ProfileDraft → ProfileDraft → ProfileDraft
  updated_row now d e = record e {
    updated_at = if x.page_codec.is_unchanged d e then d.updated_at else now;
  }

  abbrev pub updated_draft : UpsertDraft → ℕ → ProfileDraft → ProfileDraft
  updated_draft dto now d = updated_row now d (with_fields dto d)

  abbrev pub blank_draft : String → String → ProfileDraft
  blank_draft id profile = record {
    id = id;
    profile_id = profile;
    full_name = none;
    bio = none;
    photo_url = none;
    content = none;
    appearance = none;
    theme_settings = none;
    updated_at = 0;
  }

  abbrev pub has_draft_id : String → ProfileDraft → Bool
  has_draft_id id d = d.id == id

  -- `draftRepo.save(draft)`, over the existing draft or as a new one: the row, and the time that the
  -- saved entity has, which is undefined where no UPDATE was made.
  abbrev pub save_draft :
      String → (ProfileDraft → ProfileDraft) → Option ProfileDraft → App x (ProfileDraft × Option ℕ)
  save_draft profile change (some d) = do
    now ← gets (λ w. w.now)
    modify (λ w. put_drafts w (
        x.pages.drafts.update (has_draft_id d.id) (λ _. updated_row now d (change d))
          w.pages.drafts))
    pure (updated_row now d (change d), time_of_update now d (change d))
  save_draft profile change none = do
    n ← draw x
    now ← gets (λ w. w.now)
    let row = record (change (blank_draft (x.crypto.uuid n) profile)) { updated_at = now } in
        do
          inserted_table ← gets (λ w. x.pages.drafts.insert row w.pages.drafts)
          stored x put_drafts inserted_table
          pure (row, some now)

  -- The version is compared where the caller sent one and there is a draft.
  abbrev pub refuse_stale : Option String → Option ProfileDraft → App x (Unit {0})
  refuse_stale version none = pure tt
  refuse_stale version (some d) = throw_if (is_stale version d) draft_conflict

  unfoldable pub write_draft :
      String → UpsertDraft → Option String → App x (ProfileDraft × Option ℕ)
  write_draft profile dto version = do
    existing ← gets (draft_of profile)
    refuse_stale (truthy version) existing
    save_draft profile (with_fields dto) existing

  abbrev pub draft_response : String → ProfileDraft × Option ℕ → DraftResponse
  draft_response profile saved =
      let d = saved.0 in
      record {
        profile_id = profile;
        bio = d.bio;
        photo_url = d.photo_url;
        content = d.content;
        theme_settings = d.theme_settings;
        appearance = d.appearance;
        source = from_draft;
        updated_at = saved.1;
      }

  unfoldable pub upsert_draft : String → UpsertDraft → Option String → App x DraftResponse
  upsert_draft user dto version = do
    profile ← own_profile x user
    validate_links_of (link_items (given_content dto.content))
    validate_cta_of (cta_of (given_content dto.content))
    saved ← transaction (write_draft profile.id dto version)
    pure (draft_response profile.id saved)

  abbrev pub state_of : Option ProfileDraft → DraftState
  state_of none = no_draft
  state_of (some d) = has_draft d.id d.updated_at

  unfoldable pub get_draft_state : String → App x DraftState
  get_draft_state user = do
    profile ← own_profile x user
    gets (λ w. state_of (draft_of profile.id w))

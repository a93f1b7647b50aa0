-- ===== src/Profiles/Drafts/Versions.antt =====
-- What an upsert does to the draft, and what protects a draft from a lost update.
use open_profile_be.Profiles.Precedence.{Given, Shown}
use open_profile_be.Entities.Content.{ProfileContent}
use open_profile_be.Entities.Pages.{Profile, ProfileDraft}
use open_profile_be.Exec.{Returned, ok}
use open_profile_be.Prelude.{
  ℕ, if◌then◌else◌, Option, String, ap, arith, false, first, first-passes, map_where, some, sym,
  ◌==◌, ◌∙◌, ◌≡◌,
}
use open_profile_be.Profiles.Contents.{edited_content}
use open_profile_be.Profiles.Drafts.{
  DraftResponse, from_draft, time_of_update, updated_row, with_fields, UpsertDraft, draft_of,
  draft_response, has_draft_id, is_draft_of, updated_draft, upsert_draft, write_draft,
}
use open_profile_be.Profiles.Links.{validate_cta_content, validate_link_items}
use open_profile_be.Profiles.Sections.{is_of_user, profile_of_user}
use open_profile_be.Services.{Services}
use open_profile_be.Services.Database.{first-replaced}
use open_profile_be.World.{World}

module _ (x : Services) (user : String) where
  -- A version that is not the draft's is refused, and nothing is written.
  upsert_draft-refused :
      (dto : UpsertDraft) (version : String) (p : Profile) (d : ProfileDraft) (w : World x)
      → profile_of_user x user w ≡ some p
      → draft_of x p.id w ≡ some d
      → (version == "") ≡ false
      → (x.web.to_iso_string d.updated_at == version) ≡ false
      → ((upsert_draft x user dto (some version) w).1 ≡ w)
        × (¬ Returned (upsert_draft x user dto (some version) w).0)
  unfolding upsert_draft write_draft validate_link_items validate_cta_content
  upsert_draft-refused dto version p d w owner drafted given stale = (
    ground (arith, owner, drafted, given, stale),
    λ h. ground (arith, owner, drafted, given, stale, h),
  )

module _ (x : Services) (user : String) (dto : UpsertDraft) (version : Option String) (p : Profile)
    (d : ProfileDraft) (w : World x) (owner : profile_of_user x user w ≡ some p)
    (drafted : draft_of x p.id w ≡ some d) where
  abbrev saved : ProfileDraft
  saved = updated_draft x dto w.now d

  abbrev saved_at : Option ℕ
  saved_at = time_of_update x w.now d (with_fields x dto d)

  upsert_draft-written :
      Returned (upsert_draft x user dto version w).0
      → ((upsert_draft x user dto version w).0 ≡ ok (draft_response x p.id (saved, saved_at)))
        × ((upsert_draft x user dto version w).1.pages.profiles ≡ w.pages.profiles)
        × (x.pages.drafts.rows (upsert_draft x user dto version w).1.pages.drafts
            ≡ map_where (has_draft_id x d.id) (λ _. saved) (x.pages.drafts.rows w.pages.drafts))
  unfolding upsert_draft write_draft validate_link_items validate_cta_content
  upsert_draft-written h = ground (
    arith,
    owner,
    drafted,
    x.pages.drafts.rows-update (has_draft_id x d.id) (λ _. saved) w.pages.drafts,
  )

  abbrev after : World x
  after = (upsert_draft x user dto version w).1

  module _ (h : Returned (upsert_draft x user dto version w).0) where
    owner_after : profile_of_user x user after ≡ some p
    owner_after =
        ap (x.pages.profiles.find_one (is_of_user user)) (upsert_draft-written h).1 ∙ owner

    draft_after : draft_of x p.id after ≡ some saved
    unfolding updated_row
    draft_after =
        let found = x.pages.drafts.find_one_lem (is_draft_of p.id) w.pages.drafts in
        x.pages.drafts.find_one_lem (is_draft_of p.id) after.pages.drafts
        ∙ ap (first (is_draft_of p.id)) (upsert_draft-written h).2
        ∙ first-replaced (λ (r : ProfileDraft). r.id) (is_draft_of p.id) d saved
            (x.pages.drafts.rows w.pages.drafts)
            (first-passes (is_draft_of p.id) (x.pages.drafts.rows w.pages.drafts) d
              (sym found ∙ drafted))
            (sym found ∙ drafted)

    -- What the editor reads of a profile after an upsert over a draft.
    pub record IsEdited (r : DraftResponse) : Type 0 where
      pub profile_id : r.profile_id ≡ p.id
      pub bio : Shown dto.bio d.bio p.bio r.bio
      pub photo_url : Shown dto.photo_url d.photo_url p.photo_url r.photo_url
      pub theme_settings :
          Shown dto.theme_settings d.theme_settings p.theme_settings r.theme_settings
      pub appearance : Shown dto.appearance d.appearance p.appearance r.appearance
      pub written_content : Option ProfileContent
      pub written_content_lem : Given dto.content d.content written_content
      pub content : r.content ≡ some (edited_content p written_content)
      pub source : r.source ≡ from_draft

    -- After an upsert that returned and changed a column of the draft, a request with the version
    -- from before it is refused and writes nothing, where the two times of change have different
    -- texts.
    pub upsert_draft-stale :
        (later : UpsertDraft)
        → x.page_codec.is_unchanged d (with_fields x dto d) ≡ false
        → (x.web.to_iso_string d.updated_at == "") ≡ false
        → (x.web.to_iso_string w.now == x.web.to_iso_string d.updated_at) ≡ false
        → ((upsert_draft x user later (some (x.web.to_iso_string d.updated_at)) after).1 ≡ after)
          × (¬ Returned
              (upsert_draft x user later (some (x.web.to_iso_string d.updated_at)) after).0)
    unfolding updated_row
    upsert_draft-stale later changed given moved =
        upsert_draft-refused x user later (x.web.to_iso_string d.updated_at) p saved after
          owner_after draft_after given
          (ap
              (λ b.
                x.web.to_iso_string (if b then d.updated_at else w.now)
                == x.web.to_iso_string d.updated_at)
              changed
            ∙ moved)

-- ===== src/Tests/Drafts.antt =====
-- A draft of a concrete profile, saved and published.
use open_profile_be.Entities.Pages.{Profile, ProfileDraft}
use open_profile_be.Exec.{Returned, ok}
use open_profile_be.Prelude.{[], any, false, map_where, none, refl, some, ◌&&◌, ◌∷◌, ◌≡◌}
use open_profile_be.Profiles.Drafts.{UpsertDraft, upsert_draft, write_draft}
use open_profile_be.Profiles.Drafts.Versions.{upsert_draft-stale}
use open_profile_be.Profiles.Links.{
  has_failures, is_visible_link, validate_cta_content, validate_link_items,
}
use open_profile_be.Profiles.Publishing.{publish_profile, publish_rows, published}
use open_profile_be.Profiles.Publishing.Applied.{IsPublished, publish_profile-applied}
use open_profile_be.Profiles.Sections.{invalidate_cache}
use open_profile_be.Profiles.Visibility.{has_profile_id}
use open_profile_be.Samples.{sample}
use open_profile_be.Tests.Sections.{home, with_home}
use open_profile_be.World.{World}
use open_profile_be.Redis

abbrev drafted_row : ProfileDraft
drafted_row = record {
  id = "d";
  profile_id = "p";
  full_name = none;
  bio = some "new";
  photo_url = none;
  content = none;
  appearance = none;
  theme_settings = none;
  updated_at = 3;
}

abbrev drafting : World sample
drafting = record with_home { pages = record (with_home.pages) { drafts = drafted_row ∷ [] } }

publishes : Returned (publish_profile sample "1" drafting).0
unfolding publish_profile publish_rows invalidate_cache Redis.del validate_link_items
    validate_cta_content
publishes = tt

publish_profile-applied_example :
    (q : Profile) × IsPublished sample "1" home drafted_row drafting refl refl q
    × ((publish_profile sample "1" drafting).0 ≡ ok (published "p" "ann" 1000000))
    × (any is_visible_link [] && has_failures sample [] ≡ false)
    × ((publish_profile sample "1" drafting).1.pages.profiles
        ≡ map_where (has_profile_id sample "p") (λ _. q) (home ∷ []))
    × ((publish_profile sample "1" drafting).1.pages.drafts ≡ [])
    × (sample.redis.entry (publish_profile sample "1" drafting).1.redis "profile:ann" ≡ none)
    × (sample.redis.entry (publish_profile sample "1" drafting).1.redis "profile:links:ann" ≡ none)
publish_profile-applied_example =
    publish_profile-applied sample "1" home drafted_row drafting refl refl publishes

abbrev edit : UpsertDraft
edit = record {
  bio = some (some "edited");
  photo_url = none;
  content = none;
  theme_settings = none;
  appearance = none;
}

-- At an early time, since the sample writes a time in unary.
abbrev editing : World sample
editing = record drafting { now = 1000 }

abbrev soon : World sample
soon = record drafting { now = 5 }

saves_soon : Returned (upsert_draft sample "1" edit none soon).0
unfolding upsert_draft write_draft
saves_soon = tt

upsert_draft-stale_example :
    ((upsert_draft sample "1" edit
        (some (sample.web.to_iso_string 3))
        (upsert_draft sample "1" edit none soon).1).1
      ≡ (upsert_draft sample "1" edit none soon).1)
    × (¬ Returned
        (upsert_draft sample "1" edit
          (some (sample.web.to_iso_string 3))
          (upsert_draft sample "1" edit none soon).1).0)
upsert_draft-stale_example =
    upsert_draft-stale sample "1" edit none home drafted_row soon refl refl saves_soon edit refl
      refl refl

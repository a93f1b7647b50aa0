-- ===== src/Tests/Pages.antt =====
-- The public page of a concrete profile.
use open_profile_be.Entities.Pages.{ProfileComponent, Skill}
use open_profile_be.Exec.{Returned, err}
use open_profile_be.Prelude.{[], arith, false, inl, inr, none, refl, some, ◌∷◌, ◌≡◌}
use open_profile_be.Profiles.Documents.{merged_content, no_content}
use open_profile_be.Profiles.Pages.{is_enabled, serialize, shown_sections}
use open_profile_be.Profiles.Pages.Cache.{
  build_locked, build_page, get_public_profile, page_not_found, read_page, write_back,
}
use open_profile_be.Profiles.Pages.Hidden.{serialize-hides}
use open_profile_be.Profiles.Pages.Private.{update_visibility-private}
use open_profile_be.Profiles.Sections.{invalidate_cache}
use open_profile_be.Profiles.Visibility.{update_visibility}
use open_profile_be.Samples.{sample}
use open_profile_be.Tests.Sections.{home, with_home}
use open_profile_be.World.{World}
use open_profile_be.Redis

abbrev hidden_skills : ProfileComponent
hidden_skills = record {
  id = "k";
  profile_id = "p";
  section_type = "skills";
  title = none;
  content = none;
  metadata = none;
  is_enabled = false;
  display_order = 0;
}

abbrev secret : Skill
secret = record { id = "a"; profile_id = "p"; name = "x"; level = none; display_order = 0 }

skills_off :
    is_enabled (record home { content = some no_content }) (hidden_skills ∷ []) "skills" ≡ false
unfolding is_enabled
skills_off = refl

serialize-hides_example :
    serialize
      (record home { content = some no_content })
      (secret ∷ [])
      []
      (hidden_skills ∷ [])
      []
      []
    ≡ serialize (record home { content = some no_content }) [] [] (hidden_skills ∷ []) [] []
serialize-hides_example =
    serialize-hides home no_content (hidden_skills ∷ []) (secret ∷ []) [] [] [] [] [] [] [] none
      none none none none (inl skills_off) (inr refl) (inr refl) (inr refl) (inr (refl, refl))
      (inr refl) (inr refl) (inr refl)

-- The page of the profile is served, and is cached until the owner closes it.
abbrev visited : World sample
visited = (get_public_profile sample "ann" with_home).1

served : Returned (get_public_profile sample "ann" with_home).0
unfolding get_public_profile build_locked build_page write_back read_page serialize merged_content
    is_enabled shown_sections Redis.get Redis.set Redis.set_nx Redis.del
served = tt

closes : Returned (update_visibility sample "1" false with_home).0
unfolding update_visibility invalidate_cache Redis.del
closes = tt

update_visibility-private_example :
    (get_public_profile sample "ann"
      (write_back sample "ann" "p" "old" (update_visibility sample "1" false with_home).1).1).0
    ≡ err page_not_found
update_visibility-private_example =
    update_visibility-private sample "1" home with_home refl refl "ann" "old" refl refl
      (omega arith) closes

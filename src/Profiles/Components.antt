-- ===== src/Profiles/Components.antt =====
-- The components of a profile, which say what sections its page shows and in which order:
-- ProfileService, and modules/profile/dto/patch-component.dto.ts.
use open_profile_be.Accounts.{or_keep}
use open_profile_be.Entities.Pages.{ProfileComponent}
use open_profile_be.Exec.{http, pure}
use open_profile_be.Prelude.{Bool, List, Option, String, key, refl}
use open_profile_be.Profiles.Reorder.{reorder}
use open_profile_be.Profiles.Sections.{Section, change_row}
use open_profile_be.Services.{Services}
use open_profile_be.World.{App}

-- A field that is left out is `none`; one that is null is `some none`.
pub record PatchComponent : Type 0 where
  pub is_enabled : Option Bool
  pub title : Option (Option String)
  pub content : Option (Option String)
  pub metadata : Option (Option String)

abbrev pub with_patch : PatchComponent → ProfileComponent → ProfileComponent
with_patch dto r = record r {
  is_enabled = or_keep dto.is_enabled r.is_enabled;
  title = or_keep dto.title r.title;
  content = or_keep dto.content r.content;
  metadata = or_keep dto.metadata r.metadata;
}

module _ (x : Services) where
  -- `this.componentRepo`, and what the errors say.
  abbrev pub components_section : Section x ProfileComponent
  components_section = record {
    repository = x.pages.components;
    table = λ p. p.components;
    put = λ t p. record p { components = t };
    id = λ r. r.id;
    profile_id = λ r. r.profile_id;
    display_order = λ r. r.display_order;
    with_order = λ n r. record r { display_order = n };
    not_found = λ id. http 404 (key "Component " (key id " not found."));
    not_owned = http 403 "Component does not belong to the authenticated user.";
    foreign_ids = http 403 "One or more componentIds belong to a different profile.";
    table-put = λ t p. refl;
    profiles-put = λ t p. refl;
    id-with_order = λ n r. refl;
    profile_id-with_order = λ n r. refl;
    display_order-with_order = λ n r. refl;
  }

  unfoldable pub patch_component : (user id : String) → PatchComponent → App x ProfileComponent
  unfolding change_row
  patch_component user id dto =
      change_row x components_section user id (with_patch dto) (λ row. pure tt)

  unfoldable pub reorder_components : String → List String → App x (List ProfileComponent)
  unfolding reorder
  reorder_components user ids = reorder x components_section user ids

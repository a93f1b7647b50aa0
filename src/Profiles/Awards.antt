-- ===== src/Profiles/Awards.antt =====
-- The awards of a profile: ProfileService, and modules/profile/dto/award.dto.ts.
use open_profile_be.Accounts.{or_keep}
use open_profile_be.Entities.Pages.{Award}
use open_profile_be.Exec.{http, pure}
use open_profile_be.Prelude.{List, Option, String, key, refl, ℕ}
use open_profile_be.Profiles.Reorder.{reorder}
use open_profile_be.Profiles.Sections.{Section, add_row, change_row, delete_row, list_rows}
use open_profile_be.Services.{Services}
use open_profile_be.World.{App}

pub record CreateAward : Type 0 where
  pub title : String
  pub issuer : String
  pub award_date : String
  pub description : Option String
  pub credential_url : Option String

pub record UpdateAward : Type 0 where
  pub title : Option String
  pub issuer : Option String
  pub award_date : Option String
  pub description : Option (Option String)
  pub credential_url : Option (Option String)

abbrev pub with_award : UpdateAward → Award → Award
with_award dto r = record r {
  title = or_keep dto.title r.title;
  issuer = or_keep dto.issuer r.issuer;
  award_date = or_keep dto.award_date r.award_date;
  description = or_keep dto.description r.description;
  credential_url = or_keep dto.credential_url r.credential_url;
}

abbrev pub new_award : CreateAward → String → String → ℕ → Award
new_award dto id profile place = record {
  id = id;
  profile_id = profile;
  title = dto.title;
  issuer = dto.issuer;
  award_date = dto.award_date;
  description = dto.description;
  credential_url = dto.credential_url;
  display_order = place;
}

module _ (x : Services) where
  -- `this.awardRepo`, and what the errors say.
  abbrev pub awards_section : Section x Award
  awards_section = record {
    repository = x.pages.awards;
    table = λ p. p.awards;
    put = λ t p. record p { awards = t };
    id = λ r. r.id;
    profile_id = λ r. r.profile_id;
    display_order = λ r. r.display_order;
    with_order = λ n r. record r { display_order = n };
    not_found = λ id. http 404 (key "Award " (key id " not found."));
    not_owned = http 403 "Award does not belong to the authenticated user.";
    foreign_ids = http 403 "One or more awardIds belong to a different profile.";
    table-put = λ t p. refl;
    profiles-put = λ t p. refl;
    id-with_order = λ n r. refl;
    profile_id-with_order = λ n r. refl;
    display_order-with_order = λ n r. refl;
  }

  unfoldable pub create_award : String → CreateAward → App x Award
  unfolding add_row
  create_award user dto = add_row x awards_section user (new_award dto) (λ row. pure tt)

  unfoldable pub list_awards : String → App x (List Award)
  unfolding list_rows
  list_awards user = list_rows x awards_section user

  unfoldable pub update_award : (user id : String) → UpdateAward → App x Award
  unfolding change_row
  update_award user id dto = change_row x awards_section user id (with_award dto) (λ row. pure tt)

  unfoldable pub delete_award : (user id : String) → App x (Unit {0})
  unfolding delete_row
  delete_award user id = delete_row x awards_section user id

  unfoldable pub reorder_awards : String → List String → App x (List Award)
  unfolding reorder
  reorder_awards user ids = reorder x awards_section user ids

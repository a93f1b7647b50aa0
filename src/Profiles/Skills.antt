-- ===== src/Profiles/Skills.antt =====
-- The skills of a profile: ProfileService, and modules/profile/dto/skill.dto.ts.
use open_profile_be.Accounts.{or_keep}
use open_profile_be.Entities.Pages.{Skill}
use open_profile_be.Exec.{http, pure}
use open_profile_be.Prelude.{List, Option, String, key, refl, ℕ}
use open_profile_be.Profiles.Reorder.{reorder}
use open_profile_be.Profiles.Sections.{Section, add_row, change_row, delete_row, list_rows}
use open_profile_be.Services.{Services}
use open_profile_be.World.{App}

pub record CreateSkill : Type 0 where
  pub name : String
  pub level : Option String

-- A field that a PATCH leaves out is `none`; a level that is null is `some none`.
pub record UpdateSkill : Type 0 where
  pub name : Option String
  pub level : Option (Option String)

-- `if (dto.name !== undefined) skill.name = dto.name; …`
abbrev pub with_skill : UpdateSkill → Skill → Skill
with_skill dto r = record r { name = or_keep dto.name r.name; level = or_keep dto.level r.level }

abbrev pub new_skill : CreateSkill → String → String → ℕ → Skill
new_skill dto id profile place = record {
  id = id;
  profile_id = profile;
  name = dto.name;
  level = dto.level;
  display_order = place;
}

module _ (x : Services) where
  -- `this.skillRepo`, and what the errors say.
  abbrev pub skills_section : Section x Skill
  skills_section = record {
    repository = x.pages.skills;
    table = λ p. p.skills;
    put = λ t p. record p { skills = t };
    id = λ r. r.id;
    profile_id = λ r. r.profile_id;
    display_order = λ r. r.display_order;
    with_order = λ n r. record r { display_order = n };
    not_found = λ id. http 404 (key "Skill " (key id " not found."));
    not_owned = http 403 "Skill does not belong to the authenticated user.";
    foreign_ids = http 403 "One or more skillIds belong to a different profile.";
    table-put = λ t p. refl;
    profiles-put = λ t p. refl;
    id-with_order = λ n r. refl;
    profile_id-with_order = λ n r. refl;
    display_order-with_order = λ n r. refl;
  }

  unfoldable pub create_skill : String → CreateSkill → App x Skill
  unfolding add_row
  create_skill user dto = add_row x skills_section user (new_skill dto) (λ row. pure tt)

  unfoldable pub list_skills : String → App x (List Skill)
  unfolding list_rows
  list_skills user = list_rows x skills_section user

  unfoldable pub update_skill : (user id : String) → UpdateSkill → App x Skill
  unfolding change_row
  update_skill user id dto = change_row x skills_section user id (with_skill dto) (λ row. pure tt)

  unfoldable pub delete_skill : (user id : String) → App x (Unit {0})
  unfolding delete_row
  delete_skill user id = delete_row x skills_section user id

  unfoldable pub reorder_skills : String → List String → App x (List Skill)
  unfolding reorder
  reorder_skills user ids = reorder x skills_section user ids

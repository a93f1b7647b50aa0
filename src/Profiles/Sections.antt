-- ===== src/Profiles/Sections.antt =====
-- The lists of a profile's page: skills, education, work experience, awards and components.
-- ProfileService repeats one body for each list, over another repository; `Section` is what the
-- bodies differ in.
pub mod Ownership
pub mod Places
pub mod Rules
use open_profile_be.Entities.Pages.{Profile}
use open_profile_be.Exec.{Exception, gets, http, modify, pure, require, throw_if, ◌>>=◌, ◌>>◌}
use open_profile_be.Prelude.{
  Bool, List, Option, String, is_some, key, none, not, some, suc, ℕ, ◌&&◌, ◌==◌, ◌≡◌,
}
use open_profile_be.Services.{Services}
use open_profile_be.Services.Database.{Repository}
use open_profile_be.World.{App, Pages, World, draw, stored}
use open_profile_be.Redis

-- `this.skillRepo`, the columns that the body reads, and the texts of its errors.
pub record Section (x : Services) (Row : Type 0) : Type 1 where
  pub repository : Repository Row
  pub table : Pages x → repository.Table
  pub put : repository.Table → Pages x → Pages x
  pub id : Row → String
  pub profile_id : Row → String
  pub display_order : Row → ℕ
  pub with_order : ℕ → Row → Row
  pub not_found : String → Exception
  pub not_owned : Exception
  pub foreign_ids : Exception
  pub table-put : (t : repository.Table) (p : Pages x) → table (put t p) ≡ t
  pub profiles-put : (t : repository.Table) (p : Pages x) → (put t p).profiles ≡ p.profiles
  pub id-with_order : (n : ℕ) (r : Row) → id (with_order n r) ≡ id r
  pub profile_id-with_order : (n : ℕ) (r : Row) → profile_id (with_order n r) ≡ profile_id r
  pub display_order-with_order : (n : ℕ) (r : Row) → display_order (with_order n r) ≡ n

abbrev pub onboarding_first : Exception
onboarding_first = http 404 "Profile not found. Please complete onboarding first."

-- `where: { userId, deletedAt: IsNull() }`
abbrev pub is_of_user : String → Profile → Bool
is_of_user user p = p.user_id == user && not (is_some p.deleted_at)

-- `where: { id, deletedAt: IsNull() }`
abbrev pub is_profile : String → Profile → Bool
is_profile id p = p.id == id && not (is_some p.deleted_at)

-- `(max ?? -1) + 1`
abbrev pub next_order : Option ℕ → ℕ
next_order none = 0
next_order (some max) = suc max

module _ (x : Services) where
  unfoldable pub invalidate_cache : String → App x (Unit {0})
  invalidate_cache username = Redis.del x (key "profile:" (x.crypto.to_lower username))

  abbrev pub profile_of_user : String → World x → Option Profile
  profile_of_user user w = x.pages.profiles.find_one (is_of_user user) w.pages.profiles

  abbrev pub profile_by_id : String → World x → Option Profile
  profile_by_id id w = x.pages.profiles.find_one (is_profile id) w.pages.profiles

  abbrev pub own_profile : String → App x Profile
  own_profile user = do profile ← gets (profile_of_user user); require profile onboarding_first

  module _ {Row : Type 0} (s : Section x Row) where
    abbrev pub table_of : World x → s.repository.Table
    table_of w = s.table w.pages

    abbrev pub put_table : s.repository.Table → World x → World x
    put_table t w = record w { pages = s.put t w.pages }

    -- The rows of the list's table, and what a step leaves there.
    abbrev pub rows_at : World x → List Row
    rows_at w = s.repository.rows (table_of w)

    abbrev pub rows_after : {A : Type 0} → App x A → World x → List Row
    rows_after m w = rows_at (m w).1

    abbrev pub has_row_id : String → Row → Bool
    has_row_id id r = s.id r == id

    abbrev pub is_of_profile : String → Row → Bool
    is_of_profile profile r = s.profile_id r == profile

    -- `save` of a row that was read, and `remove` of it.
    abbrev pub save_row : Row → App x (Unit {0})
    save_row row =
        modify
          λ w. put_table (s.repository.update (has_row_id (s.id row)) (λ _. row) (table_of w)) w

    abbrev pub remove_row : Row → App x (Unit {0})
    remove_row row =
        modify λ w. put_table (s.repository.delete (has_row_id (s.id row)) (table_of w)).1 w

    -- `getOwnedSkill`: the row, and the profile that it is on, which must be the user's.
    unfoldable pub get_owned : (user id : String) → App x (Row × Profile)
    get_owned user id = do
      found ← gets (λ w. s.repository.find_one (has_row_id id) (table_of w))
      row ← require found (s.not_found id)
      owner ← gets (profile_by_id (s.profile_id row))
      profile ← require owner (s.not_found id)
      throw_if (not (profile.user_id == user)) s.not_owned
      pure (row, profile)

    -- The new row's id is the next random value, and its place is after every other.
    abbrev pub new_row : (String → String → ℕ → Row) → Profile → World x → Row
    new_row new profile w = new (x.crypto.uuid w.drawn) profile.id (
        next_order
          (s.repository.select_max s.display_order (is_of_profile profile.id) (table_of w)))

    abbrev pub store_new : String → Row → App x Row
    store_new username row = do
      draw x
      inserted_table ← gets (λ w. s.repository.insert row (table_of w))
      stored x (λ w t. put_table t w) inserted_table
      invalidate_cache username
      pure row

    abbrev pub add_to :
        (String → String → ℕ → Row) → (Row → App x (Unit {0})) → Option Profile → App x Row
    add_to new check found = do
      profile ← require found onboarding_first
      row ← gets (new_row new profile)
      check row
      store_new profile.username row

    -- `createSkill`: the new row is built from its id, its profile and its place, and checked.
    unfoldable pub add_row :
        String → (new : String → String → ℕ → Row) → (check : Row → App x (Unit {0})) → App x Row
    add_row user new check = do found ← gets (profile_of_user user); add_to new check found

    -- `listSkills`
    unfoldable pub list_rows : String → App x (List Row)
    list_rows user = do
      profile ← own_profile user
      gets (λ w. s.repository.find_ordered s.display_order (is_of_profile profile.id) (table_of w))

    -- What an update does with the row that it is allowed to change.
    abbrev pub write_change : (Row → Row) → (Row → App x (Unit {0})) → Row × Profile → App x Row
    write_change change check owned = do
      check (change owned.0)
      save_row (change owned.0)
      invalidate_cache owned.1.username
      pure (change owned.0)

    -- `updateSkill`: the given columns are written over the row, and the result is checked.
    unfoldable pub change_row :
        (user id : String) → (change : Row → Row) → (check : Row → App x (Unit {0})) → App x Row
    change_row user id change check = do owned ← get_owned user id; write_change change check owned

    abbrev pub remove_owned : Row × Profile → App x (Unit {0})
    remove_owned owned = do remove_row owned.0; invalidate_cache owned.1.username

    -- `deleteSkill`
    unfoldable pub delete_row : (user id : String) → App x (Unit {0})
    delete_row user id = do owned ← get_owned user id; remove_owned owned

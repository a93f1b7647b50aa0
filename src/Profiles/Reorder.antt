-- ===== src/Profiles/Reorder.antt =====
-- The reorder operation of a list of a profile's page, which ProfileService repeats for each list.
pub mod Lists
pub mod Rows
pub mod Answer
pub mod Others
pub mod Rules
use open_profile_be.Entities.Pages.{Profile}
use open_profile_be.Exec.{
  Exception, gets, http, modify, pure, require, throw_if, transaction, when, ◌>>=◌, ◌>>◌,
}
use open_profile_be.Prelude.{
  Bool, List, Option, String, [], any, false, if◌then◌else◌, is_some, map, none, not, reject, some,
  true, ◌==◌, ◌||◌, ◌∷◌,
}
use open_profile_be.Profiles.Sections.{
  Section, has_row_id, invalidate_cache, is_of_profile, profile_of_user, put_table, table_of,
}
use open_profile_be.Services.{Services}
use open_profile_be.World.{App, World}

abbrev pub no_profile_for_user : Exception
no_profile_for_user = http 404 "Profile not found for user."

-- ComponentSetMismatchException
abbrev pub set_mismatch : Exception
set_mismatch = http 409 "COMPONENT_SET_MISMATCH"

abbrev pub is_among : List String → String → Bool
is_among ids id = any (λ j. j == id) ids

abbrev pub is_empty : {A : Type 0} → List A → Bool
is_empty [] = true
is_empty (a ∷ xs) = false

module _ (x : Services) {Row : Type 0} (s : Section x Row) where
  abbrev pub rows_of_profile : String → World x → List Row
  rows_of_profile profile w = s.repository.find (is_of_profile x s profile) (table_of x s w)

  -- Ids that no row of the profile has, and ids of its rows that were not submitted.
  abbrev pub foreign : List Row → List String → List String
  foreign current ids = reject (λ i. any (has_row_id x s i) current) ids

  abbrev pub missing : List Row → List String → List String
  missing current ids = reject (is_among ids) (map s.id current)

  -- An id of another profile's row is forbidden.
  abbrev pub refuse_foreign : List String → App x (Unit {0})
  refuse_foreign ids = do
    rows ← gets (λ w. s.repository.find (λ r. is_among ids (s.id r)) (table_of x s w))
    throw_if (not (is_empty rows)) s.foreign_ids

  abbrev pub place : List String → Row → Row
  place ids r = elim (x.pages.joined ids (s.id r)) [ none ↦ r | some i ↦ s.with_order i r ]

  -- `UPDATE skills SET display_order = v.new_order FROM (VALUES …) AS v(id, new_order) …`
  abbrev pub write_orders : List String → App x (Unit {0})
  write_orders ids = modify λ w.
      put_table x s
        (s.repository.update (λ r. is_some (x.pages.joined ids (s.id r))) (place ids)
          (table_of x s w))
        w

  unfoldable pub reorder_rows : String → List String → App x (List Row)
  reorder_rows profile ids = do
    current ← gets (rows_of_profile profile)
    when (not (is_empty (foreign current ids))) (refuse_foreign (foreign current ids))
    throw_if (not (is_empty (missing current ids)) || not (is_empty (foreign current ids)))
        set_mismatch
    (if is_empty ids
        then pure []
        else write_orders ids
          >> gets (λ w.
            s.repository.find_ordered s.display_order (is_of_profile x s profile) (table_of x s w)))

  -- What follows the read of the user's profile.
  abbrev pub reorder_found : List String → Option Profile → App x (List Row)
  reorder_found ids found = do
    profile ← require found no_profile_for_user
    result ← transaction (reorder_rows profile.id ids)
    invalidate_cache x profile.username
    pure result

  -- `reorderSkills`
  unfoldable pub reorder : String → List String → App x (List Row)
  reorder user ids = do found ← gets (profile_of_user x user); reorder_found ids found

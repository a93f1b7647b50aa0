-- ===== src/Profiles/Sections/Ownership.antt =====
-- Only the owner of a profile changes the rows of its lists.
use open_profile_be.Entities.Pages.{Profile}
use open_profile_be.Exec.{Result, Returned, continue, err, ok, pure, ◌>>◌}
use open_profile_be.Prelude.{
  List, String, ap, arith, eq_iff, inl, inr, map_where, refl, reject, some, subst, sym, ◌∙◌, ◌≡◌,
  ◌≢◌, ◌⊎◌,
}
use open_profile_be.Profiles.Sections.{
  Section, change_row, delete_row, get_owned, has_row_id, invalidate_cache, profile_by_id,
  remove_owned, rows_after, rows_at, save_row, table_of, write_change,
}
use open_profile_be.Services.{Services}
use open_profile_be.World.{App, World}
use open_profile_be.Redis

module _ (x : Services) {Row : Type 0} (s : Section x Row) (user id : String) (w : World x) where
  -- The row with the id, and the profile that it is on, which is the user's.
  pub record Owned : Type 0 where
    pub row : Row
    pub profile : Profile
    pub row_found : s.repository.find_one (has_row_id x s id) (table_of x s w) ≡ some row
    pub profile_found : profile_by_id x (s.profile_id row) w ≡ some profile
    pub is_users : profile.user_id ≡ user

  get_owned-Owned :
      (row : Row) (p : Profile)
      → (get_owned x s user id w).0 ≡ ok (row, p)
      → (s.repository.find_one (has_row_id x s id) (table_of x s w) ≡ some row)
        × (profile_by_id x (s.profile_id row) w ≡ some p)
        × (p.user_id ≡ user)
  unfolding get_owned
  get_owned-Owned row p e = ground (arith, eq_iff p.user_id user)

  get_owned_world : (get_owned x s user id w).1 ≡ w
  unfolding get_owned
  get_owned_world = ground arith

  owned_at : (o : Row × Profile) → (get_owned x s user id w).0 ≡ ok o → Owned
  owned_at (row, p) e =
      let h = get_owned-Owned row p e in
      record { row = row; profile = p; row_found = h.0; profile_found = h.1; is_users = h.2 }

  module _ {A : Type 0} (rest : Row × Profile → App x A) where
    -- A step after the check of the ownership runs for the owner only.
    only_owner :
        (r : Result (Row × Profile))
        → (get_owned x s user id w).0 ≡ r
        → (continue r rest (get_owned x s user id w).1).1.pages ≢ w.pages
        → Owned
    only_owner (ok o) e changed = owned_at o e
    only_owner (err e') e changed = absurd (changed (ap (λ (v : World x). v.pages) get_owned_world))

    owner_of_Returned :
        (r : Result (Row × Profile))
        → (get_owned x s user id w).0 ≡ r
        → Returned (continue r rest (get_owned x s user id w).1).0
        → (o : Row × Profile) × ((get_owned x s user id w).0 ≡ ok o)
          × (continue r rest (get_owned x s user id w).1 ≡ rest o w)
    owner_of_Returned (ok o) e h = (o, e, ap (rest o) get_owned_world)
    owner_of_Returned (err e') e h = absurd h

  module _ (change : Row → Row) (check : Row → App x (Unit {0})) where
    abbrev changed_row : App x Row
    changed_row = change_row x s user id change check

    -- Where an update or a removal of a row changes a table, the row is on a profile of the user.
    pub changes-Owned :
        ((changed_row w).1.pages ≢ w.pages) ⊎ ((delete_row x s user id w).1.pages ≢ w.pages) → Owned
    unfolding change_row delete_row
    changes-Owned (inl changed) =
        only_owner (write_change x s change check) (get_owned x s user id w).0 refl changed
    changes-Owned (inr changed) =
        only_owner (remove_owned x s) (get_owned x s user id w).0 refl changed

    rows-save :
        (row : Row) (username : String) (v : World x)
        → rows_after x s (do save_row x s row; invalidate_cache x username; pure row) v
          ≡ map_where (has_row_id x s (s.id row)) (λ _. row) (rows_at x s v)
    unfolding invalidate_cache Redis.del
    rows-save row username v = ground (
      arith,
      s.table-put (s.repository.update (has_row_id x s (s.id row)) (λ _. row) (table_of x s v))
          v.pages,
      s.repository.rows-update (has_row_id x s (s.id row)) (λ _. row) (table_of x s v),
    )

    rows-remove :
        (o : Row × Profile) (v : World x)
        → rows_after x s (remove_owned x s o) v ≡ reject (has_row_id x s (s.id o.0)) (rows_at x s v)
    unfolding invalidate_cache Redis.del
    rows-remove o v = ground (
      arith,
      s.table-put (s.repository.delete (has_row_id x s (s.id o.0)) (table_of x s v)).1 v.pages,
      s.repository.rows-delete (has_row_id x s (s.id o.0)) (table_of x s v),
    )

    abbrev saved_row : Row → String → App x Row
    saved_row row username = do save_row x s row; invalidate_cache x username; pure row

    -- An update wrote nothing, or it wrote a row that passed the check.
    abbrev pub HasWritten : Row × Profile → List Row → Type 0
    HasWritten o rows =
        Returned (check (change o.0) w).0
        × (rows ≡ map_where (has_row_id x s (s.id (change o.0))) (λ _. change o.0) (rows_at x s w))

    abbrev pub Outcome : List Row → Type 0
    Outcome rows =
        ((rows ≡ rows_at x s w)
          ⊎ ((o : Row × Profile) × ((get_owned x s user id w).0 ≡ ok o) × HasWritten o rows))

    module _ (pure_check : (row : Row) (v : World x) → (check row v).1 ≡ v) where
      after_check :
          (o : Row × Profile) (r : Result (Unit {0})) (v : World x)
          → v ≡ w
          → (rows_at x s (continue r (λ _. saved_row (change o.0) o.1.username) v).1
              ≡ rows_at x s w)
            ⊎ (Returned r
                × (rows_at x s (continue r (λ _. saved_row (change o.0) o.1.username) v).1
                    ≡ map_where
                        (has_row_id x s (s.id (change o.0)))
                        (λ _. change o.0)
                        (rows_at x s w)))
      after_check o (ok _) v e = inr (
        tt,
        rows-save (change o.0) o.1.username v
            ∙ ap
                (λ u.
                  map_where (has_row_id x s (s.id (change o.0))) (λ _. change o.0) (rows_at x s u))
                e,
      )
      after_check o (err e') v e = inl (ap (rows_at x s) e)

      after_owned :
          (r : Result (Row × Profile))
          → (get_owned x s user id w).0 ≡ r
          → Outcome (
              rows_at x s
                (continue r (write_change x s change check) (get_owned x s user id w).1).1)
      after_owned (ok o) e =
          subst (λ (v : World x). Outcome (rows_at x s (write_change x s change check o v).1))
            (sym get_owned_world)
            (elim (after_check o (check (change o.0) w).0 (check (change o.0) w).1
              (pure_check (change o.0) w)) [
                | inl same ↦ inl same
                | inr written ↦ inr (o, e, written)
              ])
      after_owned (err e') e = inl (ap (rows_at x s) get_owned_world)

      pub change_row-Outcome : Outcome (rows_after x s changed_row w)
      unfolding change_row
      change_row-Outcome = after_owned (get_owned x s user id w).0 refl

      checked_effect :
          (o : Row × Profile) (r : Result (Unit {0})) (v : World x)
          → v ≡ w
          → Returned (continue r (λ _. saved_row (change o.0) o.1.username) v).0
          → rows_at x s (continue r (λ _. saved_row (change o.0) o.1.username) v).1
            ≡ map_where (has_row_id x s (s.id (change o.0))) (λ _. change o.0) (rows_at x s w)
      checked_effect o (ok _) v e h =
          rows-save (change o.0) o.1.username v
          ∙ ap
              (λ u.
                map_where (has_row_id x s (s.id (change o.0))) (λ _. change o.0) (rows_at x s u))
              e
      checked_effect o (err e') v e h = absurd h

      -- An update that returned has written the row with the id, which is on a profile of the
      -- user, over itself with the changes, and no other row. The check changes nothing.
      pub change_row-Effect :
          Returned (changed_row w).0
          → (o : Owned) × (rows_after x s changed_row w
              ≡ map_where
                  (has_row_id x s (s.id (change o.row)))
                  (λ _. change o.row)
                  (rows_at x s w))
      unfolding change_row owned_at owner_of_Returned
      change_row-Effect h =
          let found =
            owner_of_Returned (write_change x s change check) (get_owned x s user id w).0 refl h in
          let o : (Row × Profile) = found.0 in
          (
            owned_at o found.1,
            ap (λ (a : Result Row × World x). rows_at x s a.1) found.2
                ∙ checked_effect o (check (change o.0) w).0 (check (change o.0) w).1
                    (pure_check (change o.0) w)
                    (subst (λ (a : Result Row × World x). Returned a.0) found.2 h),
          )

    delete_outcome :
        (r : Result (Row × Profile))
        → (get_owned x s user id w).0 ≡ r
        → ((rows_at x s (continue r (remove_owned x s) (get_owned x s user id w).1).1
              ≡ rows_at x s w)
            ⊎ ((o : Row × Profile) × ((get_owned x s user id w).0 ≡ ok o)
                × (rows_at x s (continue r (remove_owned x s) (get_owned x s user id w).1).1
                    ≡ reject (has_row_id x s (s.id o.0)) (rows_at x s w))))
    delete_outcome (ok o) e = inr (
      o,
      e,
      ap (λ (v : World x). rows_at x s (remove_owned x s o v).1) get_owned_world ∙ rows-remove o w,
    )
    delete_outcome (err e') e = inl (ap (rows_at x s) get_owned_world)

    pub delete_row-Outcome :
        ((rows_after x s (delete_row x s user id) w ≡ rows_at x s w)
          ⊎ ((o : Row × Profile) × ((get_owned x s user id w).0 ≡ ok o)
              × (rows_after x s (delete_row x s user id) w
                  ≡ reject (has_row_id x s (s.id o.0)) (rows_at x s w))))
    unfolding delete_row
    delete_row-Outcome = delete_outcome (get_owned x s user id w).0 refl

-- ===== src/Profiles/Sections/Places.antt =====
-- What adding a row does to a list, and where it puts the row.
use open_profile_be.Entities.Pages.{Profile}
use open_profile_be.Exec.{Result, Returned, continue, err, ok}
use open_profile_be.Prelude.{
  All, List, Option, Option-cases, String, [], ap, arith, greatest, inl, inr, keep, larger, none,
  refl, some, subst, sym, ℕ, ◌++◌, ◌<◌, ◌∙◌, ◌∷◌, ◌≡◌, ◌≤◌, ◌⊎◌,
}
use open_profile_be.Profiles.Sections.{
  Section, add_row, add_to, invalidate_cache, is_of_profile, new_row, next_order, profile_of_user,
  rows_after, rows_at, store_new, table_of,
}
use open_profile_be.Services.{Services}
use open_profile_be.Services.Database.{rows_of_insert}
use open_profile_be.World.{App, World}
use open_profile_be.Redis

next_order-larger :
    (n : ℕ) (o : Option ℕ)
    → (n < next_order (larger n o)) × (next_order o ≤ next_order (larger n o))
next_order-larger n o = ground arith

module _ (x : Services) {Row : Type 0} (s : Section x Row) where
  rows-store_new :
      (username : String) (row : Row) (v : World x)
      → ((rows_after x s (store_new x s username row) v ≡ rows_at x s v)
          ⊎ (rows_after x s (store_new x s username row) v ≡ rows_at x s v ++ row ∷ []))
  unfolding invalidate_cache Redis.del
  rows-store_new username row v = elim (Option-cases (s.repository.insert row (table_of x s v))) [
    | inl clash ↦ inl (ground (arith, clash))
    | inr (t, e) ↦ inr (
        ground
          (arith, e, s.table-put t v.pages, rows_of_insert s.repository row (table_of x s v) t e))
  ]

  module _ (user : String) (new : String → String → ℕ → Row) (check : Row → App x (Unit {0}))
      (pure_check : (row : Row) (v : World x) → (check row v).1 ≡ v) (w : World x) where
    -- Adding a row changed nothing, or it put a row that passed the check at the end.
    abbrev pub Added : List Row → Type 0
    Added rows =
        ((rows ≡ rows_at x s w)
          ⊎ ((p : Profile) × (profile_of_user x user w ≡ some p)
              × Returned (check (new_row x s new p w) w).0
              × (rows ≡ rows_at x s w ++ new_row x s new p w ∷ [])))

    after_check :
        (p : Profile)
        → profile_of_user x user w ≡ some p
        → (r : Result (Unit {0})) (v : World x) → (check (new_row x s new p w) w).0 ≡ r
        → v ≡ w
        → Added (rows_at x s (continue r (λ _. store_new x s p.username (new_row x s new p w)) v).1)
    after_check p found (ok _) v e same = elim (rows-store_new p.username (new_row x s new p w) v) [
      | inl kept ↦ inl (kept ∙ ap (rows_at x s) same)
      | inr added ↦ inr (
        p,
        found,
        subst Returned (sym e) tt,
        added ∙ ap (λ u. rows_at x s u ++ new_row x s new p w ∷ []) same,
      )
    ]
    after_check p found (err e') v e same = inl (ap (rows_at x s) same)

    after_found :
        (o : Option Profile)
        → profile_of_user x user w ≡ o
        → Added (rows_after x s (add_to x s new check o) w)
    after_found none e = inl refl
    after_found (some p) e =
        after_check p e (check (new_row x s new p w) w).0 (check (new_row x s new p w) w).1 refl
          (pure_check (new_row x s new p w) w)

    pub add_row-Added : Added (rows_after x s (add_row x s user new check) w)
    unfolding add_row
    add_row-Added = after_found (profile_of_user x user w) refl

    -- The row that is answered.
    row-store_new :
        (username : String) (row answer : Row) (v : World x)
        → (store_new x s username row v).0 ≡ ok answer
        → answer ≡ row
    unfolding invalidate_cache Redis.del
    row-store_new username row answer v e =
        elim (Option-cases (s.repository.insert row (table_of x s v))) [
          | inl clash ↦ absurd (ground (arith, clash))
          | inr (t, inserted_as) ↦ ground (arith, inserted_as)
        ]

    row-checked :
        (username : String) (row answer : Row) (r : Result (Unit {0})) (v : World x)
        → (continue r (λ _. store_new x s username row) v).0 ≡ ok answer
        → answer ≡ row
    row-checked username row answer (ok _) v e = row-store_new username row answer v e
    row-checked username row answer (err e') v e = absurd (ground (arith, e))

    pub row-add_row :
        (p : Profile)
        → profile_of_user x user w ≡ some p
        → (answer : Row) → (add_row x s user new check w).0 ≡ ok answer
        → answer ≡ new_row x s new p w
    unfolding add_row
    row-add_row p owner answer e =
        row-checked p.username (new_row x s new p w) answer (check (new_row x s new p w) w).0
          (check (new_row x s new p w) w).1
          (ap (λ (o : Option Profile). (add_to x s new check o w).0) (sym owner) ∙ e)

    -- Every row of the profile is before the place that the next row gets.
    below-weaken :
        (m n : ℕ) (rows : List Row)
        → m ≤ n
        → All (λ r. s.display_order r < m) rows
        → All (λ r. s.display_order r < n) rows
    below-weaken m n [] h a = tt
    below-weaken m n (r ∷ rows) h a = (omega arith, below-weaken m n rows h a.1)

    below-next_order :
        (rows : List Row)
        → All (λ r. s.display_order r < next_order (greatest s.display_order rows)) rows
    below-next_order [] = tt
    below-next_order (r ∷ rows) =
        let o = greatest s.display_order rows in
        (
          (next_order-larger (s.display_order r) o).0,
          below-weaken (next_order o) (next_order (larger (s.display_order r) o)) rows
              (next_order-larger (s.display_order r) o).1 (below-next_order rows),
        )

    -- A row that its owner adds comes after every row that the profile has. The new row keeps the
    -- place that it is given.
    pub add_row-last :
        ((i p : String) (n : ℕ) → s.display_order (new i p n) ≡ n)
        → (p : Profile) → profile_of_user x user w ≡ some p
        → (answer : Row) → (add_row x s user new check w).0 ≡ ok answer
        → All
            (λ r. s.display_order r < s.display_order answer)
            (keep (is_of_profile x s p.id) (rows_at x s w))
    add_row-last place_kept p owner answer e =
        subst
          (λ (n : ℕ).
            All (λ r. s.display_order r < n) (keep (is_of_profile x s p.id) (rows_at x s w)))
          (ap next_order (
              sym (
                s.repository.select_max_lem s.display_order (is_of_profile x s p.id)
                  (table_of x s w)))
            ∙ sym (
                place_kept (x.crypto.uuid w.drawn) p.id (
                  next_order (
                    s.repository.select_max s.display_order (is_of_profile x s p.id)
                      (table_of x s w))))
            ∙ ap s.display_order (sym (row-add_row p owner answer e)))
          (below-next_order (keep (is_of_profile x s p.id) (rows_at x s w)))

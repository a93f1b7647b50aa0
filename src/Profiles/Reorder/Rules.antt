-- ===== src/Profiles/Reorder/Rules.antt =====
-- A reorder keeps every rule that does not read the order.
use open_profile_be.Entities.Pages.{Profile}
use open_profile_be.Prelude.{
  Bool, List, Option, Option-cases, String, ap, arith, inl, inr, is_some, none, refl, some, subst,
  sym, true, ℕ, ◌∙◌, ◌≡◌,
}
use open_profile_be.Profiles.Reorder.{place, reorder, reorder_found, reorder_rows}
use open_profile_be.Profiles.Reorder.Answer.{written_table}
use open_profile_be.Profiles.Reorder.Others.{committed, pages-reorder, pages-reorder_rows}
use open_profile_be.Profiles.Sections.{Section, profile_of_user, rows_after, rows_at, table_of}
use open_profile_be.Profiles.Sections.Rules.{AllGood, good-map_where}
use open_profile_be.Services.{Services}
use open_profile_be.World.{Pages, World}

module _ (x : Services) {Row : Type 0} (s : Section x Row) (good : Row → Bool)
    (any_order : (n : ℕ) (r : Row) → good (s.with_order n r) ≡ good r) where
  good-place : (ids : List String) (r : Row) → good r ≡ true → good (place x s ids r) ≡ true
  good-place ids r g = elim (Option-cases (x.pages.joined ids (s.id r))) [
    | inl free ↦ ground (arith, free)
    | inr (i, e) ↦ ground (arith, e, any_order i r)
  ]

  module _ (user : String) (ids : List String) (w : World x)
      (held : AllGood x s good (rows_at x s w)) where
    good-written :
        (p : Profile)
        → AllGood x s good
            (s.repository.rows (s.table (s.put (written_table x s p.id ids w) w.pages)))
    good-written p =
        subst (AllGood x s good)
          (sym (
            ap (λ t. s.repository.rows t) (s.table-put (written_table x s p.id ids w) w.pages)
            ∙ s.repository.rows-update (λ r. is_some (x.pages.joined ids (s.id r))) (place x s ids)
                (table_of x s w)))
          (good-map_where x s good (λ r. is_some (x.pages.joined ids (s.id r))) (place x s ids)
            (rows_at x s w) (λ r p' g. good-place ids r g) held)

    good-found :
        (o : Option Profile)
        → profile_of_user x user w ≡ o
        → AllGood x s good (rows_after x s (reorder x s user ids) w)
    unfolding reorder
    good-found (some p) e =
        let Good : (Pages x → Type 0) = (λ g. AllGood x s good (s.repository.rows (s.table g))) in
        subst Good (sym (pages-reorder x s user ids w p e)) (
          committed x s user ids w p e (reorder_rows x s p.id ids w) Good held
            (elim (pages-reorder_rows x s user ids w p e) [
              | inl same ↦ subst Good (sym same) held
              | inr (known, new) ↦ subst Good (sym new) (good-written p)
            ]))
    good-found none e =
        subst (λ (g : Pages x). AllGood x s good (s.repository.rows (s.table g)))
          (ap (λ (o : Option Profile). (reorder_found x s ids o w).1.pages) (sym e)) held

    pub reorder-AllGood : AllGood x s good (rows_after x s (reorder x s user ids) w)
    reorder-AllGood = good-found (profile_of_user x user w) refl

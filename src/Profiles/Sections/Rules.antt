-- ===== src/Profiles/Sections/Rules.antt =====
-- A rule on the rows of a list that the checks enforce holds after every operation on the list.
use open_profile_be.Entities.Pages.{Profile}
use open_profile_be.Exec.{Returned}
use open_profile_be.Prelude.{
  All, All-append, Bool, List, String, [], arith, inl, inr, map_where, reject, subst, sym, true, ℕ,
  ◌∷◌, ◌≡◌,
}
use open_profile_be.Profiles.Sections.{
  Section, add_row, change_row, delete_row, has_row_id, new_row, rows_after, rows_at,
}
use open_profile_be.Profiles.Sections.Ownership.{change_row-Outcome, delete_row-Outcome}
use open_profile_be.Profiles.Sections.Places.{add_row-Added}
use open_profile_be.Services.{Services}
use open_profile_be.World.{App, World}

module _ (x : Services) {Row : Type 0} (s : Section x Row) (good : Row → Bool) where
  abbrev pub AllGood : List Row → Type 0
  AllGood rows = All (λ r. good r ≡ true) rows

  pub good-map_where :
      (p : Row → Bool) (f : Row → Row) (rows : List Row)
      → ((r : Row) → p r ≡ true → good r ≡ true → good (f r) ≡ true)
      → AllGood rows
      → AllGood (map_where p f rows)
  good-map_where p f [] h a = tt
  good-map_where p f (r ∷ rows) h a = ground (arith, h r, good-map_where p f rows h)

  good-reject : (p : Row → Bool) (rows : List Row) → AllGood rows → AllGood (reject p rows)
  good-reject p [] a = tt
  good-reject p (r ∷ rows) a = ground (arith, good-reject p rows)

  module _ (check : Row → App x (Unit {0}))
      (pure_check : (row : Row) (v : World x) → (check row v).1 ≡ v) (user : String) (w : World x)
      (held : AllGood (rows_at x s w)) where
    pub add_row-AllGood :
        (new : String → String → ℕ → Row)
        → ((p : Profile)
            → Returned (check (new_row x s new p w) w).0
            → good (new_row x s new p w) ≡ true)
        → AllGood (rows_after x s (add_row x s user new check) w)
    add_row-AllGood new sound = elim (add_row-Added x s user new check pure_check w) [
      | inl same ↦ subst AllGood (sym same) held
      | inr (p, e, passed, rows) ↦ subst AllGood (sym rows) (
          All-append (λ (r : Row). good r ≡ true) (rows_at x s w) (new_row x s new p w) held
            (sound p passed))
    ]

  module _ (check : Row → App x (Unit {0}))
      (pure_check : (row : Row) (v : World x) → (check row v).1 ≡ v)
      (sound : (row : Row) (v : World x) → Returned (check row v).0 → good row ≡ true)
      (user id : String) (w : World x) (held : AllGood (rows_at x s w)) where
    pub change_row-AllGood :
        (change : Row → Row) → AllGood (rows_after x s (change_row x s user id change check) w)
    change_row-AllGood change = elim (change_row-Outcome x s user id w change check pure_check) [
      | inl same ↦ subst AllGood (sym same) held
      | inr (o, e, (passed, rows)) ↦ subst AllGood (sym rows) (
          good-map_where (has_row_id x s (s.id (change o.0))) (λ _. change o.0) (rows_at x s w)
            (λ r p g. sound (change o.0) w passed) held)
    ]

    pub delete_row-AllGood : AllGood (rows_after x s (delete_row x s user id) w)
    delete_row-AllGood = elim (delete_row-Outcome x s user id w (λ r. r) check) [
      | inl same ↦ subst AllGood (sym same) held
      | inr (o, e, rows) ↦
          subst AllGood (sym rows) (good-reject (has_row_id x s (s.id o.0)) (rows_at x s w) held)
    ]

-- ===== src/Profiles/EducationEntries/Dates.antt =====
-- The years of education, over any sequence of requests.
use open_profile_be.Entities.Pages.{Education}
use open_profile_be.Exec.{Returned, pure, throw_if}
use open_profile_be.Prelude.{
  All, Bool, Bool-cases, List, String, [], arith, if◌then◌else◌, inl, inr, leb, ltb, refl, subst,
  sym, true, ◌∷◌, ◌≡◌,
}
use open_profile_be.Profiles.EducationEntries.{
  CreateEducation, UpdateEducation, create_education, delete_education_entry, education_section,
  invalid_date_range, is_valid_create_education, new_education, reorder_education, update_education,
  with_education,
}
use open_profile_be.Profiles.Reorder.Rules.{reorder-AllGood}
use open_profile_be.Profiles.Sections.{Section, rows_at}
use open_profile_be.Profiles.Sections.Rules.{
  AllGood, add_row-AllGood, change_row-AllGood, delete_row-AllGood,
}
use open_profile_be.Services.{Services}
use open_profile_be.World.{App, World}

pub data EducationRequest : Type 0 where
  create_entry : (user : String) → CreateEducation → EducationRequest
  update_entry : (user id : String) → UpdateEducation → EducationRequest
  delete_entry : (user id : String) → EducationRequest
  reorder_entries : (user : String) → List String → EducationRequest

abbrev pub has_valid_years : Education → Bool
has_valid_years r = leb r.start_year r.end_year

module _ (x : Services) where
  abbrev s : Section x Education
  s = education_section x

  -- The validators of the DTOs run before the service.
  unfoldable pub serve_education : EducationRequest → World x → World x
  unfolding create_education update_education delete_education_entry reorder_education
  serve_education (create_entry user dto) w =
      if is_valid_create_education dto then (create_education x user dto w).1 else w
  serve_education (update_entry user id dto) w = (update_education x user id dto w).1
  serve_education (delete_entry user id) w = (delete_education_entry x user id w).1
  serve_education (reorder_entries user ids) w = (reorder_education x user ids w).1

  unfoldable pub serve_all_education : List EducationRequest → World x → World x
  unfolding serve_education
  serve_all_education [] w = w
  serve_all_education (r ∷ requests) w = serve_all_education requests (serve_education r w)

  unfoldable pub HasValidYears : World x → Type 0
  HasValidYears w = All (λ r. has_valid_years r ≡ true) (x.pages.education.rows w.pages.education)

  -- The check of an update, and no check for a new entry, whose years the validator has compared.
  years_check : Education → App x (Unit {0})
  years_check row = throw_if (ltb row.end_year row.start_year) invalid_date_range

  pure_years : (r : Education) (v : World x) → (years_check r v).1 ≡ v
  unfolding years_check
  pure_years r v = ground arith

  sound_years :
      (r : Education) (v : World x) → Returned (years_check r v).0 → has_valid_years r ≡ true
  unfolding years_check
  sound_years r v h = ground arith

  serve_education-HasValidYears :
      (request : EducationRequest) (w : World x)
      → HasValidYears w
      → HasValidYears (serve_education request w)
  unfolding HasValidYears serve_education create_education update_education delete_education_entry
      reorder_education is_valid_create_education years_check
  serve_education-HasValidYears (create_entry user dto) w h =
      elim (Bool-cases (is_valid_create_education dto)) [
        | inl valid ↦
            subst
              (λ (b : Bool).
                AllGood x s has_valid_years
                  (rows_at x s (if b then (create_education x user dto w).1 else w)))
              (sym valid)
              (add_row-AllGood x s has_valid_years (λ row. pure tt) (λ r v. refl) user w h
                (new_education dto) (λ p passed. valid))
        | inr wrong ↦
            subst
              (λ (b : Bool).
                AllGood x s has_valid_years
                  (rows_at x s (if b then (create_education x user dto w).1 else w)))
              (sym wrong) h
      ]
  serve_education-HasValidYears (update_entry user id dto) w h =
      change_row-AllGood x s has_valid_years years_check pure_years sound_years user id w h
        (with_education dto)
  serve_education-HasValidYears (delete_entry user id) w h =
      delete_row-AllGood x s has_valid_years years_check pure_years sound_years user id w h
  serve_education-HasValidYears (reorder_entries user ids) w h =
      reorder-AllGood x s has_valid_years (λ n r. refl) user ids w h

  -- Where every education entry ends in or after the year it starts in, every entry still does
  -- after any sequence of requests to create, update, delete and reorder entries, by any users. A
  -- new entry that the validator of its DTO refuses is not created.
  pub serve_all_education-HasValidYears :
      (requests : List EducationRequest) (w : World x)
      → HasValidYears w
      → HasValidYears (serve_all_education requests w)
  unfolding serve_all_education
  serve_all_education-HasValidYears [] w h = h
  serve_all_education-HasValidYears (r ∷ requests) w h =
      serve_all_education-HasValidYears requests (serve_education r w)
        (serve_education-HasValidYears r w h)

-- ===== src/Profiles/WorkExperienceEntries/Dates.antt =====
-- The dates of work experience, over any sequence of requests.
use open_profile_be.Entities.Pages.{WorkExperience}
use open_profile_be.Exec.{Returned}
use open_profile_be.Prelude.{
  All, Bool-cases, List, String, [], arith, inl, inr, not, true, ℕ, ◌∷◌, ◌≡◌,
}
use open_profile_be.Profiles.Reorder.Rules.{reorder-AllGood}
use open_profile_be.Profiles.Sections.{Section, new_row}
use open_profile_be.Profiles.Sections.Rules.{
  add_row-AllGood, change_row-AllGood, delete_row-AllGood,
}
use open_profile_be.Profiles.WorkExperienceEntries.{
  CreateWorkExperience, UpdateWorkExperience, create_work_experience, delete_work_experience_entry,
  has_invalid_dates, new_work_experience, reorder_work_experience, update_work_experience,
  validate_work_experience_dates, with_work_experience, work_experience_section,
}
use open_profile_be.Services.{Services}
use open_profile_be.World.{World}

pub data WorkExperienceRequest : Type 0 where
  create_entry : (user : String) → CreateWorkExperience → WorkExperienceRequest
  update_entry : (user id : String) → UpdateWorkExperience → WorkExperienceRequest
  delete_entry : (user id : String) → WorkExperienceRequest
  reorder_entries : (user : String) → List String → WorkExperienceRequest

module _ (x : Services) where
  abbrev s : Section x WorkExperience
  s = work_experience_section x

  unfoldable pub serve_entry : WorkExperienceRequest → World x → World x
  unfolding create_work_experience update_work_experience delete_work_experience_entry
      reorder_work_experience
  serve_entry (create_entry user dto) w = (create_work_experience x user dto w).1
  serve_entry (update_entry user id dto) w = (update_work_experience x user id dto w).1
  serve_entry (delete_entry user id) w = (delete_work_experience_entry x user id w).1
  serve_entry (reorder_entries user ids) w = (reorder_work_experience x user ids w).1

  unfoldable pub serve_entries : List WorkExperienceRequest → World x → World x
  unfolding serve_entry
  serve_entries [] w = w
  serve_entries (r ∷ requests) w = serve_entries requests (serve_entry r w)

  -- Every entry of the table is current and has no end, or has an end that is not before its start.
  unfoldable pub HasValidDates : World x → Type 0
  unfolding has_invalid_dates
  HasValidDates w =
      All (λ r. not (has_invalid_dates r) ≡ true)
        (x.pages.work_experience.rows w.pages.work_experience)

  pure_validation :
      (r : WorkExperience) (v : World x) → (validate_work_experience_dates x r v).1 ≡ v
  unfolding validate_work_experience_dates
  pure_validation r v = ground arith

  sound_validation :
      (r : WorkExperience) (v : World x)
      → Returned (validate_work_experience_dates x r v).0
      → not (has_invalid_dates r) ≡ true
  unfolding validate_work_experience_dates
  sound_validation r v h = elim (Bool-cases (has_invalid_dates r)) [
    | inl bad ↦ absurd (ground (arith, bad))
    | inr fine ↦ ground (arith, fine)
  ]

  any_order :
      (n : ℕ) (r : WorkExperience)
      → not (has_invalid_dates (s.with_order n r)) ≡ not (has_invalid_dates r)
  unfolding has_invalid_dates
  any_order n r = ground arith

  serve_entry-HasValidDates :
      (request : WorkExperienceRequest) (w : World x)
      → HasValidDates w
      → HasValidDates (serve_entry request w)
  unfolding HasValidDates serve_entry create_work_experience update_work_experience
      delete_work_experience_entry reorder_work_experience
  serve_entry-HasValidDates (create_entry user dto) w h =
      add_row-AllGood x s (λ r. not (has_invalid_dates r)) (validate_work_experience_dates x)
        pure_validation user w h (new_work_experience dto)
        (λ p passed. sound_validation (new_row x s (new_work_experience dto) p w) w passed)
  serve_entry-HasValidDates (update_entry user id dto) w h =
      change_row-AllGood x s (λ r. not (has_invalid_dates r)) (validate_work_experience_dates x)
        pure_validation sound_validation user id w h (with_work_experience dto)
  serve_entry-HasValidDates (delete_entry user id) w h =
      delete_row-AllGood x s (λ r. not (has_invalid_dates r)) (validate_work_experience_dates x)
        pure_validation sound_validation user id w h
  serve_entry-HasValidDates (reorder_entries user ids) w h =
      reorder-AllGood x s (λ r. not (has_invalid_dates r)) any_order user ids w h

  -- Where every entry of the table has valid dates, every entry still has them after any sequence
  -- of requests to create, update, delete and reorder entries, by any users.
  pub serve_entries-HasValidDates :
      (requests : List WorkExperienceRequest) (w : World x)
      → HasValidDates w
      → HasValidDates (serve_entries requests w)
  unfolding serve_entries
  serve_entries-HasValidDates [] w h = h
  serve_entries-HasValidDates (r ∷ requests) w h =
      serve_entries-HasValidDates requests (serve_entry r w) (serve_entry-HasValidDates r w h)

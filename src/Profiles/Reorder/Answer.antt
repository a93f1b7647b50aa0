-- ===== src/Profiles/Reorder/Answer.antt =====
-- What a reorder that returned answers.
use open_profile_be.Entities.Pages.{Profile}
use open_profile_be.Exec.{Result, commit, continue, err, ok, pure, ◌>>◌}
use open_profile_be.Prelude.{
  All, Bool, List, Option, String, [], any, ap, arith, AtLeast, count_where, if◌then◌else◌, is_some,
  map, not, refl, some, subst, sym, true, ◌==◌, ◌∙◌, ◌∷◌, ◌≡◌, ◌≤◌,
}
use open_profile_be.Profiles.Reorder.{
  foreign, is_among, is_empty, missing, place, reorder, reorder_found, reorder_rows,
  rows_of_profile,
}
use open_profile_be.Profiles.Reorder.Lists.{IsPlaced, ids-ordered, rows_with, times}
use open_profile_be.Profiles.Reorder.Rows.{
  IsPlaced-of_count, is_at, is_empty-reject, listed, misplaced-reordered, reordered,
  rows_with-reordered, same-ids,
}
use open_profile_be.Profiles.Sections.{
  Section, has_row_id, invalidate_cache, is_of_profile, profile_of_user, table_of,
}
use open_profile_be.Services.{Services}
use open_profile_be.World.{World}
use open_profile_be.Redis

module _ (x : Services) {Row : Type 0} (s : Section x Row) where
  All-map_id :
      (P : String → Type 0) (rows : List Row) → All P (map s.id rows) → All (λ r. P (s.id r)) rows
  All-map_id P [] h = tt
  All-map_id P (r ∷ rows) h = (h.0, All-map_id P rows h.1)

  module _ (profile : String) (ids : List String) (w : World x) where
    abbrev current : List Row
    current = rows_of_profile x s profile w

    abbrev pub written_table : s.repository.Table
    written_table =
        s.repository.update (λ r. is_some (x.pages.joined ids (s.id r))) (place x s ids)
          (table_of x s w)

    -- A reorder that returned has passed both checks, and wrote unless there was nothing to write.
    pub reorder_rows-Accepted :
        (answer : List Row)
        → (reorder_rows x s profile ids w).0 ≡ ok answer
        → (is_empty (missing x s current ids) ≡ true)
          × (is_empty (foreign x s current ids) ≡ true)
          × (if is_empty ids
              then (answer ≡ [])
              else (answer
                  ≡ s.repository.find_ordered s.display_order
                      (is_of_profile x s profile)
                      written_table))
    unfolding reorder_rows
    reorder_rows-Accepted answer e = ground (arith, s.table-put written_table w.pages)

  -- The steps of a reorder, whatever its transaction and the cache answer.
  module _ (user : String) (ids : List String) (w : World x) (p : Profile)
      (owner : profile_of_user x user w ≡ some p) where
    pub after_rows :
        (r : Result (List Row) × World x) (answer : List Row)
        → (continue
            (commit r.0 w r.1).0
            (λ result. invalidate_cache x p.username >> pure result)
            (commit r.0 w r.1).1).0
          ≡ ok answer
        → r.0 ≡ ok answer
    unfolding invalidate_cache Redis.del
    after_rows (ok rows, v) answer e = ground arith
    after_rows (err e', v) answer e = ground arith

    pub rows-reorder :
        (answer : List Row)
        → (reorder x s user ids w).0 ≡ ok answer
        → (reorder_rows x s p.id ids w).0 ≡ ok answer
    unfolding reorder
    rows-reorder answer e =
        after_rows (reorder_rows x s p.id ids w) answer
          (ap (λ (o : Option Profile). (reorder_found x s ids o w).0) (sym owner) ∙ e)

    abbrev pub before : List Row
    before = s.repository.rows (table_of x s w)

    pub submitted_ids :
        is_empty (missing x s (current p.id ids w) ids) ≡ true
        → All (λ r. is_among ids (s.id r) ≡ true) (listed x s p.id before)
    submitted_ids h =
        subst (λ rows. All (λ (r : Row). is_among ids (s.id r) ≡ true) rows)
          (s.repository.find_lem (is_of_profile x s p.id) (table_of x s w))
          (All-map_id (λ (i : String). is_among ids i ≡ true) (current p.id ids w)
            (is_empty-reject (is_among ids) (map s.id (current p.id ids w)) h))

    pub known_ids :
        is_empty (foreign x s (current p.id ids w) ids) ≡ true
        → All (λ i. any (has_row_id x s i) (listed x s p.id before) ≡ true) ids
    known_ids h =
        subst (λ rows. All (λ (i : String). any (has_row_id x s i) rows ≡ true) ids)
          (s.repository.find_lem (is_of_profile x s p.id) (table_of x s w))
          (is_empty-reject (λ (i : String). any (has_row_id x s i) (current p.id ids w)) ids h)

    module _ (unique : (j : String) → rows_with s.id j (s.repository.rows (table_of x s w)) ≤ 1)
        (once : (j : String) → times j ids ≤ 1) where
      abbrev sorted : List Row
      sorted =
          s.repository.find_ordered s.display_order (is_of_profile x s p.id)
            (written_table p.id ids w)

      count-sorted :
          (q : Row → Bool)
          → count_where q sorted ≡ count_where q (listed x s p.id (reordered x s ids before))
      count-sorted q =
          s.repository.find_ordered_count s.display_order (is_of_profile x s p.id) q
            (written_table p.id ids w)
          ∙ ap (λ rows. count_where q (listed x s p.id rows))
              (s.repository.rows-update (λ r. is_some (x.pages.joined ids (s.id r))) (place x s ids)
                (table_of x s w))

      AtLeast-zero : (rows : List Row) → AtLeast s.display_order 0 rows
      AtLeast-zero [] = tt
      AtLeast-zero (r ∷ rows) = (omega arith, AtLeast-zero rows)

      sorted-IsPlaced :
          is_empty (missing x s (current p.id ids w) ids) ≡ true
          → IsPlaced s.id s.display_order 0 ids sorted
      sorted-IsPlaced h = IsPlaced-of_count x s ids sorted (
          count-sorted (λ r. not (is_at x s ids r))
          ∙ misplaced-reordered x s ids p.id before (submitted_ids h))

      ids-sorted :
          is_empty (missing x s (current p.id ids w) ids) ≡ true
          → is_empty (foreign x s (current p.id ids w) ids) ≡ true
          → map s.id sorted ≡ ids
      ids-sorted h k =
          ids-ordered s.id s.display_order 0 ids sorted
            (s.repository.find_ordered-IsAscending s.display_order (is_of_profile x s p.id)
              (written_table p.id ids w))
            (AtLeast-zero sorted) (sorted-IsPlaced h)
            (λ j.
              count-sorted (λ r. s.id r == j)
              ∙ rows_with-reordered x s ids p.id j before
              ∙ same-ids x s p.id ids before unique once (submitted_ids h) (known_ids k) j)
            once

      answered :
          (given : List String) (answer rows : List Row)
          → (if is_empty given then (answer ≡ []) else (answer ≡ rows))
          → map s.id rows ≡ given
          → IsPlaced s.id s.display_order 0 given rows
          → (map s.id answer ≡ given) × IsPlaced s.id s.display_order 0 given answer
      answered [] answer rows e m h =
          subst (λ (a : List Row). (map s.id a ≡ []) × IsPlaced s.id s.display_order 0 [] a) (sym e)
            (refl, tt)
      answered (i ∷ given) answer rows e m h =
          subst
            (λ (a : List Row).
              (map s.id a ≡ i ∷ given) × IsPlaced s.id s.display_order 0 (i ∷ given) a)
            (sym e) (m, h)

      -- A reorder by the owner of a profile that returns answers the profile's rows in the order
      -- of the submitted ids, each with the position of its id as its display order. No two rows
      -- of the table have the same id, and no id is submitted twice.
      pub reorder-lists :
          (answer : List Row)
          → (reorder x s user ids w).0 ≡ ok answer
          → (map s.id answer ≡ ids) × IsPlaced s.id s.display_order 0 ids answer
      reorder-lists answer e =
          let passed = reorder_rows-Accepted p.id ids w answer (rows-reorder answer e) in
          answered ids answer sorted passed.2 (ids-sorted passed.0 passed.1)
            (sorted-IsPlaced passed.0)

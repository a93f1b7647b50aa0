-- ===== src/Profiles/Reorder/Rows.antt =====
-- What the checks of a reorder say of the rows, and what its UPDATE makes of them.
use open_profile_be.Prelude.{
  All, Bool, List, Option-cases, String, [], any, arith, count_where, eq_iff, eq_refl, false,
  if◌then◌else◌, inl, inr, is_some, keep, ltb, map_where, none, not, nth, refl, reject, some, true,
  ℕ, ◌<◌, ◌==◌, ◌∷◌, ◌≡◌, ◌≤◌,
}
use open_profile_be.Profiles.Reorder.{is_among, is_empty, place}
use open_profile_be.Profiles.Reorder.Lists.{IsPlaced, rows_with, times}
use open_profile_be.Profiles.Sections.{Section, has_row_id, is_of_profile}
use open_profile_be.Services.{Services}

pub is_empty-reject :
    {A : Type 0} (p : A → Bool) (xs : List A)
    → is_empty (reject p xs) ≡ true
    → All (λ a. p a ≡ true) xs
is_empty-reject p [] h = tt
is_empty-reject p (a ∷ xs) h = ground (arith, is_empty-reject p xs)

pub any-count : {A : Type 0} (p : A → Bool) (xs : List A) → any p xs ≡ ltb 0 (count_where p xs)
any-count p [] = refl
any-count p (a ∷ xs) = ground (arith, any-count p xs)

module _ (x : Services) {Row : Type 0} (s : Section x Row) where
  -- The rows of a profile, and the number of them that have an id.
  abbrev pub listed : String → List Row → List Row
  listed profile rows = keep (is_of_profile x s profile) rows

  abbrev pub reordered : List String → List Row → List Row
  reordered ids rows = map_where (λ r. is_some (x.pages.joined ids (s.id r))) (place x s ids) rows

  -- Whether a row is at the position of its id.
  abbrev pub is_at : List String → Row → Bool
  is_at ids r = elim (nth (s.display_order r) ids) [ none ↦ false | some j ↦ j == s.id r ]

  module _ (ids : List String) where
    place_lem :
        (r : Row) (i : ℕ)
        → x.pages.joined ids (s.id r) ≡ some i
        → place x s ids r ≡ s.with_order i r
    place_lem r i e = ground (arith, e)

    abbrev written : Row → Row
    written r = if is_some (x.pages.joined ids (s.id r)) then place x s ids r else r

    id-written : (r : Row) → s.id (written r) ≡ s.id r
    id-written r = elim (Option-cases (x.pages.joined ids (s.id r))) [
      | inl free ↦ ground (arith, free)
      | inr (i, e) ↦ ground (arith, e, s.id-with_order i r)
    ]

    pub profile_id-written : (r : Row) → s.profile_id (written r) ≡ s.profile_id r
    profile_id-written r = elim (Option-cases (x.pages.joined ids (s.id r))) [
      | inl free ↦ ground (arith, free)
      | inr (i, e) ↦ ground (arith, e, s.profile_id-with_order i r)
    ]

    is_at-written : (r : Row) → is_among ids (s.id r) ≡ true → is_at ids (written r) ≡ true
    is_at-written r h = elim (Option-cases (x.pages.joined ids (s.id r))) [
      | inl free ↦ absurd (ground (arith, free, x.pages.joined-finds ids (s.id r)))
      | inr (i, e) ↦ ground (
        arith,
        e,
        s.id-with_order i r,
        s.display_order-with_order i r,
        x.pages.joined-matches ids (s.id r) i,
        eq_refl (s.id r),
      )
    ]

    -- After the UPDATE every row of the profile is at the position of its id.
    pub misplaced-reordered :
        (profile : String) (rows : List Row)
        → All (λ r. is_among ids (s.id r) ≡ true) (listed profile rows)
        → count_where (λ r. not (is_at ids r)) (listed profile (reordered ids rows)) ≡ 0
    misplaced-reordered profile [] h = refl
    misplaced-reordered profile (r ∷ rows) h =
        ground (arith, is_at-written r, profile_id-written r, misplaced-reordered profile rows)

    -- The UPDATE keeps how often each id is on the profile.
    pub rows_with-reordered :
        (profile j : String) (rows : List Row)
        → rows_with s.id j (listed profile (reordered ids rows))
          ≡ rows_with s.id j (listed profile rows)
    rows_with-reordered profile j [] = refl
    rows_with-reordered profile j (r ∷ rows) =
        ground (arith, id-written r, profile_id-written r, rows_with-reordered profile j rows)

  nth-is_at :
      (ids : List String) (r : Row)
      → is_at ids r ≡ true
      → nth (s.display_order r) ids ≡ some (s.id r)
  nth-is_at ids r h = elim (Option-cases (nth (s.display_order r) ids)) [
    | inl nowhere ↦ absurd (ground (arith, nowhere))
    | inr (j, e) ↦ ground (arith, e, eq_iff j (s.id r))
  ]

  pub IsPlaced-of_count :
      (ids : List String) (rows : List Row)
      → count_where (λ r. not (is_at ids r)) rows ≡ 0
      → IsPlaced s.id s.display_order 0 ids rows
  IsPlaced-of_count ids [] h = tt
  IsPlaced-of_count ids (r ∷ rows) h = ground (arith, nth-is_at ids r, IsPlaced-of_count ids rows)

  rows_with-keep_le :
      (p : Row → Bool) (j : String) (rows : List Row)
      → rows_with s.id j (keep p rows) ≤ rows_with s.id j rows
  rows_with-keep_le p j [] = omega arith
  rows_with-keep_le p j (r ∷ rows) = ground (arith, rows_with-keep_le p j rows)

  is_among-times : (ids : List String) (i : String) → is_among ids i ≡ ltb 0 (times i ids)
  is_among-times ids i = any-count (λ j. j == i) ids

  among-listed :
      (ids : List String) (rows : List Row) (j : String)
      → All (λ r. is_among ids (s.id r) ≡ true) rows
      → 0 < rows_with s.id j rows
      → is_among ids j ≡ true
  among-listed ids [] j h n = absurd (omega arith)
  among-listed ids (r ∷ rows) j h n = ground (arith, eq_iff (s.id r) j, among-listed ids rows j)

  listed-among :
      (ids : List String) (rows : List Row) (j : String)
      → All (λ i. any (has_row_id x s i) rows ≡ true) ids
      → 0 < times j ids
      → 0 < rows_with s.id j rows
  listed-among [] rows j h n = absurd (omega arith)
  listed-among (i ∷ ids) rows j h n =
      ground (arith, eq_iff i j, any-count (has_row_id x s i) rows, listed-among ids rows j)

  -- A profile's rows have the submitted ids, each once.
  pub same-ids :
      (profile : String) (ids : List String) (rows : List Row)
      → ((j : String) → rows_with s.id j rows ≤ 1)
      → ((j : String) → times j ids ≤ 1)
      → All (λ r. is_among ids (s.id r) ≡ true) (listed profile rows)
      → All (λ i. any (has_row_id x s i) (listed profile rows) ≡ true) ids
      → (j : String) → rows_with s.id j (listed profile rows) ≡ times j ids
  same-ids profile ids rows unique once h k j = ground (
    arith,
    unique j,
    once j,
    rows_with-keep_le (is_of_profile x s profile) j rows,
    is_among-times ids j,
    among-listed ids (listed profile rows) j h,
    listed-among ids (listed profile rows) j k,
  )

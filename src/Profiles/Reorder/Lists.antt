-- ===== src/Profiles/Reorder/Lists.antt =====
-- Rows in the order of their places in a list of ids.
use open_profile_be.Prelude.{
  All, IsAscending, List, String, [], ap, arith, AtLeast, count_where, eq_iff, eq_refl, map, nth,
  refl, some, suc, zero, ℕ, ◌-◌, ◌==◌, ◌∙◌, ◌∷◌, ◌≡◌, ◌≢◌, ◌≤◌,
}

-- The elements that are `i`.
abbrev pub times : String → List String → ℕ
times i ids = count_where (λ j. j == i) ids

pub nth-times : (k : ℕ) (i : String) (ids : List String) → nth k ids ≡ some i → times i ids ≢ 0
nth-times k i [] e = cc
nth-times zero i (j ∷ ids) e = ground (arith, eq_iff j i)
nth-times (suc k) i (j ∷ ids) e = ground (arith, nth-times k i ids e)

later_step : (m n : ℕ) → suc n ≤ m → suc (m - suc n) ≡ m - n
later_step m n h = omega arith

abbrev pub rows_with : {Row : Type 0} → (Row → String) → String → List Row → ℕ
rows_with id i rows = count_where (λ r. id r == i) rows

module _ {Row : Type 0} (id : Row → String) (place : Row → ℕ) where
  -- Every row's place, from `n` on, is a position of its id.
  abbrev pub IsPlaced : ℕ → List String → List Row → Type 0
  IsPlaced n ids rows = All (λ r. nth (place r - n) ids ≡ some (id r)) rows

  AtLeast-le : (m n : ℕ) (rows : List Row) → m ≤ n → AtLeast place n rows → AtLeast place m rows
  AtLeast-le m n [] h b = tt
  AtLeast-le m n (r ∷ rows) h b = (omega arith, AtLeast-le m n rows h b.1)

  -- An id that is not in the rest of the list has no row with a later place.
  no_later_row :
      (n : ℕ) (i : String) (ids : List String) (rows : List Row)
      → AtLeast place (suc n) rows
      → IsPlaced n (i ∷ ids) rows
      → times i ids ≡ 0
      → rows_with id i rows ≡ 0
  no_later_row n i ids [] b p h = refl
  no_later_row n i ids (r ∷ rows) b p h = ground (
    arith,
    eq_iff (id r) i,
    nth-times (place r - suc n) i ids,
    no_later_row n i ids rows b.1 p.1 h,
  )

  -- Where no row has the first id, every place is later.
  later_places :
      (n : ℕ) (i : String) (ids : List String) (rows : List Row)
      → AtLeast place n rows
      → IsPlaced n (i ∷ ids) rows
      → rows_with id i rows ≡ 0
      → AtLeast place (suc n) rows
  later_places n i ids [] b p h = tt
  later_places n i ids (r ∷ rows) b p h =
      ground (arith, eq_iff (id r) i, later_places n i ids rows b.1 p.1)

  IsPlaced-tail :
      (n : ℕ) (i : String) (ids : List String) (rows : List Row)
      → AtLeast place (suc n) rows
      → IsPlaced n (i ∷ ids) rows
      → IsPlaced (suc n) ids rows
  IsPlaced-tail n i ids [] b p = tt
  IsPlaced-tail n i ids (r ∷ rows) b p = (
    ap (λ k. nth k (i ∷ ids)) (later_step (place r) n b.0) ∙ p.0,
    IsPlaced-tail n i ids rows b.1 p.1,
  )

  module _ (n : ℕ) (i : String) (ids : List String) (r : Row) (rows : List Row)
      (ordered : IsAscending place (r ∷ rows)) (from_n : AtLeast place n (r ∷ rows))
      (placed : IsPlaced n (i ∷ ids) (r ∷ rows))
      (same : (j : String) → rows_with id j (r ∷ rows) ≡ times j (i ∷ ids))
      (once : (j : String) → times j (i ∷ ids) ≤ 1) where
    first_place : place r ≡ n
    first_place = ground (
      arith,
      eq_iff (id r) i,
      eq_refl i,
      same i,
      once i,
      nth-times (place r - suc n) i ids,
      AtLeast-le (suc n) (place r) rows,
      no_later_row n i ids rows,
    )

    first_id : id r ≡ i
    first_id = ground (arith, first_place)

    rest_without : rows_with id i rows ≡ 0
    rest_without = ground (arith, first_id, same i, once i, eq_refl i)

    rest_same : (j : String) → rows_with id j rows ≡ times j ids
    rest_same j = ground (arith, first_id, same j)

    rest_once : (j : String) → times j ids ≤ 1
    rest_once j = ground (arith, once j)

  -- Rows in the order of their places, which are the positions of their ids, have the ids in the
  -- order of the list.
  pub ids-ordered :
      (n : ℕ) (ids : List String) (rows : List Row)
      → IsAscending place rows
      → AtLeast place n rows
      → IsPlaced n ids rows
      → ((j : String) → rows_with id j rows ≡ times j ids)
      → ((j : String) → times j ids ≤ 1)
      → map id rows ≡ ids
  ids-ordered n [] [] a b p same once = refl
  ids-ordered n [] (r ∷ rows) a b p same once = ground (arith, p)
  ids-ordered n (i ∷ ids) [] a b p same once = absurd (ground (arith, same i, eq_refl i))
  ids-ordered n (i ∷ ids) (r ∷ rows) a b p same once =
      let later = later_places n i ids rows b.1 p.1 (rest_without n i ids r rows a b p same once) in
      ap (λ (j : String). j ∷ map id rows) (first_id n i ids r rows a b p same once)
      ∙ ap (i ∷◌) (
          ids-ordered (suc n) ids rows a.1 later (IsPlaced-tail n i ids rows later p.1)
            (rest_same n i ids r rows a b p same once) (rest_once n i ids r rows a b p same once))

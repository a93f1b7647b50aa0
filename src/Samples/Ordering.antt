-- ===== src/Samples/Ordering.antt =====
-- The join of an UPDATE with a list of values.
use open_profile_be.Prelude.{
  List, Option, Option-cases, String, [], any, arith, eq_iff, if◌then◌else◌, inl, inr, is_some,
  none, nth, refl, some, suc, ℕ, ◌==◌, ◌∷◌, ◌≡◌,
}
use open_profile_be.Profiles.Reorder.{missing}

-- The join of an UPDATE with the first value of an id.
abbrev pub first_position : List String → String → Option ℕ
first_position [] id = none
first_position (j ∷ ids) id =
    let later = first_position ids id in
    if j == id then some 0 else elim later [ none ↦ none | some i ↦ some (suc i) ]

pub first_position-matches :
    (ids : List String) (id : String) (i : ℕ) → first_position ids id ≡ some i → nth i ids ≡ some id
first_position-matches [] id i e = cc
first_position-matches (j ∷ ids) id i e = elim (Option-cases (first_position ids id)) [
  | inl missing ↦ ground (arith, eq_iff j id)
  | inr (k, later) ↦ ground (arith, eq_iff j id, first_position-matches ids id k later)
]

pub first_position-finds :
    (ids : List String) (id : String) → any (λ j. j == id) ids ≡ is_some (first_position ids id)
first_position-finds [] id = refl
first_position-finds (j ∷ ids) id = ground (arith, first_position-finds ids id)

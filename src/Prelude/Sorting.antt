-- ===== src/Prelude/Sorting.antt =====
-- `Array.prototype.sort` by a number, which is stable: insertion from the right.
use Prim.Native.Nat.{ℕ, ◌≤◌}
use mathlib.Core.Bool.{Bool}
use mathlib.Core.List.{List, [], ◌∷◌}
use mathlib.Core.Path.{◌≡◌, refl}
use native.Mathlib.Omega.{arith}
use open_profile_be.Prelude.Tests.{if◌then◌else◌, leb}
use open_profile_be.Prelude.Lists.{IsAscending, AtLeast, count_where}

module _ {A : Type 0} (order : A → ℕ) where
  abbrev pub insert_row : A → List A → List A
  insert_row a [] = a ∷ []
  insert_row a (b ∷ xs) =
      let rest = insert_row a xs in if leb (order a) (order b) then a ∷ b ∷ xs else b ∷ rest

  abbrev pub sort_rows : List A → List A
  sort_rows [] = []
  sort_rows (a ∷ xs) = insert_row a (sort_rows xs)

  AtLeast-weaken : (m n : ℕ) (xs : List A) → m ≤ n → AtLeast order n xs → AtLeast order m xs
  AtLeast-weaken m n [] h b = tt
  AtLeast-weaken m n (a ∷ xs) h b = (omega arith, AtLeast-weaken m n xs h b.1)

  AtLeast-insert_row :
      (n : ℕ) (a : A) (xs : List A)
      → n ≤ order a
      → AtLeast order n xs
      → AtLeast order n (insert_row a xs)
  AtLeast-insert_row n a [] h b = (h, tt)
  AtLeast-insert_row n a (c ∷ xs) h b = ground (arith, AtLeast-insert_row n a xs)

  insert_row-IsAscending :
      (a : A) (xs : List A) → IsAscending order xs → IsAscending order (insert_row a xs)
  insert_row-IsAscending a [] h = (tt, tt)
  insert_row-IsAscending a (b ∷ xs) h = ground (
    arith,
    AtLeast-insert_row (order b) a xs,
    insert_row-IsAscending a xs,
    AtLeast-weaken (order a) (order b) xs,
  )

  pub sort_rows-IsAscending : (xs : List A) → IsAscending order (sort_rows xs)
  sort_rows-IsAscending [] = tt
  sort_rows-IsAscending (a ∷ xs) =
      insert_row-IsAscending a (sort_rows xs) (sort_rows-IsAscending xs)

  insert_row_count :
      (q : A → Bool) (a : A) (xs : List A)
      → count_where q (insert_row a xs) ≡ count_where q (a ∷ xs)
  insert_row_count q a [] = refl
  insert_row_count q a (b ∷ xs) = ground (arith, insert_row_count q a xs)

  pub sort_rows_count :
      (q : A → Bool) (xs : List A) → count_where q (sort_rows xs) ≡ count_where q xs
  sort_rows_count q [] = refl
  sort_rows_count q (a ∷ xs) =
      ground (arith, insert_row_count q a (sort_rows xs), sort_rows_count q xs)

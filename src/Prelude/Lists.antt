-- ===== src/Prelude/Lists.antt =====
-- Lists as the rows of a table: search, change and removal by a test.
use Prim.Native.Nat.{ℕ, zero, suc, ◌+◌, ◌≤◌}
use mathlib.Core.Bool.{Bool, true, false, ◌||◌}
use mathlib.Core.Logic.{◌≢◌}
use mathlib.Core.Option.{Option, none, some}
use mathlib.Core.Path.{◌≡◌, refl}
use mathlib.Core.List.{List, [], ◌∷◌, ◌++◌}
use native.Mathlib.Omega.{arith}
use open_profile_be.Prelude.Tests.{if◌then◌else◌, is_some, ltb}

abbrev pub larger : ℕ → Option ℕ → Option ℕ
larger n none = some n
larger n (some m) = some (if ltb m n then n else m)

module _ {ℓ} {A : Type ℓ} where
  abbrev pub length : List A → ℕ
  length [] = 0
  length (a ∷ xs) = suc (length xs)

  -- The first element that passes, as `Array.prototype.find` returns it.
  abbrev pub first : (A → Bool) → List A → Option A
  first p [] = none
  first p (a ∷ xs) = if p a then some a else first p xs

  -- The last element that passes.
  abbrev pub last_where : (A → Bool) → List A → Option A
  last_where p [] = none
  last_where p (a ∷ xs) =
      let later = last_where p xs in
      elim later [ some b ↦ some b | none ↦ if p a then some a else none ]

  abbrev pub any : (A → Bool) → List A → Bool
  any p [] = false
  any p (a ∷ xs) = p a || any p xs

  abbrev pub count_where : (A → Bool) → List A → ℕ
  count_where p [] = 0
  count_where p (a ∷ xs) = (if p a then 1 else 0) + count_where p xs

  -- `f` at every element that passes.
  abbrev pub map_where : (A → Bool) → (A → A) → List A → List A
  map_where p f [] = []
  map_where p f (a ∷ xs) = (if p a then f a else a) ∷ map_where p f xs

  abbrev pub reject : (A → Bool) → List A → List A
  reject p [] = []
  reject p (a ∷ xs) = let rest = reject p xs in if p a then rest else a ∷ rest

  abbrev pub nth : ℕ → List A → Option A
  nth n [] = none
  nth zero (a ∷ xs) = some a
  nth (suc n) (a ∷ xs) = nth n xs

  abbrev pub keep : (A → Bool) → List A → List A
  keep p [] = []
  keep p (a ∷ xs) = let rest = keep p xs in if p a then a ∷ rest else rest

  -- No element comes before one with a smaller key.
  abbrev pub AtLeast : (A → ℕ) → ℕ → List A → Type 0
  AtLeast key n [] = Unit
  AtLeast key n (a ∷ xs) = n ≤ key a × AtLeast key n xs

  abbrev pub IsAscending : (A → ℕ) → List A → Type 0
  IsAscending key [] = Unit
  IsAscending key (a ∷ xs) = AtLeast key (key a) xs × IsAscending key xs

  -- The greatest key.
  abbrev pub greatest : (A → ℕ) → List A → Option ℕ
  greatest key [] = none
  greatest key (a ∷ xs) = larger (key a) (greatest key xs)

abbrev pub All {ℓ} : {A : Type ℓ} → (A → Type 0) → List A → Type 0
All P [] = Unit
All P (a ∷ xs) = P a × All P xs

pub All-append {ℓ} :
    {A : Type ℓ} (P : A → Type 0) (xs : List A) (a : A) → All P xs → P a → All P (xs ++ a ∷ [])
All-append P [] a h p = (p, tt)
All-append P (b ∷ xs) a h p = (h.0, All-append P xs a h.1 p)

module _ {ℓ} {A : Type ℓ} where
  abbrev pub or_else : Option A → Option A → Option A
  or_else none b = b
  or_else (some a) b = some a

  pub first-append :
      (p : A → Bool) (xs ys : List A) → first p (xs ++ ys) ≡ or_else (first p xs) (first p ys)
  first-append p [] ys = refl
  first-append p (x ∷ xs) ys = ground (arith, first-append p xs ys)

  -- What is found passes the test.
  pub first-passes : (p : A → Bool) (xs : List A) (a : A) → first p xs ≡ some a → p a ≡ true
  first-passes p [] a e = cc
  first-passes p (x ∷ xs) a e = ground (arith, first-passes p xs a)

  -- Nothing that is removed is found, and what is found among the rest passed the other test.
  pub first-reject_self : (p : A → Bool) (xs : List A) → first p (reject p xs) ≡ none
  first-reject_self p [] = refl
  first-reject_self p (x ∷ xs) = ground (arith, first-reject_self p xs)

  pub count_where-ne-zero :
      (p : A → Bool) (xs : List A) (a : A) → first p xs ≡ some a → count_where p xs ≢ 0
  count_where-ne-zero p [] a e = cc
  count_where-ne-zero p (x ∷ xs) a e = ground (arith, count_where-ne-zero p xs a)

  pub any-first : (p : A → Bool) (xs : List A) → any p xs ≡ is_some (first p xs)
  any-first p [] = refl
  any-first p (x ∷ xs) = ground (arith, any-first p xs)

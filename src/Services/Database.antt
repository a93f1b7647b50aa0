-- ===== src/Services/Database.antt =====
-- A TypeORM repository over one table, seen as the list of its rows in the order of insertion.
use open_profile_be.Prelude.{
  Bool, Bool-cases, IsAscending, List, Option, Option-cases, String, [], any, ap, arith,
  count_where, eq_refl, false, first, greatest, if◌then◌else◌, inl, inr, keep, last_where,
  map_where, none, not, reject, some, sym, true, ℕ, ◌&&◌, ◌++◌, ◌==◌, ◌∙◌, ◌∷◌, ◌≡◌,
}

-- An INSERT fails, with code 23505, where a row shares a unique index with it.
abbrev pub inserted : {A : Type 0} → Bool → List A → A → Option (List A)
inserted true rows a = none
inserted false rows a = some (rows ++ a ∷ [])

abbrev pub all_apart : {A : Type 0} → (A → A → Bool) → List A → Bool
all_apart clashes [] = true
all_apart clashes (a ∷ rows) = not (any (clashes a) rows) && all_apart clashes rows

abbrev pub unless_clashing : {A : Type 0} → Bool → List A → Option (List A)
unless_clashing true rows = some rows
unless_clashing false rows = none

abbrev pub rows_of : {T A : Type 0} → (T → List A) → Option T → Option (List A)
rows_of rows none = none
rows_of rows (some t) = some (rows t)

pub record Repository (Row : Type 0) : Type 1 where
  pub Table : Type 0
  pub rows : Table → List Row
  -- Whether two rows break a unique index of the table.
  pub clashes : Row → Row → Bool
  -- A criterion of the program is a test of rows.
  pub find_one : (Row → Bool) → Table → Option Row
  -- `order: { createdAt: 'DESC' }`
  pub find_latest : (Row → Bool) → Table → Option Row
  pub insert : Row → Table → Option Table
  -- An update of columns that no unique index covers.
  pub update : (Row → Bool) → (Row → Row) → Table → Table
  -- An update of one row that may break a unique index.
  pub update_unique : (Row → Bool) → (Row → Row) → Table → Option Table
  -- `find({ where })` and `find({ where, order: { key: 'ASC' } })`
  pub find : (Row → Bool) → Table → List Row
  pub find_ordered : (Row → ℕ) → (Row → Bool) → Table → List Row
  -- `SELECT MAX(key) … WHERE …`, which is NULL where no row passes.
  pub select_max : (Row → ℕ) → (Row → Bool) → Table → Option ℕ
  -- The number of deleted rows, `affected`, beside the table.
  pub delete : (Row → Bool) → Table → ℕ × Table
  pub find_one_lem : (p : Row → Bool) (t : Table) → find_one p t ≡ first p (rows t)
  pub find_latest_lem : (p : Row → Bool) (t : Table) → find_latest p t ≡ last_where p (rows t)
  pub find_lem : (p : Row → Bool) (t : Table) → find p t ≡ keep p (rows t)
  -- The rows that pass, each as often as it is there, and none before one with a smaller key.
  pub find_ordered-IsAscending :
      (order : Row → ℕ) (p : Row → Bool) (t : Table) → IsAscending order (find_ordered order p t)
  pub find_ordered_count :
      (order : Row → ℕ) (p q : Row → Bool) (t : Table)
      → count_where q (find_ordered order p t) ≡ count_where q (keep p (rows t))
  pub select_max_lem :
      (order : Row → ℕ) (p : Row → Bool) (t : Table)
      → select_max order p t ≡ greatest order (keep p (rows t))
  pub rows-insert :
      (a : Row) (t : Table)
      → rows_of rows (insert a t) ≡ inserted (any (clashes a) (rows t)) (rows t) a
  pub rows-update :
      (p : Row → Bool) (f : Row → Row) (t : Table) → rows (update p f t) ≡ map_where p f (rows t)
  -- An UPDATE fails where two of the rows that it leaves share a unique index.
  pub rows-update_unique :
      (p : Row → Bool) (f : Row → Row) (t : Table)
      → rows_of rows (update_unique p f t)
        ≡ unless_clashing (all_apart clashes (map_where p f (rows t))) (map_where p f (rows t))
  pub rows-delete : (p : Row → Bool) (t : Table) → rows (delete p t).1 ≡ reject p (rows t)
  pub affected_lem : (p : Row → Bool) (t : Table) → (delete p t).0 ≡ count_where p (rows t)

module _ {Row : Type 0} (r : Repository Row) where
  -- An insert that goes through has put the row at the end.
  pub rows_of_insert :
      (a : Row) (t t' : r.Table) → r.insert a t ≡ some t' → r.rows t' ≡ r.rows t ++ a ∷ []
  rows_of_insert a t t' e = ground (arith, r.rows-insert a t)

  -- An insert goes through where no row shares a unique index with the new one.
  pub insert_of_no_clash :
      (a : Row) (t : r.Table)
      → any (r.clashes a) (r.rows t) ≡ false
      → (t' : r.Table) × (r.insert a t ≡ some t') × (r.rows t' ≡ r.rows t ++ a ∷ [])
  insert_of_no_clash a t h = elim (Option-cases (r.insert a t)) [
    | inl e ↦ absurd (ground (arith, r.rows-insert a t))
    | inr (t', e) ↦ (t', e, rows_of_insert a t t' e)
  ]

module _ {Row : Type 0} where
  pub found_here :
      (q : Row → Bool) (r p : Row) (rows : List Row)
      → q r ≡ true
      → first q (r ∷ rows) ≡ some p
      → r ≡ p
  found_here q r p rows h e =
      ap (λ (o : Option Row). elim o [ some a ↦ a | none ↦ r ])
        (ap (λ b. if b then some r else first q rows) (sym h) ∙ e)

  -- A search finds the row that was saved over the one that it found.
  pub first-replaced :
      (id : Row → String) (q : Row → Bool) (p p' : Row) (rows : List Row)
      → q p' ≡ true
      → first q rows ≡ some p
      → first q (map_where (λ r. id r == id p) (λ _. p') rows) ≡ some p'
  first-replaced id q p p' [] h e = absurd (ground (arith, e))
  first-replaced id q p p' (r ∷ rows) h e = elim (Bool-cases (q r)) [
    | inl here ↦ ground (arith, ap id (found_here q r p rows here e), eq_refl (id p))
    | inr later ↦ ground (arith, first-replaced id q p p' rows h)
  ]

-- ===== src/Profiles/Reorder/Others.antt =====
-- What a reorder leaves as it was.
use open_profile_be.Entities.Pages.{Profile}
use open_profile_be.Exec.{Exception, Result, commit, continue, err, ok, pure, transaction, ◌>>◌}
use open_profile_be.Prelude.{
  All, List, Option, String, [], any, ap, arith, eq_iff, eq_refl, false, inl, inr, is_some, refl,
  some, subst, sym, true, ◌+◌, ◌<◌, ◌==◌, ◌∙◌, ◌∷◌, ◌≡◌, ◌≤◌, ◌⊎◌,
}
use open_profile_be.Profiles.Reorder.{
  foreign, is_among, is_empty, place, reorder, reorder_found, reorder_rows, rows_of_profile,
}
use open_profile_be.Profiles.Reorder.Answer.{known_ids, written_table}
use open_profile_be.Profiles.Reorder.Lists.{rows_with}
use open_profile_be.Profiles.Reorder.Rows.{any-count, listed, profile_id-written, reordered}
use open_profile_be.Profiles.Sections.{
  Section, has_row_id, invalidate_cache, profile_of_user, table_of,
}
use open_profile_be.Services.{Services}
use open_profile_be.World.{Pages, World}
use open_profile_be.Redis

module _ (x : Services) {Row : Type 0} (s : Section x Row) where
  two_profiles :
      (p q j : String) (rows : List Row)
      → (q == p) ≡ false
      → rows_with s.id j (listed x s p rows) + rows_with s.id j (listed x s q rows)
        ≤ rows_with s.id j rows
  two_profiles p q j [] h = omega arith
  two_profiles p q j (r ∷ rows) h = ground (
    arith,
    eq_iff (s.profile_id r) p,
    eq_iff (s.profile_id r) q,
    eq_iff q p,
    two_profiles p q j rows h,
  )

  id-known :
      (p i : String) (ids : List String) (rows : List Row)
      → All (λ j. any (has_row_id x s j) (listed x s p rows) ≡ true) ids
      → is_among ids i ≡ true
      → 0 < rows_with s.id i (listed x s p rows)
  id-known p i [] rows h k = absurd (ground arith)
  id-known p i (j ∷ ids) rows h k = ground (
    arith,
    eq_iff j i,
    any-count (has_row_id x s j) (listed x s p rows),
    id-known p i ids rows h.1,
  )

  -- Rows of a profile that has none of the ids.
  listed-reordered :
      (q : String) (ids : List String) (rows : List Row)
      → ((i : String) → is_among ids i ≡ true → rows_with s.id i (listed x s q rows) ≡ 0)
      → listed x s q (reordered x s ids rows) ≡ listed x s q rows
  listed-reordered q ids [] h = refl
  listed-reordered q ids (r ∷ rows) h = ground (
    arith,
    profile_id-written x s ids r,
    h (s.id r),
    x.pages.joined-finds ids (s.id r),
    eq_refl (s.id r),
    listed-reordered q ids rows (λ i k. ground (arith, h i k)),
  )

  others-reordered :
      (p q : String) (ids : List String) (rows : List Row)
      → (q == p) ≡ false
      → ((j : String) → rows_with s.id j rows ≤ 1)
      → All (λ j. any (has_row_id x s j) (listed x s p rows) ≡ true) ids
      → listed x s q (reordered x s ids rows) ≡ listed x s q rows
  others-reordered p q ids rows h unique known =
      listed-reordered q ids rows
        λ i k. ground (arith, two_profiles p q i rows h, unique i, id-known p i ids rows known k)

  module _ (user : String) (ids : List String) (w : World x) (p : Profile)
      (owner : profile_of_user x user w ≡ some p) where
    -- The rows that a step of the reorder leaves.
    pub pages-reorder_rows :
        (((reorder_rows x s p.id ids w).1.pages ≡ w.pages)
          ⊎ ((is_empty (foreign x s (rows_of_profile x s p.id w) ids) ≡ true)
              × ((reorder_rows x s p.id ids w).1.pages
                  ≡ s.put (written_table x s p.id ids w) w.pages)))
    unfolding reorder_rows
    pages-reorder_rows = ground arith

    pages-after :
        (r : Result (List Row) × World x)
        → (continue
            (commit r.0 w r.1).0
            (λ result. invalidate_cache x p.username >> pure result)
            (commit r.0 w r.1).1).1.pages
          ≡ (commit r.0 w r.1).1.pages
    unfolding invalidate_cache Redis.del
    pages-after (ok rows, v) = ground arith
    pages-after (err e', v) = ground arith

    pub pages-reorder :
        (reorder x s user ids w).1.pages ≡ (transaction (reorder_rows x s p.id ids) w).1.pages
    unfolding reorder
    pages-reorder =
        ap (λ (o : Option Profile). (reorder_found x s ids o w).1.pages) owner
        ∙ pages-after (reorder_rows x s p.id ids w)

    pub committed :
        (r : Result (List Row) × World x) (P : Pages x → Type 0)
        → P w.pages
        → P r.1.pages
        → P (commit r.0 w r.1).1.pages
    committed (ok rows, v) P held after = after
    committed (err e, v) P held after = held

    others-written :
        (q : String)
        → (q == p.id) ≡ false
        → ((j : String) → rows_with s.id j (s.repository.rows (table_of x s w)) ≤ 1)
        → is_empty (foreign x s (rows_of_profile x s p.id w) ids) ≡ true
        → listed x s q (s.repository.rows (s.table (s.put (written_table x s p.id ids w) w.pages)))
          ≡ listed x s q (s.repository.rows (table_of x s w))
    others-written q other unique known =
        ap (λ t. listed x s q (s.repository.rows t))
          (s.table-put (written_table x s p.id ids w) w.pages)
        ∙ ap (listed x s q) (
            s.repository.rows-update (λ r. is_some (x.pages.joined ids (s.id r))) (place x s ids)
              (table_of x s w))
        ∙ others-reordered p.id q ids (s.repository.rows (table_of x s w)) other unique
            (known_ids x s user ids w p owner known)

    -- A reorder by the owner of a profile leaves the rows of every other profile as they were,
    -- whether it returns or throws. No two rows of the table have the same id.
    pub reorder-others :
        (q : String)
        → (q == p.id) ≡ false
        → ((j : String) → rows_with s.id j (s.repository.rows (table_of x s w)) ≤ 1)
        → listed x s q (s.repository.rows (table_of x s (reorder x s user ids w).1))
          ≡ listed x s q (s.repository.rows (table_of x s w))
    reorder-others q other unique =
        let Same : (Pages x → Type 0) = (λ g.
          listed x s q (s.repository.rows (s.table g))
          ≡ listed x s q (s.repository.rows (table_of x s w))) in
        subst Same (sym pages-reorder) (
          committed (reorder_rows x s p.id ids w) Same refl (elim pages-reorder_rows [
            | inl same ↦ subst Same (sym same) refl
            | inr (known, new) ↦ subst Same (sym new) (others-written q other unique known)
          ]))

    -- A reorder by the owner of a profile that the checks of the ids refuse changes nothing.
    pub reorder-refused :
        (e : Exception)
        → (reorder_rows x s p.id ids w).0 ≡ err e
        → reorder x s user ids w ≡ (err e, w)
    unfolding reorder
    reorder-refused e h =
        ap (λ (o : Option Profile). reorder_found x s ids o w) owner
        ∙ ap
            (λ (r : Result (List Row)).
              continue {S = World x} (commit r w (reorder_rows x s p.id ids w).1).0
                (λ result. invalidate_cache x p.username >> pure result)
                (commit r w (reorder_rows x s p.id ids w).1).1)
            h

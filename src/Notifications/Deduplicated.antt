-- ===== src/Notifications/Deduplicated.antt =====
-- A notification with a key is dispatched once, and counts as unread.
use open_profile_be.Entities.Notifications.{Notification, same_text}
use open_profile_be.Exec.{Result, continue, ok, pure}
use open_profile_be.Notifications.{
  DispatchNotification, after_insert, dispatch, is_unread, mail_to, new_notification,
  put_notification, send_notification_mail, unread_count,
}
use open_profile_be.Prelude.{
  Bool, Bool-cases, List, Option, Option-cases, String, [], any, ap, arith, eq_refl, false,
  if◌then◌else◌, inl, inr, keep, length, none, refl, some, subst, suc, sym, true, truthy, ℕ, ◌&&◌,
  ◌+◌, ◌++◌, ◌==◌, ◌∙◌, ◌∷◌, ◌≡◌,
}
use open_profile_be.Services.{Services}
use open_profile_be.Services.Database.{inserted, rows_of, rows_of_insert}
use open_profile_be.World.{World}
use open_profile_be.Queue

any-same : {A : Type 0} (p q : A → Bool) (xs : List A) → ((a : A) → p a ≡ q a) → any p xs ≡ any q xs
any-same p q [] h = refl
any-same p q (a ∷ xs) h = ground (arith, h a, any-same p q xs h)

any-last :
    {A : Type 0} (p : A → Bool) (xs : List A) (a : A) → p a ≡ true → any p (xs ++ a ∷ []) ≡ true
any-last p [] a h = ground arith
any-last p (b ∷ xs) a h = ground (arith, any-last p xs a h)

length-keep-last :
    {A : Type 0} (p : A → Bool) (xs : List A) (a : A)
    → p a ≡ true
    → length (keep p (xs ++ a ∷ [])) ≡ length (keep p xs) + 1
length-keep-last p [] a h = ground arith
length-keep-last p (b ∷ xs) a h = ground (arith, length-keep-last p xs a h)

module _ (x : Services) (p : DispatchNotification) where
  -- Whether a row has the user and the key.
  abbrev pub is_same : Notification → Bool
  is_same n = p.user_id == n.user_id && same_text p.dedupe_key n.dedupe_key

  abbrev pub rows_at : World x → List Notification
  rows_at w = x.tracking.notifications.rows w.tracking.notifications

  abbrev drawn_row : World x → Notification
  drawn_row w = new_notification x p (x.crypto.uuid w.drawn) w.now

  abbrev insertion : World x → Option x.tracking.notifications.Table
  insertion w = x.tracking.notifications.insert (drawn_row w) w.tracking.notifications

  -- The world once the id is drawn.
  abbrev after_draw : World x → World x
  after_draw w = record w { drawn = suc w.drawn }

  dispatch_lem :
      (w : World x) → dispatch x p w ≡ after_insert x p (drawn_row w) (insertion w) (after_draw w)
  unfolding dispatch
  dispatch_lem w = refl

  insertion_lem :
      (w : World x)
      → rows_of x.tracking.notifications.rows (insertion w)
        ≡ inserted (any is_same (rows_at w)) (rows_at w) (drawn_row w)
  insertion_lem w =
      x.tracking.notifications.rows-insert (drawn_row w) w.tracking.notifications
      ∙ ap (λ b. inserted b (rows_at w) (drawn_row w))
          (any-same (x.tracking.notifications.clashes (drawn_row w)) is_same (rows_at w)
            (x.tracking.clashes-same_dedupe (drawn_row w)))

  mail_to_lem :
      (o : Option String) (w : World x)
      → ((mail_to x p o w).0 ≡ ok tt) × ((mail_to x p o w).1.tracking ≡ w.tracking)
  unfolding Queue.add_job
  mail_to_lem none w = (refl, refl)
  mail_to_lem (some to) w = ground arith

  after_insert_lem :
      (n : Notification) (t : x.tracking.notifications.Table) (w : World x)
      → ((after_insert x p n (some t) w).0 ≡ ok (some n))
        × ((after_insert x p n (some t) w).1.tracking.notifications ≡ t)
  unfolding send_notification_mail
  after_insert_lem n t w =
      let o = if p.send_email then truthy p.user_email else none in
      let v = put_notification x n t w in
      let mailed = mail_to_lem o v in
      let Ends : (Result (Unit {0}) → Type 0) = (λ r.
        ((continue {S = World x} r (λ _. pure (some n)) (mail_to x p o v).1).0 ≡ ok (some n))
        × ((continue {S = World x} r (λ _. pure (some n))
              (mail_to x p o v).1).1.tracking.notifications
            ≡ t)) in
      subst Ends (sym mailed.0) (refl, ap (λ g. g.notifications) mailed.1)

  refused : (w : World x) → any is_same (rows_at w) ≡ true → insertion w ≡ none
  refused w h = elim (Option-cases (insertion w)) [
    | inl e ↦ e
    | inr (t, e) ↦ absurd (ground (arith, insertion_lem w))
  ]

  dispatch_refused :
      (w : World x) → any is_same (rows_at w) ≡ true → dispatch x p w ≡ (ok none, after_draw w)
  dispatch_refused w h =
      dispatch_lem w ∙ ap (λ o. after_insert x p (drawn_row w) o (after_draw w)) (refused w h)

  rows_at-dispatch :
      (w : World x)
      → any is_same (rows_at w) ≡ false
      → rows_at (dispatch x p w).1 ≡ rows_at w ++ drawn_row w ∷ []
  rows_at-dispatch w h = elim (Option-cases (insertion w)) [
    | inl e ↦ absurd (ground (arith, insertion_lem w))
    | inr (t, e) ↦
        ap rows_at (
          ap (λ (r : Result (Option Notification) × World x). r.1)
            (dispatch_lem w ∙ ap (λ o. after_insert x p (drawn_row w) o (after_draw w)) e))
        ∙ ap x.tracking.notifications.rows (after_insert_lem (drawn_row w) t (after_draw w)).1
        ∙ rows_of_insert x.tracking.notifications (drawn_row w) w.tracking.notifications t e
  ]

  unread-dispatch :
      (w : World x)
      → length (keep (is_unread p.user_id) (rows_at (dispatch x p w).1))
        ≡ length (keep (is_unread p.user_id) (rows_at w))
          + (if any is_same (rows_at w) then 0 else 1)
  unread-dispatch w =
      let count : (List Notification → ℕ) = (λ rows. length (keep (is_unread p.user_id) rows)) in
      elim (Bool-cases (any is_same (rows_at w))) [
        | inl h ↦ ground (
          arith,
          h,
          ap (λ (r : Result (Option Notification) × World x). count (rows_at r.1))
              (dispatch_refused w h),
        )
        | inr h ↦ ground (
          arith,
          h,
          ap count (rows_at-dispatch w h),
          length-keep-last (is_unread p.user_id) (rows_at w) (drawn_row w)
              (ground (arith, eq_refl p.user_id)),
        )
      ]

module _ (x : Services) (p q : DispatchNotification) (k : String)
    (same_user : q.user_id ≡ p.user_id) (keyed : p.dedupe_key ≡ some k)
    (keyed' : q.dedupe_key ≡ some k) where
  is_same-first : (n : Notification) → is_same x q n ≡ is_same x p n
  is_same-first n =
      ap (λ u. u == n.user_id && same_text q.dedupe_key n.dedupe_key) same_user
      ∙ ap (λ o. p.user_id == n.user_id && same_text o n.dedupe_key) (keyed' ∙ sym keyed)

  drawn_row_lem : (w : World x) → is_same x q (drawn_row x p w) ≡ true
  drawn_row_lem w =
      is_same-first (drawn_row x p w)
      ∙ subst (λ o. p.user_id == p.user_id && same_text o o ≡ true) (sym keyed)
          (ground (arith, eq_refl p.user_id, eq_refl k))

  any-dispatch : (w : World x) → any (is_same x q) (rows_at x q (dispatch x p w).1) ≡ true
  any-dispatch w = elim (Bool-cases (any (is_same x p) (rows_at x p w))) [
    | inl h ↦
        ap (λ (r : Result (Option Notification) × World x). any (is_same x q) (rows_at x q r.1))
          (dispatch_refused x p w h)
        ∙ any-same (is_same x q) (is_same x p) (rows_at x p w) is_same-first
        ∙ h
    | inr h ↦
        ap (any (is_same x q)) (rows_at-dispatch x p w h)
        ∙ any-last (is_same x q) (rows_at x p w) (drawn_row x p w) (drawn_row_lem w)
  ]

-- Of two notifications of one user with one key, whatever else they say, the second is not stored,
-- pushed or mailed, whatever came between them that keeps the table. The first has raised the
-- user's count of unread notifications by one, unless a row with the user and the key was there.
pub dispatch-once :
    (x : Services) (p q : DispatchNotification) (k : String) (w v : World x)
    → q.user_id ≡ p.user_id
    → p.dedupe_key ≡ some k
    → q.dedupe_key ≡ some k
    → v.tracking.notifications ≡ (dispatch x p w).1.tracking.notifications
    → ((dispatch x q v).0 ≡ ok none)
      × ((dispatch x q v).1.tracking ≡ v.tracking)
      × ((dispatch x q v).1.jobs ≡ v.jobs)
      × ((unread_count x p.user_id (dispatch x p w).1).0
          ≡ ok (
              length (keep (is_unread p.user_id) (rows_at x p w))
              + (if any (is_same x p) (rows_at x p w) then 0 else 1)))
unfolding unread_count
dispatch-once x p q k w v same_user keyed keyed' same =
    let second = dispatch_refused x q v (
      ap (λ t. any (is_same x q) (x.tracking.notifications.rows t)) same
      ∙ any-dispatch x p q k same_user keyed keyed' w) in
    (
      ap (λ (r : Result (Option Notification) × World x). r.0) second,
      ap (λ (r : Result (Option Notification) × World x). r.1.tracking) second,
      ap (λ (r : Result (Option Notification) × World x). r.1.jobs) second,
      ap (λ (rows : List Notification). ok (length rows))
            (x.tracking.notifications.find_lem (is_unread p.user_id)
              (dispatch x p w).1.tracking.notifications)
          ∙ ap ok (unread-dispatch x p w),
    )

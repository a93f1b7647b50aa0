-- ===== src/Admin/AccountStatus/Branches.antt =====
-- What `apply` answers and writes on each of its branches.
use open_profile_be.Admin.AccountStatus.{
  StatusChangeResult, apply, history_row, put_history, with_status,
}
use open_profile_be.Admin.Transitions.{UserStatusAction, allows, status_eq, status_transitions}
use open_profile_be.Auth.UserStatusCache.{has_id, user_status_cache_key}
use open_profile_be.Entities.{User, UserStatus}
use open_profile_be.Exec.{err, http, ok, pure, ◌>>◌}
use open_profile_be.Prelude.{
  Bool-cases, Option, Option-cases, String, false, inl, inr, none, some, true, ◌≡◌,
}
use open_profile_be.Services.{Services}
use open_profile_be.World.{World, unique_violation}
use open_profile_be.Redis

module _ (x : Services) (user_id admin_id : String) (action : UserStatusAction) where
  abbrev pub target : UserStatus
  target = (status_transitions action).target

  abbrev pub found : World x → Option User
  found w = x.users.find_one (has_id user_id) w.users

  -- The world that a change of state leaves, up to Redis.
  abbrev pub changed_world : World x → x.status_history.Table → World x
  changed_world w t =
      put_history x
        (record w { users = x.users.update (has_id user_id) (with_status target) w.users }) t

  pub apply_missing :
      (w : World x)
      → found w ≡ none
      → apply x user_id action admin_id w ≡ (err (http 404 "User not found"), w)
  unfolding apply
  apply_missing w e = rw e

  module _ (w : World x) (u : User) (e : found w ≡ some u) where
    pub apply_unchanged :
        status_eq u.status target ≡ true
        → apply x user_id action admin_id w
          ≡ (ok (record { from = u.status; to = target; changed = false }), w)
    unfolding apply
    apply_unchanged same = rw (e, same)

    pub apply_refused :
        status_eq u.status target ≡ false
        → allows (status_transitions action) u.status ≡ false
        → apply x user_id action admin_id w ≡ (err (http 409 "Conflict"), w)
    unfolding apply
    apply_refused differs refused = rw (e, differs, refused)

    module _ (differs : status_eq u.status target ≡ false)
        (allowed : allows (status_transitions action) u.status ≡ true) where
      pub apply_clash :
          x.status_history.insert
              (history_row x user_id u.status target admin_id w)
              w.status_history
            ≡ none
          → apply x user_id action admin_id w ≡ (err unique_violation, w)
      unfolding apply
      apply_clash clash = rw (e, differs, allowed, clash)

      pub apply_changed :
          (t : x.status_history.Table)
          → x.status_history.insert
              (history_row x user_id u.status target admin_id w)
              w.status_history
            ≡ some t
          → apply x user_id action admin_id w
            ≡ (do
              Redis.del x (user_status_cache_key user_id)
              pure (record { from = u.status; to = target; changed = true }))
                (changed_world w t)
      unfolding apply
      apply_changed t stored_row = rw (e, differs, allowed, stored_row)

  -- The end of `apply` after its transaction touches neither table.
  tables-del :
      (P : x.users.Table → x.status_history.Table → Type 0) (k : String) (r : StatusChangeResult)
      (w : World x)
      → P w.users w.status_history
      → P ((do Redis.del x k; pure r) w).1.users ((do Redis.del x k; pure r) w).1.status_history
  unfolding Redis.del
  tables-del P k r w h = elim (Bool-cases w.redis_up) [ inl up ↦ rw up h | inr down ↦ rw down h ]

  apply_cases_allowed :
      (P : x.users.Table → x.status_history.Table → Type 0) (w : World x)
      → P w.users w.status_history
      → (u : User) (e : found w ≡ some u) (differs : status_eq u.status target ≡ false)
      → (allowed : allows (status_transitions action) u.status ≡ true)
      → ((t : x.status_history.Table)
          → found w ≡ some u
          → allows (status_transitions action) u.status ≡ true
          → x.status_history.insert
              (history_row x user_id u.status target admin_id w)
              w.status_history
            ≡ some t
          → P (changed_world w t).users t)
      → P
          (apply x user_id action admin_id w).1.users
          (apply x user_id action admin_id w).1.status_history
  apply_cases_allowed P w before u e differs allowed after =
      elim (Option-cases (
        x.status_history.insert (history_row x user_id u.status target admin_id w)
          w.status_history)) [
            | inl clash ↦ rw (apply_clash w u e differs allowed clash) before
            | inr (t, went) ↦ rw (apply_changed w u e differs allowed t went) (
                tables-del P (user_status_cache_key user_id) _ (changed_world w t)
                  (after t e allowed went))
          ]

  -- What holds of the two tables before `apply`, and after a change that its guards let through,
  -- holds of them after every `apply`.
  pub apply_cases :
      (P : x.users.Table → x.status_history.Table → Type 0) (w : World x)
      → P w.users w.status_history
      → ((u : User) (t : x.status_history.Table)
          → found w ≡ some u
          → allows (status_transitions action) u.status ≡ true
          → x.status_history.insert
              (history_row x user_id u.status target admin_id w)
              w.status_history
            ≡ some t
          → P (changed_world w t).users t)
      → P
          (apply x user_id action admin_id w).1.users
          (apply x user_id action admin_id w).1.status_history
  apply_cases P w before after = elim (Option-cases (found w)) [
    | inl e ↦ rw (apply_missing w e) before
    | inr (u, e) ↦ elim (Bool-cases (status_eq u.status target)) [
      | inl same ↦ rw (apply_unchanged w u e same) before
      | inr differs ↦ elim (Bool-cases (allows (status_transitions action) u.status)) [
        | inr refused ↦ rw (apply_refused w u e differs refused) before
        | inl allowed ↦ apply_cases_allowed P w before u e differs allowed (after u)
      ]
    ]
  ]

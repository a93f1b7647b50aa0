-- ===== src/Admin/AccountStatus/Effect.antt =====
-- What a change of state does to the account check of the guards (modules/auth/services/
-- user-status.service.ts), which reads states through a cache.
use open_profile_be.Admin.AccountStatus.{StatusChangeResult, apply, history_row, with_status}
use open_profile_be.Admin.AccountStatus.Branches.{
  apply_changed, apply_clash, apply_missing, apply_refused, apply_unchanged, changed_world, found,
  target,
}
use open_profile_be.Admin.Transitions.{UserStatusAction, allows, status_eq, status_transitions}
use open_profile_be.Auth.Codes.Spent.{find_one-update}
use open_profile_be.Auth.UserStatusCache.{
  has_id, is_active, is_inactive, read_through, resolve_status, status_or_active, status_text,
  user_status_cache_key,
}
use open_profile_be.Entities.{User, UserStatus}
use open_profile_be.Exec.{Exception, Result, err, http, ok, pure, ◌>>◌}
use open_profile_be.Prelude.{
  Bool-cases, Option-cases, String, arith, eq_iff, eq_refl, false, first-passes, inl, inr, none,
  not, refl, some, subst, sym, true, ℕ, ◌∙◌, ◌≡◌,
}
use open_profile_be.Redis.Laws.{peek}
use open_profile_be.Services.{Services}
use open_profile_be.World.{World, unique_violation}
use open_profile_be.Redis

module _ (x : Services) (user_id admin_id : String) (action : UserStatusAction) where
  -- The check of an account whose cached state is gone.
  is_active-uncached :
      (w : World x) (u : User)
      → w.redis_up ≡ true
      → w.database_up ≡ true
      → x.redis.entry w.redis (user_status_cache_key user_id) ≡ none
      → x.users.find_one (has_id user_id) w.users ≡ some u
      → (is_active x user_id w).0 ≡ ok (not (is_inactive (status_text u.status)))
  unfolding is_active resolve_status read_through Redis.get Redis.set status_or_active
  is_active-uncached w u up answers gone found =
      let missing : peek x w (user_status_cache_key user_id) ≡ none = rw gone in
      ground (arith, x.redis.get_missing w.redis w.now (user_status_cache_key user_id) missing)

  find_one-changed :
      (w : World x) (u : User)
      → found x user_id admin_id action w ≡ some u
      → x.users.find_one
          (has_id user_id)
          (x.users.update (has_id user_id) (with_status (target x user_id admin_id action)) w.users)
        ≡ some (with_status (target x user_id admin_id action) u)
  find_one-changed w u e =
      let same : u.id ≡ user_id = ground (
        arith,
        eq_iff u.id user_id,
        first-passes (has_id user_id) (x.users.rows w.users) u
            (sym (x.users.find_one_lem (has_id user_id) w.users) ∙ e),
      ) in
      let f = with_status (target x user_id admin_id action) in
      subst
        (λ i. x.users.find_one (has_id user_id) (x.users.update (has_id i) f w.users) ≡ some (f u))
        same (find_one-update x (has_id user_id) f w.users u (λ v. refl) e)

  is_active-deleted :
      (w : World x) (u : User) (r : StatusChangeResult) (now : ℕ)
      → w.redis_up ≡ true
      → x.users.find_one (has_id user_id) w.users ≡ some u
      → let v = ((do Redis.del x (user_status_cache_key user_id); pure r) w).1 in
        (is_active x user_id (record v { now = now; database_up = true })).0
        ≡ ok (not (is_inactive (status_text u.status)))
  unfolding Redis.del
  is_active-deleted w u r now up found =
      let v = ((do Redis.del x (user_status_cache_key user_id); pure r) w).1 in
      is_active-uncached (record v { now = now; database_up = true }) u (ground arith) refl
        (ground (
          arith,
          x.redis.entry-del w.redis (user_status_cache_key user_id) (user_status_cache_key user_id),
          eq_refl (user_status_cache_key user_id),
        ))
        (ground arith)

  abbrev new_status : UserStatus
  new_status = target x user_id admin_id action

  -- After a result that reports a change, the account check at `now` answers by the new state.
  abbrev pub Fresh : ℕ → Result StatusChangeResult × World x → Type 0
  Fresh now m =
      (r : StatusChangeResult)
      → m.0 ≡ ok r
      → r.changed ≡ true
      → (is_active x user_id (record m.1 { now = now; database_up = true })).0
        ≡ ok (not (is_inactive (status_text new_status)))

  Fresh-err : (now : ℕ) (e : Exception) (w : World x) → Fresh now (err e, w)
  Fresh-err now e w r done changed = ground arith

  Fresh-unchanged :
      (now : ℕ) (s t : UserStatus) (w : World x)
      → Fresh now (ok (record { from = s; to = t; changed = false }), w)
  Fresh-unchanged now s t w r done changed = ground arith

  apply-allowed :
      (now : ℕ) (w : World x) (u : User)
      → w.redis_up ≡ true
      → found x user_id admin_id action w ≡ some u
      → status_eq u.status new_status ≡ false
      → allows (status_transitions action) u.status ≡ true
      → Fresh now (apply x user_id action admin_id w)
  apply-allowed now w u up e differs allowed =
      elim (Option-cases (
        x.status_history.insert (history_row x user_id u.status new_status admin_id w)
          w.status_history)) [
            | inl clash ↦
                rw (apply_clash x user_id admin_id action w u e differs allowed clash)
                  (Fresh-err now unique_violation w)
            | inr (t, went) ↦
                rw (apply_changed x user_id admin_id action w u e differs allowed t went)
                  (λ r done changed.
                    is_active-deleted (changed_world x user_id admin_id action w t)
                      (with_status new_status u)
                      (record { from = u.status; to = new_status; changed = true }) now up
                      (find_one-changed w u e))
          ]

  apply-Fresh :
      (now : ℕ) (w : World x) → w.redis_up ≡ true → Fresh now (apply x user_id action admin_id w)
  apply-Fresh now w up = elim (Option-cases (found x user_id admin_id action w)) [
    | inl e ↦
        rw (apply_missing x user_id admin_id action w e)
          (Fresh-err now (http 404 "User not found") w)
    | inr (u, e) ↦ elim (Bool-cases (status_eq u.status new_status)) [
      | inl same ↦
          rw (apply_unchanged x user_id admin_id action w u e same)
            (Fresh-unchanged now u.status new_status w)
      | inr differs ↦ elim (Bool-cases (allows (status_transitions action) u.status)) [
        | inr refused ↦
            rw (apply_refused x user_id admin_id action w u e differs refused)
              (Fresh-err now (http 409 "Conflict") w)
        | inl allowed ↦ apply-allowed now w u up e differs allowed
      ]
    ]
  ]

  -- While Redis answers, after a change of an account's state that went through, the account check
  -- of the guards answers by the new state at once and at any later time, whatever the cache held,
  -- where the database answers its read.
  pub apply-is_active :
      (now : ℕ) (w : World x) (r : StatusChangeResult)
      → w.redis_up ≡ true
      → (apply x user_id action admin_id w).0 ≡ ok r
      → r.changed ≡ true
      → (is_active x user_id
          (record (apply x user_id action admin_id w).1 { now = now; database_up = true })).0
        ≡ ok (not (is_inactive (status_text (status_transitions action).target)))
  apply-is_active now w r up done changed = apply-Fresh now w up r done changed

-- ===== src/Auth/UserStatusCache.antt =====
-- UserStatusService (modules/auth/services/user-status.service.ts) and the key of its cache
-- (modules/admin/constants/cache-keys.ts).
use open_profile_be.Entities.{
  User, UserStatus, active, blocked, deactivated, flagged_for_review, suspended,
}
use open_profile_be.Exec.{Exception, catch, err, infrastructure, ok, pure, ◌>>=◌, ◌>>◌}
use open_profile_be.Prelude.{
  Bool, Option, String, key, none, not, some, truthy, if◌then◌else◌, ℕ, ◌==◌, ◌||◌,
}
use open_profile_be.Services.{Services}
use open_profile_be.World.{App}
use open_profile_be.Redis

unfoldable pub user_status_cache_key : String → String
user_status_cache_key user_id = key "user:status:" user_id

-- The value of the enum's member.
unfoldable pub status_text : UserStatus → String
status_text active = "active"
status_text blocked = "blocked"
status_text suspended = "suspended"
status_text deactivated = "deactivated"
status_text flagged_for_review = "flagged_for_review"

abbrev pub status_cache_ttl_seconds : ℕ
status_cache_ttl_seconds = 60

-- `INACTIVE_STATUSES.has(status)`
unfoldable pub is_inactive : String → Bool
is_inactive s = s == "blocked" || s == "suspended" || s == "deactivated"

-- `user?.status ?? UserStatus.ACTIVE`
unfoldable pub status_or_active : Option User → String
unfolding status_text
status_or_active none = "active"
status_or_active (some u) = status_text u.status

abbrev pub has_id : String → User → Bool
has_id user_id u = u.id == user_id

abbrev pub database_error : Exception
database_error = infrastructure "database unavailable"

module _ (x : Services) where
  -- `userRepo.findOne`, which throws where the database does not answer.
  unfoldable pub find_account : String → App x (Option User)
  find_account user_id w =
      if w.database_up
      then (ok (x.users.find_one (has_id user_id) w.users), w)
      else (err database_error, w)

  -- The read of the database, and the write to the cache whose failure is logged only.
  unfoldable pub read_through : String → App x String
  unfolding status_or_active Redis.set find_account
  read_through user_id = do
    found ← find_account user_id
    let status = status_or_active found in
        do
          catch
              (Redis.set x (user_status_cache_key user_id) status status_cache_ttl_seconds >>= λ _.
                pure tt)
              (λ _. pure tt)
          pure status

  abbrev cached_or : String → Option String → App x String
  cached_or user_id none = read_through user_id
  cached_or user_id (some s) = pure s

  unfoldable pub resolve_status : String → App x String
  unfolding Redis.get read_through
  resolve_status user_id = do
    cached ← catch (Redis.get x (user_status_cache_key user_id)) (λ _. pure none)
    cached_or user_id (truthy cached)

  unfoldable pub is_active : String → App x Bool
  unfolding resolve_status is_inactive
  is_active user_id = do status ← resolve_status user_id; pure (not (is_inactive status))

-- ===== src/Users/StaleAccounts.antt =====
-- StaleUsersCleanupService (modules/users/stale-users-cleanup.service.ts).
use open_profile_be.Entities.{User}
use open_profile_be.Exec.{modify}
use open_profile_be.Prelude.{
  Bool, Option, false, is_some, ltb, none, not, some, ℕ, ◌&&◌, ◌*◌, ◌-◌, ◌||◌,
}
use open_profile_be.Services.{Services}
use open_profile_be.World.{App}

-- 30 days in milliseconds
abbrev pub stale_after : ℕ
stale_after = 30 * 24 * 60 * 60 * 1000

abbrev pub is_before : ℕ → Option ℕ → Bool
is_before cutoff none = false
is_before cutoff (some t) = ltb t cutoff

-- The conditions of a query builder are joined without parentheses, and AND binds closer than OR:
-- `is_verified = false AND (otp_expires_at IS NULL AND created_at < cutoff) OR
-- (otp_expires_at < cutoff)`.
unfoldable pub is_stale : ℕ → User → Bool
is_stale cutoff u =
    (not u.is_verified && (not (is_some u.otp_expires_at) && ltb u.created_at cutoff))
    || is_before cutoff u.otp_expires_at

module _ (x : Services) where
  unfoldable pub clean_stale_unverified_users : App x (Unit {0})
  unfolding is_stale
  clean_stale_unverified_users =
      modify λ w. record w { users = (x.users.delete (is_stale (w.now - stale_after)) w.users).1 }

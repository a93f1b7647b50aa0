-- ===== src/RateLimiter.antt =====
-- RateLimiterService (modules/rate-limiter/rate-limiter.service.ts): a counter for each key, with
-- a window that the first attempt opens.
pub mod Window
use open_profile_be.Exec.{Result, pure, when, ◌>>=◌, ◌>>◌}
use open_profile_be.Prelude.{Bool, List, String, [], leb, nat_eq, ℕ, ◌∷◌}
use open_profile_be.Services.{Services}
use open_profile_be.World.{App, World}
use open_profile_be.Redis

module _ (x : Services) where
  unfoldable pub is_allowed : String → ℕ → ℕ → App x Bool
  unfolding Redis.incr Redis.expire
  is_allowed k max_attempts window = do
    count ← Redis.incr x k
    when (nat_eq count 1) (Redis.expire x k window)
    pure (leb count max_attempts)

  -- Calls for one key, each at its own time.
  unfoldable pub calls : String → ℕ → ℕ → List ℕ → World x → List (Result Bool)
  calls k max_attempts window [] w = []
  calls k max_attempts window (t ∷ ts) w =
      let (answer, w') = is_allowed k max_attempts window (record w { now = t }) in
      answer ∷ calls k max_attempts window ts w'

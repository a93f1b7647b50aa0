-- ===== src/Tests/RateLimits.antt =====
-- The rate limiter at concrete attempts.
use Prim.Native.Nat.{min}
use open_profile_be.Prelude.{List, [], arith, length, refl, ℕ, ◌∷◌, ◌≡◌}
use open_profile_be.RateLimiter.Window.{granted, granted-calls}
use open_profile_be.Samples.{empty_world, sample}
use open_profile_be.RateLimiter

abbrev times : List ℕ
times = 1000 ∷ 2000 ∷ 60999 ∷ []

granted-calls_example :
    granted (RateLimiter.calls sample "k" 3 60 (1000 ∷ times) empty_world)
    ≡ min 3 (length (1000 ∷ times))
granted-calls_example = granted-calls sample "k" 3 60 1000 times empty_world refl refl (omega arith)

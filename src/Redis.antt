-- ===== src/Redis.antt =====
-- RedisService (common/redis/redis.service.ts): each command reaches the server, or raises an error
-- where Redis is unreachable.
pub mod Laws
pub mod Frame
use open_profile_be.Exec.{Exception, Result, err, infrastructure, ok, pure, when, ◌>>=◌, ◌>>◌}
use open_profile_be.Prelude.{
  Bool, Option, String, if◌then◌else◌, ltb, nat_eq, none, some, true, ℕ, ◌*◌, ◌+◌,
}
use open_profile_be.Services.{Services}
use open_profile_be.World.{App, World}

abbrev pub redis_error : Exception
redis_error = infrastructure "redis unavailable"

module _ (x : Services) where
  -- A command of the client.
  abbrev pub command : {A : Type 0} → (World x → Result A × x.redis.Store) → App x A
  command run w =
      if w.redis_up then ((run w).0, record w { redis = (run w).1 }) else (err redis_error, w)

  abbrev pub expiry : World x → ℕ → Option ℕ
  expiry w ttl = if ltb 0 ttl then some (w.now + ttl * 1000) else none

  unfoldable pub get : String → App x (Option String)
  get k = command λ w. (ok (x.redis.get w.redis w.now k), w.redis)

  -- `set` with `nx = false`
  unfoldable pub set : String → String → ℕ → App x Bool
  set k v ttl = command λ w. (ok true, x.redis.set w.redis k v (expiry w ttl))

  -- `set` with `nx = true`
  unfoldable pub set_nx : String → String → ℕ → App x Bool
  set_nx k v ttl = command λ w. (
    ok (x.redis.set_nx w.redis w.now k v (expiry w ttl)).0,
    (x.redis.set_nx w.redis w.now k v (expiry w ttl)).1,
  )

  abbrev pub incr_result : Option ℕ → Result ℕ
  incr_result none = err (infrastructure "ERR value is not an integer or out of range")
  incr_result (some n) = ok n

  unfoldable pub incr : String → App x ℕ
  incr k =
      command λ w. (incr_result (x.redis.incr w.redis w.now k).0, (x.redis.incr w.redis w.now k).1)

  unfoldable pub expire : String → ℕ → App x (Unit {0})
  expire k ttl = command λ w. (ok tt, x.redis.expire w.redis w.now k ttl)

  unfoldable pub increment : String → ℕ → App x ℕ
  unfolding incr expire
  increment k ttl = do count ← incr k; when (nat_eq count 1) (expire k ttl); pure count

  unfoldable pub del : String → App x (Unit {0})
  del k = command λ w. (ok tt, x.redis.del w.redis k)

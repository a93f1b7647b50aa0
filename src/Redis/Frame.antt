-- ===== src/Redis/Frame.antt =====
-- An operation of RedisService keeps what does not depend on what Redis holds.
use open_profile_be.Exec.{Result, err, ok}
use open_profile_be.Exec.Keeps.{Keeps, keeps_rules}
use open_profile_be.Prelude.{Bool, String, false, if◌then◌else◌, true, ℕ}
use open_profile_be.Services.{Services}
use open_profile_be.World.{World}
use open_profile_be.Redis

module _ (x : Services) {P : World x → Type 0}
    (frame : (w : World x) (s : x.redis.Store) → P w → P (record w { redis = s })) where
  framed :
      {A : Type 0} (b : Bool) (r : Result A × x.redis.Store) (w : World x)
      → P w
      → P
          (if◌then◌else◌ {A = Result A × World x} b
            (r.0, record w { redis = r.1 })
            (err Redis.redis_error, w)).1
  framed true r w h = frame w r.1 h
  framed false r w h = h

  command-Keeps :
      {A : Type 0} (run : World x → Result A × x.redis.Store) → Keeps P (Redis.command x run)
  command-Keeps run = record { at = λ w h. framed w.redis_up (run w) w h }

  pub get-Keeps : (k : String) → Keeps P (Redis.get x k)
  unfolding Redis.get
  get-Keeps k = command-Keeps (λ w. (ok (x.redis.get w.redis w.now k), w.redis))

  pub set-Keeps : (k v : String) (ttl : ℕ) → Keeps P (Redis.set x k v ttl)
  unfolding Redis.set
  set-Keeps k v ttl = command-Keeps (λ w. (ok true, x.redis.set w.redis k v (Redis.expiry x w ttl)))

  pub del-Keeps : (k : String) → Keeps P (Redis.del x k)
  unfolding Redis.del
  del-Keeps k = command-Keeps (λ w. (ok tt, x.redis.del w.redis k))

  incr-Keeps : (k : String) → Keeps P (Redis.incr x k)
  unfolding Redis.incr
  incr-Keeps k = command-Keeps (λ w.
      (Redis.incr_result x (x.redis.incr w.redis w.now k).0, (x.redis.incr w.redis w.now k).1))

  expire-Keeps : (k : String) (ttl : ℕ) → Keeps P (Redis.expire x k ttl)
  unfolding Redis.expire
  expire-Keeps k ttl = command-Keeps (λ w. (ok tt, x.redis.expire w.redis w.now k ttl))

  pub increment-Keeps : (k : String) (ttl : ℕ) → Keeps P (Redis.increment x k ttl)
  unfolding Redis.increment
  increment-Keeps k ttl = search (keeps_rules, incr-Keeps, expire-Keeps) depth 12

-- ===== src/Auth/RedisLock.antt =====
-- RedisLockService (modules/auth/services/redis-lock.service.ts): one rotation at a time for each
-- refresh token, and its result kept for those that came second.
use open_profile_be.Exec.{catch, err, ok, pure, ◌>>=◌}
use open_profile_be.Prelude.{Bool, Option, String, key, none, some, suc, true, truthy, zero, ℕ, ◌+◌}
use open_profile_be.Services.{Services}
use open_profile_be.Services.Settings.{Tokens}
use open_profile_be.World.{App, World}
use open_profile_be.Redis

abbrev pub lock_ttl_seconds : ℕ
lock_ttl_seconds = 5

abbrev pub grace_ttl_seconds : ℕ
grace_ttl_seconds = 10

abbrev pub grace_poll_attempts : ℕ
grace_poll_attempts = 10

abbrev pub grace_poll_interval_ms : ℕ
grace_poll_interval_ms = 100

abbrev pub lock_key : String → String
lock_key hash = key "lock:refresh:" hash

module _ (x : Services) where
  abbrev pub grace_key : String → String
  grace_key hash = key "refresh:grace:" (key x.env.database_name (key ":" hash))

  -- Redis unavailable: fail open.
  unfoldable pub acquire_lock : String → App x Bool
  unfolding Redis.set_nx
  acquire_lock hash = catch (Redis.set_nx x (lock_key hash) "1" lock_ttl_seconds) (λ _. pure true)

  unfoldable pub release_lock : String → App x (Unit {0})
  unfolding Redis.del
  release_lock hash = Redis.del x (lock_key hash)

  unfoldable pub store_grace : String → Tokens → App x (Unit {0})
  unfolding Redis.set
  store_grace hash tokens =
      catch
        (Redis.set x (grace_key hash) (x.env.stringify_tokens tokens) grace_ttl_seconds >>= λ _.
          pure tt)
        (λ _. pure tt)

  -- `raw ? JSON.parse(raw) : null`, where a text that does not parse throws, and the throw is null.
  abbrev pub parsed : Option String → Option Tokens
  parsed none = none
  parsed (some raw) = x.env.parse_tokens raw

  unfoldable pub read_grace : String → App x (Option Tokens)
  unfolding Redis.get
  read_grace hash =
      catch (Redis.get x (grace_key hash) >>= λ raw. pure (parsed (truthy raw))) (λ _. pure none)

  -- `others n` is what the other requests do while this one sleeps with `n` attempts left.
  abbrev pub Others : Type 0
  Others = ℕ → World x → World x

  abbrev sleep : (World x → World x) → World x → World x
  sleep others w = let w' = others w in record w' { now = w'.now + grace_poll_interval_ms }

  -- The loop of `waitForGrace` with `n` attempts left.
  unfoldable pub poll_grace : Others → String → ℕ → App x (Option Tokens)
  unfolding read_grace
  poll_grace others hash zero w = (ok none, w)
  poll_grace others hash (suc n) w = elim (read_grace hash w).0 [
    | ok (some tokens) ↦ (ok (some tokens), (read_grace hash w).1)
    | ok none ↦ poll_grace others hash n (sleep (others n) (read_grace hash w).1)
    | err e ↦ (err e, (read_grace hash w).1)
  ]

  unfoldable pub wait_for_grace : Others → String → App x (Option Tokens)
  unfolding poll_grace
  wait_for_grace others hash = poll_grace others hash grace_poll_attempts

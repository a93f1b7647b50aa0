-- ===== src/RateLimiter/Window.antt =====
-- How many attempts a window lets through.
use Prim.Native.Nat.{min}
use open_profile_be.Exec.{Result, ok}
use open_profile_be.Prelude.{
  Bool, List, String, [], arith, eq_refl, false, if◌then◌else◌, leb, length, none, some, suc, true,
  ℕ, ◌*◌, ◌+◌, ◌-◌, ◌<◌, ◌∷◌, ◌≡◌,
}
use open_profile_be.RateLimiter.{calls, is_allowed}
use open_profile_be.Redis.Laws.{counted_up, peek}
use open_profile_be.Services.{Services}
use open_profile_be.Services.Redis.{counted, counter, live}
use open_profile_be.World.{World}

abbrev pub granted : List (Result Bool) → ℕ
granted [] = 0
granted (ok true ∷ rs) = suc (granted rs)
granted (_ ∷ rs) = granted rs

abbrev pub Before : ℕ → List ℕ → Type 0
Before until [] = Unit
Before until (t ∷ ts) = (t < until) × Before until ts

granted-cons :
    (b : Bool) (rs : List (Result Bool)) → granted (ok b ∷ rs) ≡ (if b then 1 else 0) + granted rs
granted-cons true rs = omega arith
granted-cons false rs = omega arith

module _ (x : Services) (k : String) (max_attempts window : ℕ) where
  -- Redis holds `n` attempts until `deadline`.
  abbrev Counts : ℕ → ℕ → World x → Type 0
  Counts n deadline w =
      (w.redis_up ≡ true)
      × (x.redis.entry w.redis k ≡ some (record { value = counter n; expires = some deadline }))

  -- The answer and the counter after an attempt that finds `n` earlier ones.
  is_allowed-reply :
      (w : World x) (n : ℕ)
      → w.redis_up ≡ true
      → counted (peek x w k) ≡ some n
      → (is_allowed x k max_attempts window w).0 ≡ ok (leb (suc n) max_attempts)
  unfolding is_allowed
  is_allowed-reply w n up e = ground (arith, x.redis.incr_reply w.redis w.now k)

  redis_up-is_allowed :
      (w : World x) → w.redis_up ≡ true → (is_allowed x k max_attempts window w).1.redis_up ≡ true
  unfolding is_allowed
  redis_up-is_allowed w up = ground arith

  entry-is_allowed :
      (w : World x) (n : ℕ)
      → w.redis_up ≡ true
      → counted (peek x w k) ≡ some n
      → x.redis.entry (is_allowed x k max_attempts window w).1.redis k
        ≡ counted_up x n (some (w.now + window * 1000)) (peek x w k)
  unfolding is_allowed
  entry-is_allowed w n up e = ground (
    arith,
    x.redis.incr_reply w.redis w.now k,
    x.redis.entry-expire (x.redis.incr w.redis w.now k).1 w.now k window k,
    x.redis.entry-incr w.redis w.now k k,
    eq_refl k,
  )

  is_allowed-Counts :
      (w : World x) (n deadline : ℕ)
      → Counts (suc n) deadline w
      → w.now < deadline
      → ((is_allowed x k max_attempts window w).0 ≡ ok (leb (suc (suc n)) max_attempts))
        × Counts (suc (suc n)) deadline (is_allowed x k max_attempts window w).1
  is_allowed-Counts w n deadline (up, e) early =
      let seen : counted (peek x w k) ≡ some (suc n) = ground arith in
      (
        is_allowed-reply w (suc n) up seen,
        (redis_up-is_allowed w up, ground (arith, entry-is_allowed w (suc n) up seen)),
      )

  granted-calls_later :
      (ts : List ℕ) (n deadline : ℕ) (w : World x)
      → Counts (suc n) deadline w
      → Before deadline ts
      → granted (calls x k max_attempts window ts w) ≡ min (max_attempts - suc n) (length ts)
  unfolding calls
  granted-calls_later [] n deadline w c h = omega arith
  granted-calls_later (t ∷ ts) n deadline w c (early, h) =
      let now_t = record w { now = t } in
      let (reply, c') = is_allowed-Counts now_t n deadline c early in
      let rest = (is_allowed x k max_attempts window now_t).1 in
      rw reply (
        ground (
          arith,
          granted-cons (leb (suc (suc n)) max_attempts) (calls x k max_attempts window ts rest),
          granted-calls_later ts (suc n) deadline rest c' h,
        ))

  -- While Redis answers, and where the key is missing at time `t`, the attempts at `t` and at any times before the window
  -- closes are let through up to the maximum, and no further.
  pub granted-calls :
      (t : ℕ) (ts : List ℕ) (w : World x)
      → w.redis_up ≡ true
      → live t (x.redis.entry w.redis k) ≡ none
      → Before (t + window * 1000) ts
      → granted (calls x k max_attempts window (t ∷ ts) w) ≡ min max_attempts (length (t ∷ ts))
  unfolding calls
  granted-calls t ts w up e h =
      let now_t = record w { now = t } in
      let seen : counted (peek x now_t k) ≡ some 0 = rw e in
      let rest = (is_allowed x k max_attempts window now_t).1 in
      rw (is_allowed-reply now_t 0 up seen) (
        ground (
          arith,
          granted-cons (leb 1 max_attempts) (calls x k max_attempts window ts rest),
          granted-calls_later ts 0 (t + window * 1000) rest
              (redis_up-is_allowed now_t up, ground (arith, entry-is_allowed now_t 0 up seen)) h,
        ))

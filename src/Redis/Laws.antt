-- ===== src/Redis/Laws.antt =====
-- What each operation of RedisService answers, and how it changes what Redis holds.
use open_profile_be.Exec.{ok}
use open_profile_be.Prelude.{
  Option, String, arith, eq_refl, if◌then◌else◌, nat_eq, none, some, suc, true, ℕ, ◌*◌, ◌+◌, ◌==◌,
  ◌≡◌,
}
use open_profile_be.Redis.{increment}
use open_profile_be.Services.{Services}
use open_profile_be.Services.Redis.{RedisEntry, after_incr, counted, counter, live}
use open_profile_be.World.{World}

module _ (x : Services) where
  -- The entry of a key as the next command sees it.
  abbrev pub peek : World x → String → Option RedisEntry
  peek w k = live w.now (x.redis.entry w.redis k)

  abbrev pub expiry_of : Option RedisEntry → Option ℕ
  expiry_of none = none
  expiry_of (some e) = e.expires

  -- The entry that holds `n` after one more increment.
  abbrev pub counted_up : ℕ → Option ℕ → Option RedisEntry → Option RedisEntry
  counted_up n fresh old =
      some
        (record { value = counter (suc n); expires = if nat_eq n 0 then fresh else expiry_of old })

  after_incr-live :
      (now n : ℕ) (o : Option RedisEntry)
      → counted (live now o) ≡ some n
      → after_incr (live now o)
        ≡ some (record { value = counter (suc n); expires = expiry_of (live now o) })
  after_incr-live now n o e = ground arith

  live-after_incr :
      (now : ℕ) (o : Option RedisEntry)
      → live now (after_incr (live now o)) ≡ after_incr (live now o)
  live-after_incr now o = ground arith

  module _ (k : String) (ttl : ℕ) (w : World x) (up : w.redis_up ≡ true) where
    module _ {n : ℕ} (e : counted (peek w k) ≡ some n) where
      pub increment-reply : (increment x k ttl w).0 ≡ ok (suc n)
      unfolding increment
      increment-reply = ground (arith, x.redis.incr_reply w.redis w.now k)

      pub entry-increment :
          (j : String)
          → x.redis.entry (increment x k ttl w).1.redis j ≡ (
              if k == j
              then counted_up n (some (w.now + ttl * 1000)) (peek w k)
              else x.redis.entry w.redis j)
      unfolding increment
      entry-increment j = ground (
        arith,
        x.redis.incr_reply w.redis w.now k,
        x.redis.entry-expire (x.redis.incr w.redis w.now k).1 w.now k ttl j,
        x.redis.entry-incr w.redis w.now k j,
        x.redis.entry-incr w.redis w.now k k,
        eq_refl k,
      )

-- ===== src/Services/Redis.antt =====
-- The Redis client (ioredis) that common/redis and modules/rate-limiter call. Times are in
-- milliseconds, and a time to live is in seconds, as in the commands EX and EXPIRE.
use open_profile_be.Prelude.{
  ℕ, suc, ◌+◌, ◌*◌, String, ◌≡◌, Bool, true, not, Option, none, some, ltb, is_some, if◌then◌else◌,
  ◌==◌,
}

-- A value is a text, or the integer that INCR counts in.
pub data RedisValue : Type 0 where
  text : String → RedisValue
  counter : ℕ → RedisValue

pub record RedisEntry : Type 0 where
  pub value : RedisValue
  pub expires : Option ℕ

abbrev pub not_expired : ℕ → Option ℕ → Bool
not_expired now none = true
not_expired now (some t) = ltb now t

-- The entry as a command at time `now` sees it.
abbrev pub live : ℕ → Option RedisEntry → Option RedisEntry
live now none = none
live now (some e) = if not_expired now e.expires then some e else none

abbrev pub as_counter : RedisValue → Option ℕ
as_counter (text _) = none
as_counter (counter n) = some n

-- What INCR counts from: 0 at a missing key, an error at a text.
abbrev pub counted : Option RedisEntry → Option ℕ
counted none = some 0
counted (some e) = as_counter e.value

abbrev pub incremented : Option ℕ → Option ℕ
incremented none = none
incremented (some n) = some (suc n)

abbrev pub bump : RedisValue → RedisValue
bump (text s) = text s
bump (counter n) = counter (suc n)

-- INCR keeps the expiry of a key that is there, and sets none on a new key.
abbrev pub after_incr : Option RedisEntry → Option RedisEntry
after_incr none = some (record { value = counter 1; expires = none })
after_incr (some e) = some (record { value = bump e.value; expires = e.expires })

abbrev pub with_expiry : ℕ → Option RedisEntry → Option RedisEntry
with_expiry t none = none
with_expiry t (some e) = some (record { value = e.value; expires = some t })

abbrev pub text_entry : String → Option ℕ → Option RedisEntry
text_entry v t = some (record { value = text v; expires = t })

pub record RedisClient : Type 1 where
  pub Store : Type 0
  pub entry : Store → String → Option RedisEntry
  pub decimal : ℕ → String
  pub get : Store → ℕ → String → Option String
  pub set : Store → String → String → Option ℕ → Store
  pub set_nx : Store → ℕ → String → String → Option ℕ → Bool × Store
  pub incr : Store → ℕ → String → Option ℕ × Store
  pub expire : Store → ℕ → String → ℕ → Store
  pub del : Store → String → Store
  -- GET answers with a live text or the decimal form of a live counter.
  pub get_text :
      (s : Store) (now : ℕ) (k : String) (v : String) (t : Option ℕ)
      → live now (entry s k) ≡ text_entry v t
      → get s now k ≡ some v
  pub get_counter :
      (s : Store) (now : ℕ) (k : String) (n : ℕ) (t : Option ℕ)
      → live now (entry s k) ≡ some (record { value = counter n; expires = t })
      → get s now k ≡ some (decimal n)
  pub get_missing :
      (s : Store) (now : ℕ) (k : String) → live now (entry s k) ≡ none → get s now k ≡ none
  -- SET writes its key, with the expiry that EX computes.
  pub entry-set :
      (s : Store) (k v : String) (t : Option ℕ) (j : String)
      → entry (set s k v t) j ≡ (if k == j then text_entry v t else entry s j)
  -- SET NX answers OK, and writes, only where the key is missing.
  pub set_nx_reply :
      (s : Store) (now : ℕ) (k v : String) (t : Option ℕ)
      → (set_nx s now k v t).0 ≡ not (is_some (live now (entry s k)))
  pub entry-set_nx :
      (s : Store) (now : ℕ) (k v : String) (t : Option ℕ) (j : String)
      → entry (set_nx s now k v t).1 j ≡ (
          if is_some (live now (entry s k))
          then entry s j
          else if k == j
          then text_entry v t
          else entry s j)
  pub incr_reply :
      (s : Store) (now : ℕ) (k : String)
      → (incr s now k).0 ≡ incremented (counted (live now (entry s k)))
  pub entry-incr :
      (s : Store) (now : ℕ) (k j : String)
      → entry (incr s now k).1 j ≡ (if k == j then after_incr (live now (entry s k)) else entry s j)
  pub entry-expire :
      (s : Store) (now : ℕ) (k : String) (ttl : ℕ) (j : String)
      → entry (expire s now k ttl) j
        ≡ (if k == j then with_expiry (now + ttl * 1000) (live now (entry s k)) else entry s j)
  pub entry-del :
      (s : Store) (k j : String) → entry (del s k) j ≡ (if k == j then none else entry s j)

-- ===== src/Auth/OauthStates.antt =====
-- The state of an OAuth flow: `createOauthState` and `consumeOauthState` of AuthService
-- (modules/auth/auth.service.ts).
use open_profile_be.Exec.{gets, ok, pure, ◌>>=◌, ◌>>◌}
use open_profile_be.Prelude.{
  Bool-cases, Option, Option-cases, String, arith, eq_refl, inl, inr, key, none, some, true, truthy,
  ℕ, ◌≡◌,
}
use open_profile_be.Redis.Laws.{peek}
use open_profile_be.Services.{Services}
use open_profile_be.Services.Settings.{OauthState}
use open_profile_be.World.{App, World, draw}
use open_profile_be.Redis

abbrev pub oauth_key : String → String → String
oauth_key provider state = key "oauth:" (key provider (key ":state:" state))

module _ (x : Services) where
  unfoldable pub create_oauth_state : (provider meta : String) → (ttl_seconds : ℕ) → App x String
  create_oauth_state provider meta ttl_seconds = do
    random ← draw x
    let state = x.crypto.random_hex random
    now ← gets (λ w. w.now)
    Redis.set x (oauth_key provider state)
        (x.env.stringify_state (record { meta = meta; created_at = now })) ttl_seconds
    pure state

  -- The stored text, read and deleted; a text that does not parse counts as missing.
  unfoldable pub consume_stored : String → Option String → App x (Option OauthState)
  consume_stored k none = pure none
  consume_stored k (some raw) = Redis.del x k >> pure (x.env.parse_state raw)

  unfoldable pub consume_oauth_state : (provider state : String) → App x (Option OauthState)
  unfolding consume_stored
  consume_oauth_state provider state = do
    raw ← Redis.get x (oauth_key provider state)
    consume_stored (oauth_key provider state) (truthy raw)

  abbrev deleted : String → World x → World x
  deleted k w = record w { redis = x.redis.del w.redis k }

  -- A consumption that finds a state has read it from Redis and deleted it.
  consumed_world :
      (provider state : String) (w : World x) (s : OauthState)
      → (consume_oauth_state provider state w).0 ≡ ok (some s)
      → (w.redis_up ≡ true)
        × ((consume_oauth_state provider state w).1 ≡ deleted (oauth_key provider state) w)
  unfolding consume_oauth_state Redis.get Redis.del
  consumed_world provider state w s e = elim (Bool-cases w.redis_up) [
    | inr down ↦ absurd (ground arith)
    | inl up ↦ elim (Option-cases (truthy (x.redis.get w.redis w.now (oauth_key provider state)))) [
      | inl none_there ↦ absurd (ground arith)
      | inr (raw, there) ↦ (up, ground arith)
    ]
  ]

  consume_missing :
      (provider state : String) (w : World x)
      → w.redis_up ≡ true
      → x.redis.entry w.redis (oauth_key provider state) ≡ none
      → (consume_oauth_state provider state w).0 ≡ ok none
  unfolding consume_oauth_state Redis.get
  consume_missing provider state w up gone =
      let missing : peek x w (oauth_key provider state) ≡ none = rw gone in
      ground (arith, x.redis.get_missing w.redis w.now (oauth_key provider state) missing)

  -- A state is good for one consumption: once it is consumed, it is missing to every later one.
  pub consume_oauth_state-once :
      (provider state : String) (later : ℕ) (w : World x) (s : OauthState)
      → (consume_oauth_state provider state w).0 ≡ ok (some s)
      → (consume_oauth_state provider state
          (record (consume_oauth_state provider state w).1 { now = later })).0
        ≡ ok none
  consume_oauth_state-once provider state later w s e =
      let k = oauth_key provider state in
      let (up, after) = consumed_world provider state w s e in
      rw after (
        consume_missing provider state (record (deleted k w) { now = later }) up
          (ground (arith, x.redis.entry-del w.redis k k, eq_refl k)))

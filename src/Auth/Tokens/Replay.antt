-- ===== src/Auth/Tokens/Replay.antt =====
-- A refresh token is good once; for the grace period after that it answers with the same tokens.
use open_profile_be.Auth.RedisLock.{
  Others, acquire_lock, grace_key, grace_ttl_seconds, lock_key, lock_ttl_seconds, release_lock,
}
use open_profile_be.Auth.Tokens.{
  has_hash, has_token_id, rotate_locked, rotate_tokens, session_expired,
}
use open_profile_be.Auth.Tokens.Rows.{Rotated, new_row, rotate_locked-Rotated, token_rows}
use open_profile_be.Auth.UserStatusCache.{has_id}
use open_profile_be.Entities.{RefreshToken, User}
use open_profile_be.Exec.{err, ok}
use open_profile_be.Prelude.{
  String, [], ap, arith, eq_iff, eq_refl, false, first, first-append, if◌then◌else◌, ltb, none,
  reject, some, text_ne, true, ℕ, ◌*◌, ◌+◌, ◌==◌, ◌∙◌, ◌∷◌, ◌≡◌, ◌≤◌,
}
use open_profile_be.Redis.Laws.{peek}
use open_profile_be.Services.{Services}
use open_profile_be.Services.Redis.{text_entry}
use open_profile_be.Services.Settings.{Tokens}
use open_profile_be.World.{World}

module _ (x : Services) (hash : String) where
  lock-ne-grace : (lock_key hash == grace_key x hash) ≡ false
  lock-ne-grace = text_ne 0 (lock_key hash) (grace_key x hash) (omega arith)

  grace-ne-lock : (grace_key x hash == lock_key hash) ≡ false
  grace-ne-lock = text_ne 0 (grace_key x hash) (lock_key hash) (omega arith)

  -- A free lock is taken, and nothing but its key changes.
  pub record Locked (w locked : World x) : Type 0 where
    pub grace :
        x.redis.entry locked.redis (grace_key x hash) ≡ x.redis.entry w.redis (grace_key x hash)
    pub tokens : locked.refresh_tokens ≡ w.refresh_tokens
    pub users : locked.users ≡ w.users
    pub up : locked.redis_up ≡ w.redis_up
    pub now : locked.now ≡ w.now
    pub drawn : locked.drawn ≡ w.drawn

  module _ (w : World x) (up : w.redis_up ≡ true) (free : peek x w (lock_key hash) ≡ none) where
    acquire_lock-true : (acquire_lock x hash w).0 ≡ ok true
    unfolding acquire_lock
    acquire_lock-true = ground (
      arith,
      x.redis.set_nx_reply w.redis w.now (lock_key hash) "1"
          (some (w.now + lock_ttl_seconds * 1000)),
    )

    acquire_lock-Locked : Locked w (acquire_lock x hash w).1
    unfolding acquire_lock
    acquire_lock-Locked = record {
      grace = ground (
        arith,
        lock-ne-grace,
        x.redis.entry-set_nx w.redis w.now (lock_key hash) "1"
            (some (w.now + lock_ttl_seconds * 1000)) (grace_key x hash),
      );
      tokens = ground arith;
      users = ground arith;
      up = ground arith;
      now = ground arith;
      drawn = ground arith;
    }

  release_lock-ok : (w : World x) → w.redis_up ≡ true → (release_lock x hash w).0 ≡ ok tt
  unfolding release_lock
  release_lock-ok w up = ground arith

  -- A rotation that finds no row answers what the grace key holds, or that the session is over.
  rotate_locked-absent :
      (w : World x) (t : Tokens) (deadline : ℕ)
      → w.redis_up ≡ true
      → first (has_hash hash) (token_rows x w) ≡ none
      → x.redis.entry w.redis (grace_key x hash)
        ≡ text_entry (x.env.stringify_tokens t) (some deadline)
      → (rotate_locked x hash w).0 ≡ (if ltb w.now deadline then ok t else err session_expired)
  unfolding rotate_locked
  rotate_locked-absent w t deadline up absent kept =
      let missing : x.refresh_tokens.find_one (has_hash hash) w.refresh_tokens ≡ none =
        x.refresh_tokens.find_one_lem (has_hash hash) w.refresh_tokens ∙ absent in
      let k = grace_key x hash in
      let s = x.env.stringify_tokens t in
      ground (
        arith,
        missing,
        x.redis.get_text w.redis w.now k s (some deadline),
        x.redis.get_missing w.redis w.now k,
        x.env.parse-stringify t,
        x.env.stringify-ne-empty t,
        eq_iff s "",
      )

  redis_up-rotate_locked_absent :
      (w : World x)
      → first (has_hash hash) (token_rows x w) ≡ none
      → (rotate_locked x hash w).1.redis_up ≡ w.redis_up
  unfolding rotate_locked
  redis_up-rotate_locked_absent w absent =
      let missing : x.refresh_tokens.find_one (has_hash hash) w.refresh_tokens ≡ none =
        x.refresh_tokens.find_one_lem (has_hash hash) w.refresh_tokens ∙ absent in
      ground (arith, missing)

  -- The lock is given back, and nothing but its key changes.
  pub record Released (w after : World x) : Type 0 where
    pub lock : x.redis.entry after.redis (lock_key hash) ≡ none
    pub grace :
        x.redis.entry after.redis (grace_key x hash) ≡ x.redis.entry w.redis (grace_key x hash)
    pub tokens : after.refresh_tokens ≡ w.refresh_tokens
    pub users : after.users ≡ w.users
    pub up : after.redis_up ≡ w.redis_up

  release_lock-Released : (w : World x) → w.redis_up ≡ true → Released w (release_lock x hash w).1
  unfolding release_lock
  release_lock-Released w up = record {
    lock =
        ground (
          arith,
          x.redis.entry-del w.redis (lock_key hash) (lock_key hash),
          eq_refl (lock_key hash),
        );
    grace =
        ground (arith, lock-ne-grace, x.redis.entry-del w.redis (lock_key hash) (grace_key x hash));
    tokens = ground arith;
    users = ground arith;
    up = ground arith;
  }

module _ (x : Services) (others : Others x) (raw : String) where
  abbrev hash_of : String
  hash_of = x.crypto.sha256 raw

  -- The world in which the `try` block runs.
  abbrev locked : World x → World x
  locked w = (acquire_lock x hash_of w).1

  module _ (w : World x) (up : w.redis_up ≡ true) (free : peek x w (lock_key hash_of) ≡ none) where
    -- With a free lock, `rotateTokens` answers what its `try` block answers, and has given the lock
    -- back, also where the block threw.
    rotate_tokens-locked :
        (rotate_locked x hash_of (locked w)).1.redis_up ≡ true
        → ((rotate_tokens x others raw w).0 ≡ (rotate_locked x hash_of (locked w)).0)
          × ((rotate_tokens x others raw w).1
              ≡ (release_lock x hash_of (rotate_locked x hash_of (locked w)).1).1)
    unfolding rotate_tokens
    rotate_tokens-locked still_up =
        let taken = acquire_lock-true x hash_of w up free in
        let given = release_lock-ok x hash_of (rotate_locked x hash_of (locked w)).1 still_up in
        (ground (arith, taken, given), ground (arith, taken, given))

  -- What a rotation leaves behind for its own token: no row, no lock, and the tokens kept until
  -- the deadline.
  pub record Spent (t : Tokens) (deadline : ℕ) (after : World x) : Type 0 where
    pub row : first (has_hash hash_of) (token_rows x after) ≡ none
    pub lock : x.redis.entry after.redis (lock_key hash_of) ≡ none
    pub grace :
        x.redis.entry after.redis (grace_key x hash_of)
        ≡ text_entry (x.env.stringify_tokens t) (some deadline)
    pub answers : after.redis_up ≡ true

  -- A row that is known by the token's hash, alone in that, and whose successor has another hash.
  pub record IsKnown (r : RefreshToken) (w : World x) : Type 0 where
    pub known : first (has_hash hash_of) (token_rows x w) ≡ some r
    pub only : first (has_hash hash_of) (reject (has_token_id r.id) (token_rows x w)) ≡ none
    pub fresh : (x.crypto.sha256 (x.crypto.uuid w.drawn) == hash_of) ≡ false

  module _ (r : RefreshToken) (w : World x) (t : Tokens) (up : w.redis_up ≡ true)
      (free : peek x w (lock_key hash_of) ≡ none) (row : IsKnown r w)
      (rotated : (rotate_locked x hash_of (locked w)).0 ≡ ok t) where
    Locked-now : Locked x hash_of w (locked w)
    Locked-now = acquire_lock-Locked x hash_of w up free

    Rotated-now :
        (u : User) × (first (has_id r.user_id) (x.users.rows (locked w).users) ≡ some u)
        × ((locked w).now ≤ r.expires_at)
        × Rotated x hash_of r u (locked w) (rotate_locked x hash_of (locked w)).1 t
    Rotated-now =
        rotate_locked-Rotated x hash_of r (locked w) t
          (ap (λ (tb : x.refresh_tokens.Table). first (has_hash hash_of) (x.refresh_tokens.rows tb))
              Locked-now.tokens
            ∙ row.known)
          rotated

    still_up : (rotate_locked x hash_of (locked w)).1.redis_up ≡ true
    still_up = Rotated-now.3.redis_up ∙ Locked-now.up ∙ up

    Released-now :
        Released x hash_of
          (rotate_locked x hash_of (locked w)).1
          (release_lock x hash_of (rotate_locked x hash_of (locked w)).1).1
    Released-now = release_lock-Released x hash_of (rotate_locked x hash_of (locked w)).1 still_up

    rotate_tokens-ok : (rotate_tokens x others raw w).0 ≡ ok t
    rotate_tokens-ok = (rotate_tokens-locked w up free still_up).0 ∙ rotated

    rotate_tokens-Spent :
        Spent t (w.now + grace_ttl_seconds * 1000) (rotate_tokens x others raw w).1
    rotate_tokens-Spent = rw ((rotate_tokens-locked w up free still_up).1) (record {
      row = ground (
        arith,
        Released-now.tokens,
        Rotated-now.3.rows,
        Locked-now.tokens,
        Locked-now.drawn,
        first-append (has_hash hash_of) (reject (has_token_id r.id) (token_rows x (locked w)))
            (new_row x Rotated-now.0.id (locked w) ∷ []),
        row.only,
        row.fresh,
      );
      lock = Released-now.lock;
      grace =
          Released-now.grace
          ∙ ground (
            arith,
            Rotated-now.3.grace (Locked-now.up ∙ up) (grace_key x hash_of),
            eq_refl (grace_key x hash_of),
            Locked-now.now,
          );
      answers = Released-now.up ∙ still_up;
    })

  Spent-answer :
      (t : Tokens) (deadline : ℕ) (w : World x)
      → Spent t deadline w
      → (rotate_tokens x others raw w).0
        ≡ (if ltb w.now deadline then ok t else err session_expired)
  Spent-answer t deadline w s =
      let free : peek x w (lock_key hash_of) ≡ none = rw s.lock in
      let taken = acquire_lock-Locked x hash_of w s.answers free in
      let absent : first (has_hash hash_of) (token_rows x (locked w)) ≡ none =
        ap (λ (tb : x.refresh_tokens.Table). first (has_hash hash_of) (x.refresh_tokens.rows tb))
          taken.tokens
        ∙ s.row in
      let still =
        redis_up-rotate_locked_absent x hash_of (locked w) absent ∙ taken.up ∙ s.answers in
      (rotate_tokens-locked w s.answers free still).0
      ∙ rotate_locked-absent x hash_of (locked w) t deadline (taken.up ∙ s.answers) absent
          (taken.grace ∙ s.grace)
      ∙ ap (λ (n : ℕ). if ltb n deadline then ok t else err session_expired) taken.now

-- While Redis answers, once a refresh token was rotated under a free lock, the same token answers,
-- at any later time, with the same tokens until ten seconds have passed, and with an expired
-- session after that. The token's hash is that of its row alone, and not of the new token.
pub rotate_tokens-replay :
    (x : Services) (others : Others x) (raw : String) (r : RefreshToken) (w : World x) (t : Tokens)
    (later : ℕ)
    → w.redis_up ≡ true
    → peek x w (lock_key (x.crypto.sha256 raw)) ≡ none
    → IsKnown x others raw r w
    → (rotate_locked x (x.crypto.sha256 raw) (acquire_lock x (x.crypto.sha256 raw) w).1).0 ≡ ok t
    → ((rotate_tokens x others raw w).0 ≡ ok t)
      × ((rotate_tokens x others raw (record (rotate_tokens x others raw w).1 { now = later })).0
          ≡ (if ltb later (w.now + grace_ttl_seconds * 1000) then ok t else err session_expired))
rotate_tokens-replay x others raw r w t later up free row rotated =
    let s = rotate_tokens-Spent x others raw r w t up free row rotated in
    (
      rotate_tokens-ok x others raw r w t up free row rotated,
      Spent-answer x others raw t (w.now + grace_ttl_seconds * 1000)
          (record (rotate_tokens x others raw w).1 { now = later })
          (record { row = s.row; lock = s.lock; grace = s.grace; answers = s.answers }),
    )

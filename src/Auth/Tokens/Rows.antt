-- ===== src/Auth/Tokens/Rows.antt =====
-- What a rotation does to the table of refresh tokens.
use open_profile_be.Auth.RedisLock.{grace_key, grace_ttl_seconds}
use open_profile_be.Auth.Tokens.{
  access_payload, has_hash, has_token_id, refresh_token_max_age_ms, rotate_found, rotate_live,
  rotate_locked, rotate_record,
}
use open_profile_be.Auth.UserStatusCache.{has_id}
use open_profile_be.Entities.{RefreshToken, User}
use open_profile_be.Exec.{ok}
use open_profile_be.Prelude.{
  none, Bool-cases, List, Option-cases, String, [], arith, first, if◌then◌else◌, inl, inr, ltb,
  ltb→le, reject, some, suc, sym, true, ◌*◌, ◌++◌, ◌+◌, ◌==◌, ◌∙◌, ◌∷◌, ◌≡◌, ◌≤◌,
}
use open_profile_be.Services.{Services}
use open_profile_be.Services.Redis.{text_entry}
use open_profile_be.Services.Settings.{Tokens}
use open_profile_be.World.{World}

module _ (x : Services) where
  -- The row of a new token, whose two random values are drawn in world `w`.
  abbrev pub new_row : String → World x → RefreshToken
  new_row user_id w = record {
    id = x.crypto.uuid (suc w.drawn);
    user_id = user_id;
    token_hash = x.crypto.sha256 (x.crypto.uuid w.drawn);
    expires_at = w.now + refresh_token_max_age_ms;
    created_at = w.now;
  }

  abbrev pub token_rows : World x → List RefreshToken
  token_rows w = x.refresh_tokens.rows w.refresh_tokens

  -- A rotation that returned has exchanged the row for a new one, and says so.
  pub record Rotated (hash : String) (r : RefreshToken) (u : User) (w after : World x) (t : Tokens)
      : Type 0 where
    pub rows : token_rows after ≡ reject (has_token_id r.id) (token_rows w) ++ new_row u.id w ∷ []
    pub refresh_token : t.refresh_token ≡ x.crypto.uuid w.drawn
    pub access_token : t.access_token ≡ x.crypto.sign_access (access_payload x u w)
    pub users : after.users ≡ w.users
    pub redis_up : after.redis_up ≡ w.redis_up
    pub now : after.now ≡ w.now
    -- The tokens are kept for those that come second.
    pub grace :
        w.redis_up ≡ true
        → (j : String)
        → x.redis.entry after.redis j ≡ (
            if grace_key x hash == j
            then text_entry (x.env.stringify_tokens t) (some (w.now + grace_ttl_seconds * 1000))
            else x.redis.entry w.redis j)

  rotate_record-Rotated :
      (hash : String) (r : RefreshToken) (u : User) (w : World x) (t : Tokens)
      → (rotate_record x hash r (some u) w).0 ≡ ok t
      → Rotated hash r u w (rotate_record x hash r (some u) w).1 t
  unfolding rotate_record
  rotate_record-Rotated hash r u w t e =
      let deleted = (x.refresh_tokens.delete (has_token_id r.id) w.refresh_tokens).1 in
      record {
        rows = ground (
          arith,
          x.refresh_tokens.rows-insert (new_row u.id w) deleted,
          x.refresh_tokens.rows-delete (has_token_id r.id) w.refresh_tokens,
        );
        refresh_token = ground arith;
        access_token = ground arith;
        users = ground arith;
        redis_up = ground arith;
        now = ground arith;
        grace = λ up j. ground (
          arith,
          x.redis.entry-set w.redis (grace_key x hash) (x.env.stringify_tokens t)
              (some (w.now + grace_ttl_seconds * 1000)) j,
        );
      }

  -- A row whose user is gone gives no tokens.
  rotate_record-orphan :
      (hash : String) (r : RefreshToken) (w : World x) (t : Tokens)
      → ¬ ((rotate_record x hash r none w).0 ≡ ok t)
  unfolding rotate_record
  rotate_record-orphan hash r w t e = ground arith

  rotate_live-Rotated :
      (hash : String) (r : RefreshToken) (w : World x) (t : Tokens)
      → (rotate_live x hash r w).0 ≡ ok t
      → (u : User) × (first (has_id r.user_id) (x.users.rows w.users) ≡ some u)
        × Rotated hash r u w (rotate_live x hash r w).1 t
  unfolding rotate_live
  rotate_live-Rotated hash r w t e =
      elim (Option-cases (x.users.find_one (has_id r.user_id) w.users)) [
        | inl missing ↦ absurd (rotate_record-orphan hash r w t (ground arith))
        | inr (u, found) ↦ (
          u,
          sym (x.users.find_one_lem (has_id r.user_id) w.users) ∙ found,
          rw found (rotate_record-Rotated hash r u w t (ground arith)),
        )
      ]

  rotate_found-Rotated :
      (hash : String) (r : RefreshToken) (w : World x) (t : Tokens)
      → (rotate_found x hash r w).0 ≡ ok t
      → (u : User) × (first (has_id r.user_id) (x.users.rows w.users) ≡ some u)
        × (w.now ≤ r.expires_at)
        × Rotated hash r u w (rotate_found x hash r w).1 t
  unfolding rotate_found
  rotate_found-Rotated hash r w t e = elim (Bool-cases (ltb r.expires_at w.now)) [
    | inl late ↦ absurd (ground arith)
    | inr in_time ↦
        let (u, found, rotated) = rotate_live-Rotated hash r w t (rw in_time at e) in
        (u, found, ltb→le r.expires_at w.now in_time, rw in_time rotated)
  ]

  -- Under the lock, a rotation of a known row that returned found the row in time, and its user.
  pub rotate_locked-Rotated :
      (hash : String) (r : RefreshToken) (w : World x) (t : Tokens)
      → first (has_hash hash) (token_rows w) ≡ some r
      → (rotate_locked x hash w).0 ≡ ok t
      → (u : User) × (first (has_id r.user_id) (x.users.rows w.users) ≡ some u)
        × (w.now ≤ r.expires_at)
        × Rotated hash r u w (rotate_locked x hash w).1 t
  unfolding rotate_locked
  rotate_locked-Rotated hash r w t known e =
      let found : x.refresh_tokens.find_one (has_hash hash) w.refresh_tokens ≡ some r =
        x.refresh_tokens.find_one_lem (has_hash hash) w.refresh_tokens ∙ known in
      rw found (rotate_found-Rotated hash r w t (rw found at e))

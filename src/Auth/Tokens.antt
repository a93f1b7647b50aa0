-- ===== src/Auth/Tokens.antt =====
-- TokenService (modules/auth/services/token.service.ts) and the cookie policy
-- (modules/auth/utils/auth-cookie-policy.ts).
pub mod Rows
pub mod Replay
use open_profile_be.Auth.RedisLock.{
  Others, acquire_lock, read_grace, release_lock, store_grace, wait_for_grace,
}
use open_profile_be.Auth.UserStatusCache.{has_id}
use open_profile_be.Entities.{RefreshToken, User, UserRole, admin, email, user}
use open_profile_be.Exec.{
  Exception, finally, gets, http, infrastructure, modify, ok, pure, refresh_in_progress, require,
  throw, throw_if, ◌>>=◌, ◌>>◌,
}
use open_profile_be.Prelude.{
  Bool, Option, String, [], false, if◌then◌else◌, ltb, nat_eq, none, some, true, truthy, ℕ, ◌&&◌,
  ◌++◌, ◌+◌, ◌==◌, ◌||◌, ◌∷◌,
}
use open_profile_be.Services.{Services}
use open_profile_be.Services.Security.{JwtPayload}
use open_profile_be.Services.Settings.{Tokens}
use open_profile_be.World.{
  App, CookieOptions, World, clear_cookie, draw, lax, now_seconds, same_site_none, set_cookie,
  stored, strict,
}

abbrev pub refresh_token_max_age_ms : ℕ
refresh_token_max_age_ms = 604800000

abbrev pub access_token_max_age_ms : ℕ
access_token_max_age_ms = 900000

abbrev pub silent_refresh_threshold_seconds : ℕ
silent_refresh_threshold_seconds = 180

abbrev pub session_expired : Exception
session_expired = http 401 "SESSION_EXPIRED"

-- `role ?? UserRole.USER`, as the enum's text
abbrev pub role_text : Option UserRole → String
role_text none = "user"
role_text (some user) = "user"
role_text (some admin) = "admin"

unfoldable pub resolve_auth_cookie_options : String → String → CookieOptions
resolve_auth_cookie_options node_env cookie_domain =
    if node_env == "production"
    then record { secure = true; same_site = strict; path = "/"; domain = some cookie_domain }
    else if node_env == "staging"
    then record {
      secure = true;
      same_site = same_site_none;
      path = "/";
      domain = some cookie_domain;
    }
    else record { secure = false; same_site = lax; path = "/"; domain = none }

abbrev pub has_hash : String → RefreshToken → Bool
has_hash hash r = r.token_hash == hash

abbrev pub has_token_id : String → RefreshToken → Bool
has_token_id id r = r.id == id

abbrev pub of_user : String → RefreshToken → Bool
of_user user_id r = r.user_id == user_id

module _ (x : Services) where
  -- The claims of a user, with the expiry that `expiresIn` adds.
  unfoldable pub access_payload : User → World x → JwtPayload
  access_payload u w = record {
    sub = u.id;
    email = u.email;
    role = role_text u.role;
    onboarding_complete = u.onboarding_complete;
    exp = some (now_seconds x w + x.env.jwt_access_expires_in);
  }

  unfoldable pub generate_access_token : User → App x String
  unfolding access_payload
  generate_access_token u = gets λ w. x.crypto.sign_access (access_payload u w)

  abbrev put_tokens : World x → x.refresh_tokens.Table → World x
  put_tokens w t = record w { refresh_tokens = t }

  -- The row and the raw token that it stands for; the database draws the row's id.
  unfoldable pub create_refresh_token_record : String → App x (RefreshToken × String)
  create_refresh_token_record user_id = do
    token ← draw x
    id ← draw x
    now ← gets (λ w. w.now)
    let raw_token = x.crypto.uuid token
    pure (
      record {
        id = x.crypto.uuid id;
        user_id = user_id;
        token_hash = x.crypto.sha256 raw_token;
        expires_at = now + refresh_token_max_age_ms;
        created_at = now;
      },
      raw_token,
    )

  unfoldable pub save_token : RefreshToken → App x (Unit {0})
  save_token r w = stored x put_tokens (x.refresh_tokens.insert r w.refresh_tokens) w

  unfoldable pub generate_refresh_token : String → App x String
  unfolding create_refresh_token_record save_token
  generate_refresh_token user_id = do
    created ← create_refresh_token_record user_id
    save_token created.0
    pure created.1

  -- `delete(criteria)`, with the number of rows it affected
  unfoldable pub delete_tokens : (RefreshToken → Bool) → App x ℕ
  delete_tokens p w = (
    ok (x.refresh_tokens.delete p w.refresh_tokens).0,
    record w { refresh_tokens = (x.refresh_tokens.delete p w.refresh_tokens).1 },
  )

  -- The rotation of a row that is not expired. Its user is needed once the row is deleted.
  unfoldable pub rotate_record : String → RefreshToken → Option User → App x Tokens
  unfolding delete_tokens generate_access_token create_refresh_token_record save_token store_grace
  rotate_record hash r owner = do
    affected ← delete_tokens (has_token_id r.id)
    throw_if (nat_eq affected 0) session_expired
    u ← require owner (infrastructure "TypeError")
    created ← create_refresh_token_record u.id
    save_token created.0
    access_token ← generate_access_token u
    let rotated : Tokens = record { access_token = access_token; refresh_token = created.1 }
    store_grace x hash rotated
    pure rotated

  -- A row that is still good: `relations: ['user']` reads its user, whom the foreign key keeps.
  unfoldable pub rotate_live : String → RefreshToken → App x Tokens
  unfolding rotate_record
  rotate_live hash r = do
    found ← gets (λ w. x.users.find_one (has_id r.user_id) w.users)
    rotate_record hash r found

  -- A row whose time has passed is deleted, and the session is over.
  unfoldable pub rotate_found : String → RefreshToken → App x Tokens
  unfolding rotate_live delete_tokens
  rotate_found hash r w =
      (if ltb r.expires_at w.now
          then (delete_tokens (has_token_id r.id) >> throw session_expired)
          else rotate_live hash r)
        w

  abbrev pub rotate_matched : String → Option RefreshToken → App x Tokens
  rotate_matched hash (some r) = rotate_found hash r
  rotate_matched hash none = do
    rotated_recently ← read_grace x hash
    require rotated_recently session_expired

  -- The `try` block of `rotateTokens`, under the lock.
  unfoldable pub rotate_locked : String → App x Tokens
  unfolding rotate_found read_grace
  rotate_locked hash = do
    matched ← gets (λ w. x.refresh_tokens.find_one (has_hash hash) w.refresh_tokens)
    rotate_matched hash matched

  unfoldable pub rotate_contended : Others x → String → App x Tokens
  unfolding wait_for_grace
  rotate_contended others hash = do
    rotated_by_winner ← wait_for_grace x others hash
    require rotated_by_winner refresh_in_progress

  unfoldable pub rotate_tokens : Others x → String → App x Tokens
  rotate_tokens others raw_refresh_token =
      let hash = x.crypto.sha256 raw_refresh_token in
      do
        lock_acquired ← acquire_lock x hash
        (if lock_acquired
            then finally (rotate_locked hash) (release_lock x hash)
            else rotate_contended others hash)

  -- `exp - floor(now / 1000) < 180`, where a token with no `exp` has no time left
  unfoldable pub needs_silent_refresh : JwtPayload → World x → Bool
  needs_silent_refresh payload w = elim payload.exp [
    | none ↦ true
    | some exp ↦ nat_eq exp 0 || ltb exp (now_seconds x w + silent_refresh_threshold_seconds)
  ]

  unfoldable pub get_cookie_options : CookieOptions
  unfolding resolve_auth_cookie_options
  get_cookie_options = resolve_auth_cookie_options x.env.node_env x.env.cookie_domain

  unfoldable pub set_token_cookies : Tokens → App x (Unit {0})
  unfolding get_cookie_options
  set_token_cookies tokens =
      let base = get_cookie_options in
      modify λ w. record w {
        cookies =
            w.cookies
            ++ set_cookie "accessToken" tokens.access_token true access_token_max_age_ms base
              ∷ set_cookie "refreshToken" tokens.refresh_token true refresh_token_max_age_ms base
              ∷ set_cookie "auth" "1" false refresh_token_max_age_ms base
              ∷ [];
      }

  unfoldable pub clear_token_cookies : App x (Unit {0})
  unfolding get_cookie_options
  clear_token_cookies =
      let base = get_cookie_options in
      modify λ w. record w {
        cookies =
            w.cookies
            ++ clear_cookie "accessToken" base
              ∷ clear_cookie "refreshToken" base
              ∷ clear_cookie "auth" base
              ∷ [];
      }

  -- `{ ...(userId ? { userId } : {}), tokenHash }`
  abbrev pub belongs : Option String → RefreshToken → Bool
  belongs none r = true
  belongs (some user_id) r = r.user_id == user_id

  unfoldable pub invalidate_refresh_token : Option String → String → App x (Unit {0})
  unfolding delete_tokens
  invalidate_refresh_token user_id raw_refresh_token =
      if raw_refresh_token == "" then pure tt else (do
        delete_tokens
            (λ r. belongs (truthy user_id) r && has_hash (x.crypto.sha256 raw_refresh_token) r)
        pure tt)

  unfoldable pub invalidate_all_refresh_tokens : String → App x (Unit {0})
  unfolding delete_tokens
  invalidate_all_refresh_tokens user_id =
      if user_id == "" then pure tt else (do delete_tokens (of_user user_id); pure tt)

  unfoldable pub verify_access_token : String → App x JwtPayload
  verify_access_token token w =
      require (x.crypto.verify_access (now_seconds x w) token) (infrastructure "JsonWebTokenError")
        w

-- ===== src/Auth/Guard.antt =====
-- JwtAuthGuard (modules/auth/guards/jwt-auth.guard.ts).
pub mod Admission
use text.Mathlib.Text.{starts_with}
use open_profile_be.Auth.RedisLock.{Others}
use open_profile_be.Auth.Tokens.{
  clear_token_cookies, needs_silent_refresh, rotate_tokens, session_expired, set_token_cookies,
  verify_access_token,
}
use open_profile_be.Auth.UserStatusCache.{is_active}
use open_profile_be.Exec.{
  Exception, Exec, Result, err, gets, http, modify, ok, pure, refresh_in_progress, throw, when,
  ◌>>=◌, ◌>>◌,
}
use open_profile_be.Prelude.{
  Bool, Option, String, drop_chars, false, if◌then◌else◌, none, not, some, true, truthy,
}
use open_profile_be.Services.{Services}
use open_profile_be.Services.Security.{JwtPayload}
use open_profile_be.Services.Settings.{Tokens}
use open_profile_be.World.{App}

abbrev pub account_inactive : Exception
account_inactive = http 401 "ACCOUNT_INACTIVE"

-- What the guard reads of a request.
pub record GuardRequest : Type 0 where
  pub is_public : Bool
  pub access_cookie : Option String
  pub refresh_cookie : Option String
  pub authorization : Option String

-- `header?.startsWith('Bearer ') ? header.slice(7) : undefined`
abbrev bearer : Option String → Option String
bearer none = none
bearer (some header) = if starts_with "Bearer " header then some (drop_chars 7 header) else none

-- `cookie ?? bearer`
abbrev cookie_or : Option String → Option String → Option String
cookie_or none header = header
cookie_or (some cookie) header = some cookie

-- The access token, absent where it is empty.
unfoldable pub access_token_of : GuardRequest → Option String
access_token_of r = truthy (cookie_or r.access_cookie (bearer r.authorization))

-- The result of a step as a value, for a handler that needs to see it.
abbrev pub attempt : {S A : Type 0} → Exec S A → Exec S (Result A)
attempt m s = (ok (m s).0, (m s).1)

module _ (x : Services) (others : Others x) where
  abbrev pub set_request_user : JwtPayload → App x (Unit {0})
  set_request_user payload = modify λ w. record w { request_user = some payload }

  -- The body of the `catch` of `attemptRefresh`.
  abbrev pub refresh_failed : Bool → Exception → App x Bool
  refresh_failed true e = pure true
  refresh_failed false refresh_in_progress = throw refresh_in_progress
  refresh_failed false _ = clear_token_cookies x >> throw session_expired

  abbrev pub no_refresh_token : Bool → App x Bool
  no_refresh_token true = pure true
  no_refresh_token false = clear_token_cookies x >> throw session_expired

  abbrev pub inactive_after_refresh : Bool → App x Bool
  inactive_after_refresh is_silent =
      clear_token_cookies x >> (if is_silent then pure true else throw account_inactive)

  abbrev pub refreshed : Tokens → JwtPayload → App x Bool
  refreshed tokens new_payload = do
    set_token_cookies x tokens
    set_request_user new_payload
    pure true

  -- The rest of `attemptRefresh`, once the `try` has ended.
  unfoldable pub after_rotation : Bool → Result (Tokens × JwtPayload) → App x Bool
  unfolding set_token_cookies clear_token_cookies
  after_rotation is_silent (err e) = refresh_failed is_silent e
  after_rotation is_silent (ok (tokens, new_payload)) = do
    is_live ← is_active x new_payload.sub
    (if is_live then refreshed tokens new_payload else inactive_after_refresh is_silent)

  unfoldable pub rotate_and_verify : String → App x (Tokens × JwtPayload)
  rotate_and_verify raw_refresh_token = do
    tokens ← rotate_tokens x others raw_refresh_token
    payload ← verify_access_token x tokens.access_token
    pure (tokens, payload)

  unfoldable pub attempt_refresh : Option String → Bool → App x Bool
  unfolding after_rotation
  attempt_refresh none is_silent = no_refresh_token is_silent
  attempt_refresh (some raw_refresh_token) is_silent = do
    outcome ← attempt (rotate_and_verify raw_refresh_token)
    after_rotation is_silent outcome

  -- A public route: the requester is identified where the token is good, and never rejected.
  abbrev pub after_identification : Option String → Result (Unit {0}) → App x Bool
  after_identification raw_refresh_token (ok _) = pure true
  after_identification raw_refresh_token (err e) =
      attempt_refresh raw_refresh_token true >> pure true

  unfoldable pub identify : String → App x (Unit {0})
  identify access_token = do
    payload ← verify_access_token x access_token
    is_live ← is_active x payload.sub
    when is_live (set_request_user payload)

  unfoldable pub public_with_token : Option String → String → App x Bool
  public_with_token raw_refresh_token access_token = do
    identified ← attempt (identify access_token)
    after_identification raw_refresh_token identified

  unfoldable pub can_activate_public : GuardRequest → Option String → App x Bool
  unfolding public_with_token
  can_activate_public r none = pure true
  can_activate_public r (some access_token) =
      public_with_token (truthy r.refresh_cookie) access_token

  -- A private route whose access token is good.
  unfoldable pub admit : GuardRequest → JwtPayload → App x Bool
  unfolding attempt_refresh clear_token_cookies
  admit r payload = do
    is_live ← is_active x payload.sub
    when (not is_live) (clear_token_cookies x >> throw account_inactive)
    expiring ← gets (needs_silent_refresh x payload)
    when expiring (attempt_refresh (truthy r.refresh_cookie) true >> pure tt)
    set_request_user payload
    pure true

  abbrev pub after_verification : GuardRequest → Result JwtPayload → App x Bool
  after_verification r (ok payload) = admit r payload
  after_verification r (err e) = attempt_refresh (truthy r.refresh_cookie) false

  unfoldable pub private_with_token : GuardRequest → String → App x Bool
  private_with_token r access_token = do
    verified ← attempt (verify_access_token x access_token)
    after_verification r verified

  unfoldable pub can_activate_private : GuardRequest → Option String → App x Bool
  unfolding private_with_token attempt_refresh
  can_activate_private r none = attempt_refresh (truthy r.refresh_cookie) false
  can_activate_private r (some access_token) = private_with_token r access_token

  unfoldable pub can_activate : GuardRequest → App x Bool
  unfolding can_activate_public can_activate_private access_token_of
  can_activate r =
      if r.is_public
      then can_activate_public r (access_token_of r)
      else can_activate_private r (access_token_of r)

-- ===== src/Auth/Sessions.antt =====
-- The sessions of AuthService (modules/auth/auth.service.ts): `refreshTokens`, `logout`,
-- `validateGoogleUser` and `loginGoogle`.
pub mod Takeover
pub mod Outcome
use open_profile_be.Auth.Codes.{Cookies, start_session}
use open_profile_be.Auth.RedisLock.{Others}
use open_profile_be.Auth.Tokens.{
  clear_token_cookies, invalidate_refresh_token, rotate_tokens, session_expired, set_token_cookies,
}
use open_profile_be.Entities.{AuthProvider, User, UserPreferences, UserRole, UserStatus, email}
use open_profile_be.Exec.{catch, pure, throw, ◌>>=◌, ◌>>◌}
use open_profile_be.Prelude.{
  Bool, Option, String, false, if◌then◌else◌, none, not, some, true, truthy, ℕ, ◌&&◌,
}
use open_profile_be.Services.{Services}
use open_profile_be.Services.Security.{JwtPayload}
use open_profile_be.World.{App, draw}
use open_profile_be.Users

pub record GoogleUser : Type 0 where
  pub email : String
  pub full_name : String

pub record ValidatedUser : Type 0 where
  pub account : User
  pub is_new_user : Bool

-- `Omit<User, 'password' | …>`
pub record SafeUser : Type 0 where
  pub id : String
  pub email : String
  pub full_name : Option String
  pub username : Option String
  pub bio : Option String
  pub photo_url : Option String
  pub is_published : Bool
  pub role : Option UserRole
  pub status : UserStatus
  pub auth_provider : AuthProvider
  pub is_verified : Bool
  pub onboarding_complete : Bool
  pub preferences : UserPreferences
  pub otp_hash : Option String
  pub otp_expires_at : Option ℕ
  pub last_login_ip : Option String
  pub created_at : ℕ

pub record GoogleAuthResponse : Type 0 where
  pub safe_user : SafeUser
  pub is_new_user : Bool

-- `const { password, deletedAt, ...safeUser } = user`
abbrev pub without_password : User → SafeUser
without_password u = record {
  id = u.id;
  email = u.email;
  full_name = u.full_name;
  username = u.username;
  bio = u.bio;
  photo_url = u.photo_url;
  is_published = u.is_published;
  role = u.role;
  status = u.status;
  auth_provider = u.auth_provider;
  is_verified = u.is_verified;
  onboarding_complete = u.onboarding_complete;
  preferences = u.preferences;
  otp_hash = u.otp_hash;
  otp_expires_at = u.otp_expires_at;
  last_login_ip = u.last_login_ip;
  created_at = u.created_at;
}

module _ (x : Services) where
  unfoldable pub end_session : {A : Type 0} → App x A
  unfolding clear_token_cookies
  end_session = clear_token_cookies x >> throw session_expired

  -- The `try` block of `refreshTokens`.
  unfoldable pub rotate_cookies : Others x → String → App x (Unit {0})
  unfolding rotate_tokens set_token_cookies
  rotate_cookies others raw_refresh_token = do
    tokens ← rotate_tokens x others raw_refresh_token
    set_token_cookies x tokens

  abbrev pub refresh_with : Others x → Option String → App x (Unit {0})
  refresh_with others none = end_session
  refresh_with others (some raw_refresh_token) =
      catch (rotate_cookies others raw_refresh_token) (λ _. end_session)

  unfoldable pub refresh_tokens : Others x → Cookies → App x (Unit {0})
  unfolding rotate_cookies end_session
  refresh_tokens others cookies = refresh_with others (truthy cookies.refresh_token)

  abbrev sub_of : Option JwtPayload → Option String
  sub_of none = none
  sub_of (some payload) = some payload.sub

  -- The user that the access token names, even one that has expired.
  abbrev pub user_of : Option String → Option String
  user_of none = none
  user_of (some access_token) = sub_of (x.crypto.verify_access_ignoring_expiration access_token)

  abbrev forget : Option String → Option String → App x (Unit {0})
  forget user_id none = pure tt
  forget user_id (some raw_refresh_token) = invalidate_refresh_token x user_id raw_refresh_token

  unfoldable pub logout : Cookies → App x (Unit {0})
  unfolding invalidate_refresh_token clear_token_cookies
  logout cookies = do
    forget (user_of (truthy cookies.access_token)) (truthy cookies.refresh_token)
    clear_token_cookies x

  -- An address that nobody verified passes to its Google account: the password that the first
  -- registration chose is replaced by a random one.
  unfoldable pub take_over : User → App x User
  take_over u = do
    random ← draw x
    Users.update_password x u.id (x.crypto.random_hex random)
    Users.clear_otp x u.id
    Users.find_one x u.id

  unfoldable pub existing_google_user : User → App x ValidatedUser
  existing_google_user u = do
    v ←
        (if Users.provider_eq u.auth_provider AuthProvider.email && not u.is_verified
          then take_over u
          else pure u)
    pure (record { account = v; is_new_user = false })

  unfoldable pub new_google_user : String → String → App x ValidatedUser
  new_google_user address full_name = do
    created ← Users.create_google_user x address full_name
    pure (record { account = created; is_new_user = true })

  abbrev google_user_for : String → String → Option User → App x ValidatedUser
  google_user_for address full_name none = new_google_user address full_name
  google_user_for address full_name (some u) = existing_google_user u

  unfoldable pub validate_google_user : GoogleUser → App x ValidatedUser
  unfolding existing_google_user new_google_user
  validate_google_user google_user = do
    let address = x.crypto.to_lower google_user.email
    found ← Users.find_by_email x address
    google_user_for address google_user.full_name found

  -- The user without its password, and whether its onboarding is still to come.
  unfoldable pub login_google : User → Cookies → App x GoogleAuthResponse
  unfolding start_session
  login_google u cookies = do
    start_session x cookies u
    pure (record { safe_user = without_password u; is_new_user = not u.onboarding_complete })

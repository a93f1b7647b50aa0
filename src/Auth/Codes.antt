-- ===== src/Auth/Codes.antt =====
-- The one-time codes of AuthService (modules/auth/auth.service.ts), which registration, login and
-- recovery share: a new code, its check, and the count of wrong codes.
pub mod Spent
pub mod Attempts
use open_profile_be.Auth.Tokens.{generate_access_token, generate_refresh_token, set_token_cookies}
use open_profile_be.Entities.{AuthProvider, User}
use open_profile_be.Exec.{Exception, catch, gets, http, pure, throw, throw_if, when, ◌>>=◌, ◌>>◌}
use open_profile_be.Prelude.{
  Bool, Option, String, false, leb, ltb, none, not, some, true, truthy, ℕ, ◌+◌,
}
use open_profile_be.Queue.{add_job}
use open_profile_be.Services.{Services}
use open_profile_be.World.{App, draw, emit, identity_merged}
use open_profile_be.Redis
use open_profile_be.Users

abbrev pub otp_ttl_ms : ℕ
otp_ttl_ms = 300000

abbrev pub brute_max_attempts : ℕ
brute_max_attempts = 5

abbrev pub email_not_sent : Exception
email_not_sent = http 500 "Failed to send verification email. Please try again."

abbrev pub otp_invalid : Exception
otp_invalid = http 400 "OTP_INVALID"

abbrev pub otp_expired : Exception
otp_expired = http 410 "OTP_EXPIRED"

-- The cookies of a request.
pub record Cookies : Type 0 where
  pub access_token : Option String
  pub refresh_token : Option String
  pub anonymous_id : Option String

-- A code that is waiting: its hash and its expiry, where the row has both.
pub record StoredOtp : Type 0 where
  pub otp_hash : String
  pub otp_expires_at : ℕ

abbrev both : Option String → Option ℕ → Option StoredOtp
both (some h) (some t) = some (record { otp_hash = h; otp_expires_at = t })
both _ _ = none

-- `!user.otpHash || !user.otpExpiresAt`
unfoldable pub stored_otp : User → Option StoredOtp
stored_otp u = both (truthy u.otp_hash) u.otp_expires_at

-- `assertEmailProvider`: an account of another provider has no password to check.
unfoldable pub assert_email_provider : {x : Services} → User → App x (Unit {0})
assert_email_provider u =
    throw_if (not (Users.provider_eq u.auth_provider AuthProvider.email))
      (http 400 "WRONG_PROVIDER")

module _ (x : Services) where
  -- `generateOtp`, `argon2.hash` and `storeOtpHash`: the code itself.
  unfoldable pub new_otp : String → App x String
  new_otp id = do
    random ← draw x
    let otp = x.crypto.random_otp random
    salt ← draw x
    now ← gets (λ w. w.now)
    Users.store_otp_hash x id (x.crypto.argon2_hash salt otp) (now + otp_ttl_ms)
    pure otp

  -- A code that cannot be mailed is taken back.
  unfoldable pub send_otp : User → App x (Unit {0})
  unfolding new_otp add_job
  send_otp u = do
    otp ← new_otp u.id
    catch (add_job x (record { name = "send-otp"; to = u.email; content = otp }))
        (λ _. Users.clear_otp_only x u.id >> throw email_not_sent)

  -- The fifth wrong code in its window takes the code away.
  unfoldable pub count_wrong_code : String → String → App x (Unit {0})
  count_wrong_code counter_key id = do
    attempts ← Redis.increment x counter_key 300
    when (leb brute_max_attempts attempts) (Users.clear_otp_only x id >> Redis.del x counter_key)

  unfoldable pub check_valid : Bool → String → String → App x (Unit {0})
  unfolding count_wrong_code
  check_valid true counter_key id = pure tt
  check_valid false counter_key id = count_wrong_code counter_key id >> throw otp_invalid

  -- The expiry and the code; a code that passes is used up, and the address is verified.
  unfoldable pub check_otp : String → String → StoredOtp → String → App x (Unit {0})
  unfolding check_valid
  check_otp counter_key id code otp = do
    now ← gets (λ w. w.now)
    throw_if (ltb code.otp_expires_at now) otp_expired
    check_valid (x.crypto.argon2_verify code.otp_hash otp) counter_key id
    Redis.del x counter_key
    Users.clear_otp x id

  unfoldable pub merge_anonymous_identity_if_present : Cookies → String → App x (Unit {0})
  merge_anonymous_identity_if_present cookies user_id = elim (truthy cookies.anonymous_id) [
    | none ↦ pure tt
    | some anonymous_id ↦ emit x (identity_merged anonymous_id user_id)
  ]

  -- The tokens of a new session, in its cookies.
  unfoldable pub start_session : Cookies → User → App x (Unit {0})
  unfolding generate_access_token generate_refresh_token set_token_cookies
      merge_anonymous_identity_if_present
  start_session cookies u = do
    access_token ← generate_access_token x u
    refresh_token ← generate_refresh_token x u.id
    set_token_cookies x (record { access_token = access_token; refresh_token = refresh_token })
    merge_anonymous_identity_if_present cookies u.id

-- ===== src/Auth/Recovery.antt =====
-- A forgotten or a changed password: `forgotPassword`, `verifyResetOtp`, `resetPassword` and
-- `changePassword` of AuthService (modules/auth/auth.service.ts).
pub mod Silence
pub mod Once
pub mod Flow
pub mod SignedOut
use open_profile_be.Auth.Codes.{
  StoredOtp, assert_email_provider, check_otp, new_otp, otp_invalid, stored_otp,
}
use open_profile_be.Auth.Tokens.{invalidate_all_refresh_tokens}
use open_profile_be.Entities.{AuthProvider, User}
use open_profile_be.Exec.{
  Exception, catch, err, gets, http, infrastructure, ok, pure, require, throw_if, when, ◌>>=◌, ◌>>◌,
}
use open_profile_be.Prelude.{
  Bool, Option, String, if◌then◌else◌, key, none, not, some, ◌+◌, ◌==◌, ◌∷◌,
}
use open_profile_be.Queue.{add_job}
use open_profile_be.Services.{Services}
use open_profile_be.World.{App, now_seconds}
use open_profile_be.RateLimiter
use open_profile_be.Users

abbrev pub token_invalid : Exception
token_invalid = http 400 "TOKEN_INVALID"

abbrev pub too_many_codes : Exception
too_many_codes =
    http 429 "You have requested too many codes. Please wait 60 minutes before trying again."

abbrev pub reset_attempts_key : String → String
reset_attempts_key address = key "reset-otp-attempts:" address

abbrev pub has_email_provider : User → Bool
has_email_provider u = Users.provider_eq u.auth_provider AuthProvider.email

module _ (x : Services) where
  -- The mail of MailService goes out at once; it fails where the mail server does.
  unfoldable pub send_password_reset_otp : String → String → App x (Unit {0})
  send_password_reset_otp to otp w =
      if w.mail_up
      then (
        ok tt,
        record w {
          mails = record { name = "password-reset-otp"; to = to; content = otp } ∷ w.mails;
        },
      )
      else (err (infrastructure "mail unavailable"), w)

  unfoldable pub send_reset_code : User → App x (Unit {0})
  unfolding new_otp send_password_reset_otp
  send_reset_code u = do
    otp ← new_otp x u.id
    catch (send_password_reset_otp u.email otp) (λ _. pure tt)

  abbrev pub code_for : Option User → App x (Unit {0})
  code_for none = pure tt
  code_for (some u) = when (has_email_provider u) (send_reset_code u)

  -- The answer is `FORGOT_PASSWORD_GENERIC_MSG`, whatever was found.
  unfoldable pub forgot_password : String → App x (Unit {0})
  unfolding send_reset_code
  forgot_password address = do
    let lowercased_email = x.crypto.to_lower address
    allowed ← RateLimiter.is_allowed x (key "forgot-password:" lowercased_email) 3 3600
    throw_if (not allowed) too_many_codes
    found ← Users.find_by_email x lowercased_email
    code_for found

  -- The account whose code waits, with the code.
  abbrev pub with_code : Option User → Option (User × StoredOtp)
  with_code none = none
  with_code (some u) = elim (stored_otp u) [ none ↦ none | some code ↦ some (u, code) ]

  -- A reset token is good for ten minutes.
  unfoldable pub verify_reset_otp : (address otp : String) → App x String
  unfolding check_otp
  verify_reset_otp address otp = do
    let lowercased_email = x.crypto.to_lower address
    found ← Users.find_by_email x lowercased_email
    waiting ← require (with_code found) otp_invalid
    check_otp x (reset_attempts_key lowercased_email) waiting.0.id waiting.1 otp
    now ← gets (now_seconds x)
    pure (
        x.crypto.sign_reset (now + 600) (record { sub = waiting.0.id; purpose = "password_reset" }))

  -- The new password, the end of every session, and the notice, which may fail.
  unfoldable pub replace_password : User → String → App x (Unit {0})
  unfolding invalidate_all_refresh_tokens add_job
  replace_password u new_password = do
    Users.update_password x u.id new_password
    invalidate_all_refresh_tokens x u.id
    catch (add_job x (record { name = "send-password-changed"; to = u.email; content = "" }))
        (λ _. pure tt)

  unfoldable pub reset_password : (reset_token new_password : String) → App x (Unit {0})
  unfolding replace_password
  reset_password reset_token new_password = do
    now ← gets (now_seconds x)
    payload ← require (x.crypto.verify_reset now reset_token) token_invalid
    throw_if (not (payload.purpose == "password_reset")) token_invalid
    u ← Users.find_one x payload.sub
    replace_password u new_password

  unfoldable pub change_password :
      (user_id current_password new_password : String) → App x (Unit {0})
  unfolding replace_password
  change_password user_id current_password new_password = do
    u ← Users.find_one x user_id
    assert_email_provider u
    throw_if (not (x.crypto.argon2_verify u.password current_password))
        (http 400 "CURRENT_PASSWORD_INCORRECT")
    throw_if (new_password == current_password) (http 400 "PASSWORD_UNCHANGED")
    replace_password u new_password

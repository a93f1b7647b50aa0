-- ===== src/Auth/Verification.antt =====
-- Registration and the verification of its address: `register`, `verifyOtp` and `resendOtp` of
-- AuthService (modules/auth/auth.service.ts).
pub mod Invited
use open_profile_be.Auth.Codes.{Cookies, check_otp, new_otp, send_otp, start_session, stored_otp}
use open_profile_be.Entities.{User, UserRole}
use open_profile_be.Exec.{Exception, catch, http, pure, require, throw_if, ◌>>=◌, ◌>>◌}
use open_profile_be.Prelude.{Bool, Option, String, if◌then◌else◌, key, none, not, some, truthy}
use open_profile_be.Queue.{add_job}
use open_profile_be.Services.{Services}
use open_profile_be.World.{App}
use open_profile_be.Invites
use open_profile_be.RateLimiter
use open_profile_be.Redis
use open_profile_be.Users

abbrev pub no_account : Exception
no_account = http 400 "No account found for this email address."

abbrev pub already_verified : Exception
already_verified = http 409 "This account has already been verified. Please log in."

abbrev pub no_otp : Exception
no_otp = http 400 "No OTP found for this email. Please request a new verification code."

abbrev pub verify_otp_attempts_key : String → String
verify_otp_attempts_key address = key "verify-otp-attempts:" address

pub record VerifiedUser : Type 0 where
  pub id : String
  pub email : String
  pub role : Option UserRole
  pub onboarding_complete : Bool

module _ (x : Services) where
  unfoldable pub register : String → String → App x (Unit {0})
  unfolding send_otp
  register address password = do u ← Users.create_email_user x address password; send_otp x u

  -- An invite that cannot be claimed does not stop the verification.
  unfoldable pub claim_quietly : Option String → String → String → App x (Unit {0})
  claim_quietly none id address = pure tt
  claim_quietly (some token) id address =
      catch (Invites.claim_invite x token id address) (λ _. pure tt)

  unfoldable pub verify_otp : (address otp : String) → Option String → Cookies → App x VerifiedUser
  verify_otp address otp invite_token cookies = do
    let lowercased_email = x.crypto.to_lower address
    found ← Users.find_by_email x lowercased_email
    u ← require found no_account
    throw_if u.is_verified already_verified
    code ← require (stored_otp u) no_otp
    check_otp x (verify_otp_attempts_key lowercased_email) u.id code otp
    claim_quietly (truthy invite_token) u.id lowercased_email
    start_session x cookies u
    pure (record {
      id = u.id;
      email = u.email;
      role = u.role;
      onboarding_complete = u.onboarding_complete;
    })

  unfoldable pub resend_to : String → User → App x String
  unfolding new_otp add_job
  resend_to lowercased_email u =
      if u.is_verified
      then pure "If this email is registered, you will receive instructions shortly."
      else (do
        otp ← new_otp x u.id
        Redis.del x (verify_otp_attempts_key lowercased_email)
        add_job x (record { name = "send-otp"; to = u.email; content = otp })
        pure "OTP has been sent successfully")

  abbrev resend_found : String → Option User → App x String
  resend_found lowercased_email none = pure "If the email exists, an OTP has been sent"
  resend_found lowercased_email (some u) = resend_to lowercased_email u

  unfoldable pub resend_otp : String → App x String
  unfolding resend_to
  resend_otp address = do
    let lowercased_email = x.crypto.to_lower address
    allowed ← RateLimiter.is_allowed x (key "resend-otp:" lowercased_email) 3 3600
    found ← Users.find_by_email x lowercased_email
    throw_if (not allowed) (http 429 "You have requested too many code.")
    resend_found lowercased_email found

-- ===== src/Auth/Login.antt =====
-- `login` of AuthService (modules/auth/auth.service.ts) and the lock against guessed passwords.
pub mod Untouched
pub mod Guessing
pub mod Lockout
pub mod Credentials
use open_profile_be.Auth.Codes.{
  Cookies, assert_email_provider, brute_max_attempts, send_otp, start_session,
}
use open_profile_be.Auth.Tokens.{role_text}
use open_profile_be.Entities.{User, email}
use open_profile_be.Exec.{Exception, gets, http, pure, require, throw, throw_if, when, ◌>>=◌, ◌>>◌}
use open_profile_be.Prelude.{
  Bool, Option, String, false, if◌then◌else◌, is_some, key, leb, ltb, none, not, some, true, truthy,
  ℕ, ◌*◌, ◌+◌, ◌==◌,
}
use open_profile_be.Queue.{add_job_detached}
use open_profile_be.Services.{Services}
use open_profile_be.World.{App}
use open_profile_be.Redis
use open_profile_be.Users

abbrev pub brute_lockout_seconds : ℕ
brute_lockout_seconds = 1800

abbrev pub invalid_credentials : Exception
invalid_credentials = http 401 "INVALID_CREDENTIALS"

abbrev pub account_locked : Exception
account_locked = http 429 "ACCOUNT_LOCKED"

abbrev pub ip_rate_limited : Exception
ip_rate_limited = http 429 "IP_RATE_LIMIT_EXCEEDED"

abbrev pub lock_key : String → String
lock_key address = key "lock:" address

abbrev pub attempts_key : String → String
attempts_key address = key "attempts:" address

pub data LoginResponse : Type 0 where
  requires_verification : LoginResponse
  logged_in : (id email role : String) (onboarding_complete : Bool) → LoginResponse

module _ (x : Services) where
  -- The fifth wrong password in its window locks the account for thirty minutes.
  unfoldable pub lock_account : User → App x (Unit {0})
  unfolding add_job_detached
  lock_account u = do
    Redis.set x (lock_key u.email) "1" brute_lockout_seconds
    Redis.del x (attempts_key u.email)
    now ← gets (λ w. w.now)
    add_job_detached x (record {
      name = "account-locked";
      to = u.email;
      content = x.env.to_utc_string (now + brute_lockout_seconds * 1000);
    })

  unfoldable pub count_wrong_password : User → App x (Unit {0})
  unfolding lock_account
  count_wrong_password u = do
    attempts ← Redis.increment x (attempts_key u.email) brute_lockout_seconds
    when (leb brute_max_attempts attempts) (lock_account u)

  unfoldable pub password_checked : Bool → User → App x (Unit {0})
  unfolding count_wrong_password
  password_checked true u = Redis.del x (attempts_key u.email)
  password_checked false u = count_wrong_password u >> throw invalid_credentials

  -- The lock, the password, and the count of wrong ones.
  unfoldable pub check_password : User → String → App x (Unit {0})
  unfolding password_checked
  check_password u password = do
    is_locked ← Redis.get x (lock_key u.email)
    throw_if (is_some (truthy is_locked)) account_locked
    password_checked (x.crypto.argon2_verify u.password password) u

  unfoldable pub limit_ip : String → App x (Unit {0})
  limit_ip ip = do
    ip_count ← Redis.increment x (key "ip_rate:" ip) 900
    throw_if (ltb 10 ip_count) ip_rate_limited

  abbrev differs : String → Option String → Bool
  differs ip none = false
  differs ip (some last) = not (last == ip)

  unfoldable pub open_session : String → Cookies → User → App x LoginResponse
  unfolding add_job_detached
  open_session ip cookies u = do
    now ← gets (λ w. w.now)
    when (differs ip u.last_login_ip) (
        add_job_detached x (record {
          name = "new-ip-login";
          to = u.email;
          content = key ip (x.env.to_utc_string now);
        }))
    Users.update_last_login_ip x u.id ip
    start_session x cookies u
    pure (logged_in u.id u.email (role_text u.role) u.onboarding_complete)

  unfoldable pub after_password : String → Cookies → User → App x LoginResponse
  unfolding open_session send_otp
  after_password ip cookies u =
      if u.is_verified
      then open_session ip cookies u
      else (do send_otp x u; pure requires_verification)

  unfoldable pub login : (address password ip : String) → Cookies → App x LoginResponse
  login address password ip cookies = do
    limit_ip ip
    found ← Users.find_by_email x address
    u ← require found invalid_credentials
    assert_email_provider u
    check_password u password
    after_password ip cookies u

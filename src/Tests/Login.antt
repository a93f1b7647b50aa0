-- ===== src/Tests/Login.antt =====
-- Logins at concrete passwords.
use open_profile_be.Auth.Codes.{
  Cookies, assert_email_provider, merge_anonymous_identity_if_present, start_session,
}
use open_profile_be.Auth.Login.{
  account_locked, after_password, check_password, limit_ip, login, open_session, password_checked,
}
use open_profile_be.Auth.Login.Credentials.{Holder, login-Holder}
use open_profile_be.Auth.Login.Guessing.{Guess, guessed}
use open_profile_be.Auth.Login.Lockout.{five_guesses-lock}
use open_profile_be.Auth.Tokens.{
  create_refresh_token_record, generate_access_token, generate_refresh_token, save_token,
  set_token_cookies,
}
use open_profile_be.Entities.{User}
use open_profile_be.Exec.{throw, ◌>>◌}
use open_profile_be.Prelude.{List, [], arith, none, refl, ℕ, ◌∷◌, ◌≡◌}
use open_profile_be.Samples.{ann, sample}
use open_profile_be.Tests.Guard.{ann_only}
use open_profile_be.World.{World}
use open_profile_be.Redis
use open_profile_be.Users

abbrev wrong_at : ℕ → Guess
wrong_at t = record { time = t; password = "guess" }

abbrev three_wrong : List Guess
three_wrong = wrong_at 1002000 ∷ wrong_at 1003000 ∷ wrong_at 1004000 ∷ []

abbrev pub no_cookies : Cookies
no_cookies = record { access_token = none; refresh_token = none; anonymous_id = none }

abbrev locked_world : World sample
locked_world =
    record (guessed sample ann ann_only (wrong_at 1001000) (wrong_at 1005000) three_wrong) {
      now = 2000000;
    }

five_guesses-lock_example :
    (login sample "ann@x.org" "pw" "::1" no_cookies locked_world).0
    ≡ ((limit_ip sample "::1" >> throw account_locked) locked_world).0
five_guesses-lock_example =
    five_guesses-lock sample ann "ann@x.org" "pw" "::1" no_cookies refl ann_only (wrong_at 1001000)
      (wrong_at 1005000) three_wrong 2000000 refl refl refl refl refl
      (
        omega arith,
        omega arith,
        (omega arith, omega arith, (omega arith, omega arith, (omega arith, omega arith, tt))),
      )
      (refl, (refl, (refl, (refl, (refl, tt))))) (omega arith)

login-Holder_example : (u : User) × Holder sample "ann@x.org" "pw" "::1" no_cookies u ann_only
unfolding login limit_ip Redis.increment Redis.incr Redis.expire Users.find_by_email
    assert_email_provider check_password Redis.get password_checked Redis.del after_password
    open_session Users.update_last_login_ip Users.update_row start_session generate_access_token
    generate_refresh_token create_refresh_token_record save_token set_token_cookies
    merge_anonymous_identity_if_present
login-Holder_example = login-Holder sample "ann@x.org" "pw" "::1" no_cookies ann_only tt

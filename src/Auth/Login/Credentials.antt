-- ===== src/Auth/Login/Credentials.antt =====
-- Who can log in.
use open_profile_be.Auth.Codes.{Cookies, assert_email_provider}
use open_profile_be.Auth.Codes.Spent.{first-Returned, never-Returned}
use open_profile_be.Auth.Login.{
  LoginResponse, account_locked, after_password, check_password, count_wrong_password,
  invalid_credentials, limit_ip, lock_key, login, password_checked,
}
use open_profile_be.Auth.Login.Lockout.{users-limit_ip}
use open_profile_be.Entities.{AuthProvider, User}
use open_profile_be.Exec.{
  Exception, Result, Returned, continue, err, http, ok, require, throw_if, ◌>>=◌, ◌>>◌,
}
use open_profile_be.Prelude.{
  Bool, Option, String, ap, false, is_some, none, not, refl, some, sym, true, truthy, ◌∙◌, ◌≡◌,
}
use open_profile_be.Services.{Services}
use open_profile_be.World.{App, World}
use open_profile_be.Redis
use open_profile_be.Users

module _ (x : Services) (u : User) (password : String) where
  abbrev right_password : Bool
  right_password = x.crypto.argon2_verify u.password password

  password_checked-right :
      (b : Bool) (w : World x) → Returned (password_checked x b u w).0 → b ≡ true
  unfolding password_checked
  password_checked-right true w h = refl
  password_checked-right false w h = absurd (
      never-Returned x (count_wrong_password x u w).0 invalid_credentials
        (count_wrong_password x u w).1 h)

  after_lock :
      (b : Bool) (w : World x)
      → Returned ((throw_if b account_locked >> password_checked x right_password u) w).0
      → (b ≡ false) × (right_password ≡ true)
  after_lock true w h = absurd h
  after_lock false w h = (refl, password_checked-right right_password w h)

  after_get :
      (r : Result (Option String)) (w : World x)
      → Returned
          (continue r
            (λ o.
              throw_if (is_some (truthy o)) account_locked >> password_checked x right_password u)
            w).0
      → right_password ≡ true
  after_get (err e) w h = absurd h
  after_get (ok o) w h = (after_lock (is_some (truthy o)) w h).1

  check_password-right :
      (w : World x) → Returned (check_password x u password w).0 → right_password ≡ true
  unfolding check_password
  check_password-right w h =
      after_get (Redis.get x (lock_key u.email) w).0 (Redis.get x (lock_key u.email) w).1 h

module _ (x : Services) (address password ip : String) (cookies : Cookies) where
  -- `login` with its account at hand.
  abbrev login_to : User → App x LoginResponse
  login_to u = do
    assert_email_provider u
    check_password x u password
    after_password x ip cookies u

  assert_passed :
      (b : Bool) (e : Exception) (m : App x LoginResponse) (w : World x)
      → Returned ((throw_if (not b) e >> m) w).0
      → (b ≡ true) × Returned (m w).0
  assert_passed false e m w h = absurd h
  assert_passed true e m w h = (refl, h)

  login_to-right :
      (u : User) (w : World x)
      → Returned (login_to u w).0
      → (Users.provider_eq u.auth_provider AuthProvider.email ≡ true)
        × (x.crypto.argon2_verify u.password password ≡ true)
  unfolding assert_email_provider
  login_to-right u w h =
      let (by_email, rest) =
        assert_passed (Users.provider_eq u.auth_provider AuthProvider.email)
          (http 400 "WRONG_PROVIDER") (check_password x u password >> after_password x ip cookies u)
          w h in
      (
        by_email,
        check_password-right x u password w (
            first-Returned x (check_password x u password w).0 (λ _. after_password x ip cookies u)
              (check_password x u password w).1 rest),
      )

  -- The account of an address that logs in by this password.
  abbrev pub Holder : User → World x → Type 0
  Holder u w =
      (x.users.find_one (Users.has_email address) w.users ≡ some u)
      × (Users.provider_eq u.auth_provider AuthProvider.email ≡ true)
      × (x.crypto.argon2_verify u.password password ≡ true)

  require_found :
      (o : Option User) (w : World x)
      → Returned ((require o invalid_credentials >>= login_to) w).0
      → (u : User) × (o ≡ some u) × Returned (login_to u w).0
  require_found none w h = absurd h
  require_found (some u) w h = (u, refl, h)

  after_ip :
      (r : Result (Unit {0})) (w : World x)
      → Returned
          (continue r
            (λ _. Users.find_by_email x address >>= λ o. require o invalid_credentials >>= login_to)
            w).0
      → (u : User) × Holder u w
  unfolding Users.find_by_email
  after_ip (err e) w h = absurd h
  after_ip (ok _) w h =
      let (u, found, rest) =
        require_found (x.users.find_one (Users.has_email address) w.users) w h in
      (u, (found, (login_to-right u w rest).0, (login_to-right u w rest).1))

  -- A login that returns, with a session or with a code to verify the address, is to an account
  -- that exists under that address, that logs in by password, and whose password it was.
  pub login-Holder :
      (w : World x) → Returned (login x address password ip cookies w).0 → (u : User) × Holder u w
  unfolding login
  login-Holder w h =
      let (u, holder) = after_ip (limit_ip x ip w).0 (limit_ip x ip w).1 h in
      (
        u,
        (
          ap (x.users.find_one (Users.has_email address)) (sym (users-limit_ip x u ip w))
              ∙ holder.0,
          holder.1,
          holder.2,
        ),
      )

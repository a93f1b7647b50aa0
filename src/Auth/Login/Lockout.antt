-- ===== src/Auth/Login/Lockout.antt =====
-- What a locked account answers to `login`, from the first of the guesses on.
use open_profile_be.Auth.Codes.{Cookies, assert_email_provider}
use open_profile_be.Auth.Login.{
  account_locked, attempts_key, check_password, limit_ip, lock_key, login,
}
use open_profile_be.Auth.Login.Guessing.{
  AccountLocked, AllWrong, Between, Guess, guessed, guessed-Locked, users-guessed,
}
use open_profile_be.Entities.{AuthProvider, User}
use open_profile_be.Exec.{Exception, Result, continue, err, ok, throw, ◌>>◌}
use open_profile_be.Prelude.{
  List, String, ap, arith, false, key, length, none, refl, some, text_ne, true, ℕ, ◌+◌, ◌<◌, ◌==◌,
  ◌∷◌, ◌≡◌,
}
use open_profile_be.Services.{Services}
use open_profile_be.Services.Redis.{live}
use open_profile_be.World.{World}
use open_profile_be.Redis
use open_profile_be.Users

module _ (x : Services) (u : User) where
  ip-ne-lock : (ip : String) → (key "ip_rate:" ip == lock_key u.email) ≡ false
  ip-ne-lock ip = text_ne 0 (key "ip_rate:" ip) (lock_key u.email) (omega arith)

  -- The lock as a command finds it, before a step and after one that counts the address.
  abbrev Shut : World x → Type 0
  Shut w = (w.redis_up ≡ true) × (x.redis.get w.redis w.now (lock_key u.email) ≡ some "1")

  check_password-Shut :
      (p : String) (w : World x) → Shut w → (check_password x u p w).0 ≡ err account_locked
  unfolding check_password Redis.get
  check_password-Shut p w (up, e) = ground arith

  login-Shut :
      (address password ip : String) (cookies : Cookies) (w v : World x)
      → limit_ip x ip w ≡ (ok tt, v)
      → x.users.find_one (Users.has_email address) v.users ≡ some u
      → Users.provider_eq u.auth_provider AuthProvider.email ≡ true
      → Shut v
      → (login x address password ip cookies w).0 ≡ err account_locked
  unfolding login Users.find_by_email assert_email_provider
  login-Shut address password ip cookies w v e found provider shut =
      ground (arith, check_password-Shut password v shut)

  limit_ip-Shut :
      (ip : String) (until : ℕ) (w : World x)
      → AccountLocked x u until w
      → w.now < until
      → Shut (limit_ip x ip w).1
  unfolding limit_ip Redis.increment Redis.incr Redis.expire
  limit_ip-Shut ip until w (up, e) early = (
    ground arith,
    x.redis.get_text (limit_ip x ip w).1.redis (limit_ip x ip w).1.now (lock_key u.email) "1"
        (some until)
        (ground (
          arith,
          ip-ne-lock ip,
          x.redis.entry-incr w.redis w.now (key "ip_rate:" ip) (lock_key u.email),
          x.redis.entry-expire (x.redis.incr w.redis w.now (key "ip_rate:" ip)).1 w.now
              (key "ip_rate:" ip) 900 (lock_key u.email),
        )),
  )

  pub users-limit_ip : (ip : String) (w : World x) → (limit_ip x ip w).1.users ≡ w.users
  unfolding limit_ip Redis.increment Redis.incr Redis.expire
  users-limit_ip ip w = ground arith

  login-thrown :
      (address password ip : String) (cookies : Cookies) (w : World x) (e : Exception)
      → (limit_ip x ip w).0 ≡ err e
      → (login x address password ip cookies w).0 ≡ err e
  unfolding login
  login-thrown address password ip cookies w e h = ground arith

  module _ (address password ip : String) (cookies : Cookies)
      (provider : Users.provider_eq u.auth_provider AuthProvider.email ≡ true) where
    after_limit :
        (r : Result (Unit {0})) (w : World x)
        → (limit_ip x ip w).0 ≡ r
        → x.users.find_one (Users.has_email address) (limit_ip x ip w).1.users ≡ some u
        → Shut (limit_ip x ip w).1
        → (login x address password ip cookies w).0
          ≡ (continue r (λ _. throw account_locked) (limit_ip x ip w).1).0
    after_limit (ok tt) w e found shut =
        login-Shut address password ip cookies w (limit_ip x ip w).1
          (ap (λ r. (r, (limit_ip x ip w).1)) e) found provider shut
    after_limit (err h) w e found shut = login-thrown address password ip cookies w h e

    login-Locked :
        (until : ℕ) (w : World x)
        → x.users.find_one (Users.has_email address) w.users ≡ some u
        → AccountLocked x u until w
        → w.now < until
        → (login x address password ip cookies w).0 ≡ ((limit_ip x ip >> throw account_locked) w).0
    login-Locked until w found locked early =
        after_limit (limit_ip x ip w).0 w refl (rw (users-limit_ip ip w) found)
          (limit_ip-Shut ip until w locked early)

    -- While Redis answers, after five wrong passwords for an account that logs in by password, all
    -- within thirty minutes from the first, at which there was no lock and no count, every login
    -- under its address with any password before thirty minutes from the fifth have passed is
    -- refused: by the limit of its IP address, or else as ACCOUNT_LOCKED.
    pub five_guesses-lock :
        (w : World x) (first_guess fifth : Guess) (three : List Guess) (later : ℕ)
        → w.redis_up ≡ true
        → x.users.find_one (Users.has_email address) w.users ≡ some u
        → live first_guess.time (x.redis.entry w.redis (lock_key u.email)) ≡ none
        → live first_guess.time (x.redis.entry w.redis (attempts_key u.email)) ≡ none
        → length three ≡ 3
        → Between first_guess.time (first_guess.time + 1800000) (fifth ∷ three)
        → AllWrong x u (first_guess ∷ fifth ∷ three)
        → later < fifth.time + 1800000
        → let v = record (guessed x u w first_guess fifth three) { now = later } in
          (login x address password ip cookies v).0 ≡ ((limit_ip x ip >> throw account_locked) v).0
    five_guesses-lock w first_guess fifth three later up found free fresh three_more times wrong
          early =
        let g = guessed x u w first_guess fifth three in
        login-Locked (fifth.time + 1800000) (record g { now = later })
          (rw (users-guessed x u w first_guess fifth three) found)
          (guessed-Locked x u w first_guess fifth three up free fresh three_more times wrong) early

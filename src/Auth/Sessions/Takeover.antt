-- ===== src/Auth/Sessions/Takeover.antt =====
-- The account that a Google login finds unverified (`validateGoogleUser`).
use open_profile_be.Auth.Codes.Spent.{find_one-update, verified}
use open_profile_be.Auth.Sessions.{
  GoogleUser, existing_google_user, take_over, validate_google_user,
}
use open_profile_be.Auth.UserStatusCache.{has_id}
use open_profile_be.Entities.{AuthProvider, User}
use open_profile_be.Exec.{ok}
use open_profile_be.Prelude.{String, arith, false, refl, some, suc, true, ◌≡◌}
use open_profile_be.Services.{Services}
use open_profile_be.World.{World}
use open_profile_be.Users

-- The account after it passed to Google's user.
abbrev pub taken_over : String → User → User
taken_over password_hash u = verified (record u { password = password_hash })

-- Where the address has an account that logs in by password and that nobody verified, Google's
-- user gets it verified, with a random password in place of the one it was registered with.
pub validate_google_user-takeover :
    (x : Services) (g : GoogleUser) (w : World x) (u : User)
    → x.users.find_one (Users.has_email (x.crypto.to_lower g.email)) w.users ≡ some u
    → x.users.find_one (has_id u.id) w.users ≡ some u
    → Users.provider_eq u.auth_provider AuthProvider.email ≡ true
    → u.is_verified ≡ false
    → let hash = x.crypto.argon2_hash (suc w.drawn) (x.crypto.random_hex w.drawn) in
      ((validate_google_user x g w).0
        ≡ ok (record { account = taken_over hash u; is_new_user = false }))
      × (x.users.find_one (has_id u.id) (validate_google_user x g w).1.users
          ≡ some (taken_over hash u))
unfolding validate_google_user Users.find_by_email existing_google_user take_over
    Users.update_password Users.hash_password Users.update_row Users.clear_otp Users.find_one
validate_google_user-takeover x g w u found own by_email unverified =
    let hash = x.crypto.argon2_hash (suc w.drawn) (x.crypto.random_hex w.drawn) in
    let f : User → User = λ v. record v { password = hash } in
    let one = find_one-update x (has_id u.id) f w.users u (λ v. refl) own in
    let two =
      find_one-update x (has_id u.id) verified (x.users.update (has_id u.id) f w.users) (f u)
        (λ v. refl) one in
    ground (arith, two)

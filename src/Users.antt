-- ===== src/Users.antt =====
-- UsersService (modules/users/users.service.ts) over the model of modules/users/actions.
pub mod StaleAccounts
pub mod EmailChange
use open_profile_be.Accounts.{
  NewUser, UpdateUser, UserSettings, merged, or_keep, or_keep_role, with_defaults,
}
use open_profile_be.Auth.UserStatusCache.{has_id}
use open_profile_be.Entities.{AuthProvider, User, UserPreferences, UserRole, active, email, google}
use open_profile_be.Exec.{
  Exception, catch, gets, http, infrastructure, modify, ok, pure, refresh_in_progress, require,
  throw, throw_if, ◌>>=◌, ◌>>◌,
}
use open_profile_be.Prelude.{
  Bool, Option, String, false, if◌then◌else◌, is_some, none, not, some, suc, true, truthy, ℕ, ◌==◌,
}
use open_profile_be.Services.{Services}
use open_profile_be.World.{App, World, draw, stored}

abbrev pub has_email : String → User → Bool
has_email address u = u.email == address

abbrev pub provider_eq : AuthProvider → AuthProvider → Bool
provider_eq AuthProvider.email AuthProvider.email = true
provider_eq google google = true
provider_eq _ _ = false

abbrev pub email_already_exists : Exception
email_already_exists = http 409 "EMAIL_ALREADY_EXISTS"

module _ (x : Services) where
  abbrev pub put_users : World x → x.users.Table → World x
  put_users w t = record w { users = t }

  unfoldable pub find_by_email : String → App x (Option User)
  find_by_email address = gets λ w. x.users.find_one (has_email address) w.users

  unfoldable pub find_one : String → App x User
  find_one id = do
    found ← gets (λ w. x.users.find_one (has_id id) w.users)
    require found (http 404 "User not found")

  -- An update of one account: the row as it is afterwards.
  unfoldable pub update_row : String → (User → User) → App x (Option User)
  update_row id f w =
      let t = x.users.update (has_id id) f w.users in
      (ok (x.users.find_one (has_id id) t), record w { users = t })

  -- The same where the change may break a unique index.
  unfoldable pub update_row_unique : String → (User → User) → App x (Option User)
  update_row_unique id f = do
    t ← gets (λ w. x.users.update_unique (has_id id) f w.users)
    stored x put_users t
    gets (λ v. x.users.find_one (has_id id) v.users)

  abbrev pub user_row : NewUser → World x → User
  user_row n w = record {
    id = x.crypto.uuid w.drawn;
    email = n.email;
    password = n.password;
    full_name = n.full_name;
    username = none;
    bio = none;
    photo_url = none;
    is_published = false;
    role = n.role;
    status = active;
    auth_provider = n.auth_provider;
    is_verified = n.is_verified;
    onboarding_complete = n.onboarding_complete;
    preferences = record { mode = none; color_theme = none };
    otp_hash = none;
    otp_expires_at = none;
    last_login_ip = none;
    created_at = w.now;
  }

  unfoldable pub create_row : NewUser → App x User
  create_row n w =
      (stored x put_users (x.users.insert (user_row n w) w.users) >>= λ _. pure (user_row n w))
        (record w { drawn = suc w.drawn })

  -- `argon2.hash`, under a fresh salt
  unfoldable pub hash_password : String → App x String
  hash_password plain = do salt ← draw x; pure (x.crypto.argon2_hash salt plain)

  unfoldable pub create : String → String → Option UserRole → App x User
  unfolding find_by_email create_row hash_password
  create address password role = do
    existing ← find_by_email address
    throw_if (is_some existing) (http 409 "Email already in use")
    password_hash ← hash_password password
    create_row (record {
      email = address;
      password = password_hash;
      full_name = none;
      role = role;
      auth_provider = AuthProvider.email;
      is_verified = false;
      onboarding_complete = false;
    })

  abbrev pub hash_given : Option String → App x (Option String)
  hash_given none = pure none
  hash_given (some password) = hash_password password >>= λ h. pure (some h)

  unfoldable pub update : String → UpdateUser → App x User
  unfolding find_one hash_password update_row_unique
  update id dto = do
    find_one id
    password_hash ← hash_given (truthy dto.password)
    updated ← update_row_unique id (λ u. record u {
      email = or_keep dto.email u.email;
      password = or_keep password_hash (or_keep dto.password u.password);
      role = or_keep_role dto.role u.role;
    })
    require updated (http 500 "Failed to update user")

  unfoldable pub remove : String → App x (Unit {0})
  unfolding find_one
  remove id = do
    find_one id
    modify (λ w. record w { users = (x.users.delete (has_id id) w.users).1 })

  unfoldable pub mark_onboarding_complete : String → App x User
  unfolding find_one update_row
  mark_onboarding_complete id = do
    find_one id
    updated ← update_row id (λ u. record u { onboarding_complete = true })
    require updated (http 500 "Failed to mark onboarding complete")

  unfoldable pub update_password : String → String → App x (Unit {0})
  unfolding hash_password update_row
  update_password id new_password = do
    password_hash ← hash_password new_password
    update_row id (λ u. record u { password = password_hash })
    pure tt

  unfoldable pub update_last_login_ip : String → String → App x (Unit {0})
  unfolding update_row
  update_last_login_ip id ip = do update_row id (λ u. record u { last_login_ip = some ip }); pure tt

  -- An account that registered before and did not verify its address registers again in place.
  unfoldable pub reregister : User → String → App x User
  unfolding hash_password update_row
  reregister existing password = do
    throw_if existing.is_verified email_already_exists
    password_hash ← hash_password password
    updated ←
        update_row existing.id
          (λ u. record u { password = password_hash; otp_hash = none; otp_expires_at = none })
    require updated (http 500 "Failed to update user")

  unfoldable pub register_new : String → String → App x User
  unfolding hash_password create_row
  register_new address password = do
    password_hash ← hash_password password
    create_row (record {
      email = address;
      password = password_hash;
      full_name = none;
      role = none;
      auth_provider = AuthProvider.email;
      is_verified = false;
      onboarding_complete = false;
    })

  abbrev pub register_over : String → String → Option User → App x User
  register_over address password none = register_new address password
  register_over address password (some existing) = reregister existing password

  unfoldable pub create_email_user : String → String → App x User
  unfolding find_by_email reregister register_new
  create_email_user address password = do
    existing ← find_by_email (x.crypto.to_lower address)
    register_over (x.crypto.to_lower address) password existing

  unfoldable pub store_otp_hash : String → String → ℕ → App x (Unit {0})
  unfolding update_row
  store_otp_hash id otp_hash expires_at = do
    update_row id (λ u. record u { otp_hash = some otp_hash; otp_expires_at = some expires_at })
    pure tt

  unfoldable pub clear_otp : String → App x (Unit {0})
  unfolding update_row
  clear_otp id = do
    update_row id (λ u. record u { otp_hash = none; otp_expires_at = none; is_verified = true })
    pure tt

  unfoldable pub clear_otp_only : String → App x (Unit {0})
  unfolding update_row
  clear_otp_only id = do
    update_row id (λ u. record u { otp_hash = none; otp_expires_at = none })
    pure tt

  unfoldable pub create_google_user : String → String → App x User
  unfolding hash_password create_row
  create_google_user address full_name = do
    random ← draw x
    password_hash ← hash_password (x.crypto.random_hex random)
    create_row (record {
      email = address;
      password = password_hash;
      full_name = some full_name;
      role = none;
      auth_provider = google;
      is_verified = true;
      onboarding_complete = false;
    })

  unfoldable pub get_settings : String → App x UserSettings
  unfolding find_one
  get_settings id = do
    u ← find_one id
    pure (record {
      email = u.email;
      username = u.username;
      full_name = u.full_name;
      is_verified = u.is_verified;
      auth_provider = u.auth_provider;
      onboarding_complete = u.onboarding_complete;
    })

  unfoldable pub get_preferences : String → App x UserPreferences
  unfolding find_one
  get_preferences id = do u ← find_one id; pure (with_defaults u.preferences)

  -- The row is read again under the lock of the transaction.
  unfoldable pub update_preferences : String → UserPreferences → App x UserPreferences
  unfolding find_one update_row
  update_preferences id dto = do
    find_one id
    found ← gets (λ w. x.users.find_one (has_id id) w.users)
    locked ← require found (http 500 "Failed to update preferences")
    update_row id (λ u. record u { preferences = merged dto locked.preferences })
    pure (with_defaults (merged dto locked.preferences))

  abbrev pub email_of : Option User → App x String
  email_of none = throw (http 500 "Failed to update email")
  email_of (some u) = pure u.email

  -- A broken unique index is a conflict; any other error goes on.
  abbrev pub unique_to_conflict : Exception → App x (Option User)
  unique_to_conflict (infrastructure code) =
      if code == "23505" then throw email_already_exists else throw (infrastructure code)
  unique_to_conflict (http status code) = throw (http status code)
  unique_to_conflict refresh_in_progress = throw refresh_in_progress

  unfoldable pub change_email : String → String → App x String
  unfolding find_by_email update_row_unique
  change_email id address = do
    existing ← find_by_email address
    throw_if (is_some existing) email_already_exists
    updated ← catch (update_row_unique id (λ u. record u { email = address })) unique_to_conflict
    email_of updated

  unfoldable pub update_email : String → String → App x String
  unfolding find_one change_email
  update_email id address = do
    u ← find_one id
    throw_if (not (provider_eq u.auth_provider AuthProvider.email))
        (http 403 "EMAIL_MANAGED_BY_PROVIDER")
    (if u.email == address then pure u.email else change_email id address)

-- ===== src/Auth/Recovery/SignedOut.antt =====
-- What a new password does to the account and its sessions.
use open_profile_be.Auth.Codes.{assert_email_provider}
use open_profile_be.Auth.Codes.Spent.{find_one-update}
use open_profile_be.Auth.Recovery.{change_password, replace_password, reset_password}
use open_profile_be.Auth.Tokens.{delete_tokens, invalidate_all_refresh_tokens, of_user}
use open_profile_be.Auth.UserStatusCache.{has_id}
use open_profile_be.Entities.{AuthProvider, User}
use open_profile_be.Exec.{Exception, Returned, http, ok, require, throw_if, ◌>>=◌, ◌>>◌}
use open_profile_be.Prelude.{
  Bool, Option, String, ap, arith, eq_iff, false, first, first-passes, first-reject_self, none, not,
  refl, some, subst, sym, true, ◌==◌, ◌∙◌, ◌≡◌,
}
use open_profile_be.Queue.{add_job}
use open_profile_be.Services.{Services}
use open_profile_be.Services.Security.{ResetPayload}
use open_profile_be.World.{App, World, now_seconds}
use open_profile_be.Users

module _ (x : Services) where
  abbrev pub accepts : String → Option User → Bool
  accepts password none = false
  accepts password (some u) = x.crypto.argon2_verify u.password password

  -- The account exists and has the password, and it has no session.
  abbrev pub Replaced : String → String → World x → Type 0
  Replaced id password w =
      (x.refresh_tokens.find_one (of_user id) w.refresh_tokens ≡ none)
      × (accepts password (x.users.find_one (has_id id) w.users) ≡ true)

  update_password-accepts :
      (password : String) (w : World x) (u : User)
      → x.users.find_one (has_id u.id) w.users ≡ some u
      → accepts password
          (x.users.find_one (has_id u.id) (Users.update_password x u.id password w).1.users)
        ≡ true
  unfolding Users.update_password Users.update_row Users.hash_password
  update_password-accepts password w u e =
      let f : User → User = λ v. record v { password = x.crypto.argon2_hash w.drawn password } in
      rw (find_one-update x (has_id u.id) f w.users u (λ v. refl) e)
        (x.crypto.verify-hash w.drawn password)

  replace_password-ok :
      (u : User) (password : String) (w : World x) → (replace_password x u password w).0 ≡ ok tt
  unfolding replace_password Users.update_password Users.update_row Users.hash_password
      invalidate_all_refresh_tokens add_job
  replace_password-ok u password w = ground arith

  users-replace_password :
      (u : User) (password : String) (w : World x)
      → (replace_password x u password w).1.users
        ≡ (Users.update_password x u.id password w).1.users
  unfolding replace_password Users.update_password Users.update_row Users.hash_password
      invalidate_all_refresh_tokens delete_tokens add_job
  users-replace_password u password w = ground arith

  refresh_tokens-replace_password :
      (u : User) (password : String) (w : World x)
      → (u.id == "") ≡ false
      → (replace_password x u password w).1.refresh_tokens
        ≡ (x.refresh_tokens.delete (of_user u.id) w.refresh_tokens).1
  unfolding replace_password Users.update_password Users.update_row Users.hash_password
      invalidate_all_refresh_tokens delete_tokens add_job
  refresh_tokens-replace_password u password w named = ground arith

  replace_password-Replaced :
      (u : User) (password : String) (w : World x)
      → (u.id == "") ≡ false
      → x.users.find_one (has_id u.id) w.users ≡ some u
      → Replaced u.id password (replace_password x u password w).1
  replace_password-Replaced u password w named found = (
    rw (refresh_tokens-replace_password u password w named) (
        x.refresh_tokens.find_one_lem (of_user u.id)
          (x.refresh_tokens.delete (of_user u.id) w.refresh_tokens).1
        ∙ ap (first (of_user u.id)) (x.refresh_tokens.rows-delete (of_user u.id) w.refresh_tokens)
        ∙ first-reject_self (of_user u.id) (x.refresh_tokens.rows w.refresh_tokens)),
    rw (users-replace_password u password w) (update_password-accepts password w u found),
  )

  -- The row that is found by an id has that id.
  found_id :
      (id : String) (w : World x) (u : User)
      → x.users.find_one (has_id id) w.users ≡ some u
      → u.id ≡ id
  found_id id w u e = ground (
    arith,
    eq_iff u.id id,
    first-passes (has_id id) (x.users.rows w.users) u
        (sym (x.users.find_one_lem (has_id id) w.users) ∙ e),
  )

  replace_found-Replaced :
      (id password : String) (w : World x) (u : User)
      → (id == "") ≡ false
      → x.users.find_one (has_id id) w.users ≡ some u
      → Replaced id password (replace_password x u password w).1
  replace_found-Replaced id password w u named found =
      let same : u.id ≡ id = found_id id w u found in
      subst (λ i. Replaced i password (replace_password x u password w).1) same
        (replace_password-Replaced u password w (rw same named)
          (ap (λ i. x.users.find_one (has_id i) w.users) same ∙ found))

  reset_password-replace :
      (reset_token password : String) (w : World x) (p : ResetPayload) (u : User)
      → x.crypto.verify_reset (now_seconds x w) reset_token ≡ some p
      → p.purpose ≡ "password_reset"
      → x.users.find_one (has_id p.sub) w.users ≡ some u
      → reset_password x reset_token password w ≡ replace_password x u password w
  unfolding reset_password Users.find_one
  reset_password-replace reset_token password w p u good purpose found =
      ground (arith, eq_iff p.purpose "password_reset")

  guards_passed :
      (a b c : Bool) (d e f : Exception) (m : App x (Unit {0})) (w : World x)
      → Returned ((do throw_if (not a) d; throw_if (not b) e; throw_if c f; m) w).0
      → (b ≡ true) × ((do throw_if (not a) d; throw_if (not b) e; throw_if c f; m) w ≡ m w)
  guards_passed false b c d e f m w r = absurd r
  guards_passed true false c d e f m w r = absurd r
  guards_passed true true true d e f m w r = absurd r
  guards_passed true true false d e f m w r = (refl, refl)

  -- `changePassword` with its account at hand.
  abbrev change : User → String → String → App x (Unit {0})
  change u current password = do
    throw_if (not (Users.provider_eq u.auth_provider AuthProvider.email))
        (http 400 "WRONG_PROVIDER")
    throw_if (not (x.crypto.argon2_verify u.password current))
        (http 400 "CURRENT_PASSWORD_INCORRECT")
    throw_if (password == current) (http 400 "PASSWORD_UNCHANGED")
    replace_password x u password

  change_password-change :
      (id current password : String) (w : World x)
      → change_password x id current password w
        ≡ (require (x.users.find_one (has_id id) w.users) (http 404 "User not found") >>= λ u.
              change u current password)
            w
  unfolding change_password Users.find_one assert_email_provider
  change_password-change id current password w = refl

  change_found :
      (current password : String) (o : Option User) (w : World x)
      → let m = require o (http 404 "User not found") >>= λ u. change u current password in
        Returned (m w).0
        → (u : User) × (o ≡ some u)
          × (x.crypto.argon2_verify u.password current ≡ true)
          × (m w ≡ replace_password x u password w)
  change_found current password none w r = absurd r
  change_found current password (some u) w r =
      let (right, same) =
        guards_passed (Users.provider_eq u.auth_provider AuthProvider.email)
          (x.crypto.argon2_verify u.password current) (password == current)
          (http 400 "WRONG_PROVIDER") (http 400 "CURRENT_PASSWORD_INCORRECT")
          (http 400 "PASSWORD_UNCHANGED") (replace_password x u password) w r in
      (u, refl, right, same)

  -- A reset with a token that verifies, is for a reset of a password and names an account that
  -- exists goes through, where ids are not empty; the account then has the new password and no
  -- session.
  pub reset_password-Replaced :
      (reset_token password : String) (w : World x) (p : ResetPayload) (u : User)
      → x.crypto.verify_reset (now_seconds x w) reset_token ≡ some p
      → p.purpose ≡ "password_reset"
      → x.users.find_one (has_id p.sub) w.users ≡ some u
      → (p.sub == "") ≡ false
      → ((reset_password x reset_token password w).0 ≡ ok tt)
        × Replaced p.sub password (reset_password x reset_token password w).1
  reset_password-Replaced reset_token password w p u good purpose found named =
      rw (reset_password-replace reset_token password w p u good purpose found)
        (replace_password-ok u password w, replace_found-Replaced p.sub password w u named found)

  -- A change of password that returns, for an id that is not empty, leaves the account with the
  -- new password and no session, and the current password that came with it was the account's.
  pub change_password-Replaced :
      (id current password : String) (w : World x)
      → (id == "") ≡ false
      → Returned (change_password x id current password w).0
      → Replaced id password (change_password x id current password w).1
        × (accepts current (x.users.find_one (has_id id) w.users) ≡ true)
  change_password-Replaced id current password w named returned =
      let (u, found, right, same) =
        change_found current password (x.users.find_one (has_id id) w.users) w
          (subst (λ r. Returned r.0) (change_password-change id current password w) returned) in
      (
        subst (λ v. Replaced id password v.1)
            (sym (change_password-change id current password w ∙ same))
            (replace_found-Replaced id password w u named found),
        ap (accepts current) found ∙ right,
      )

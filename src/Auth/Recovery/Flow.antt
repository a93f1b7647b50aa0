-- ===== src/Auth/Recovery/Flow.antt =====
-- The two steps of a recovery, one after the other.
use open_profile_be.Auth.Codes.{check_otp}
use open_profile_be.Auth.Codes.Spent.{find_one-update, verified}
use open_profile_be.Auth.Recovery.{reset_attempts_key, reset_password, verify_reset_otp, with_code}
use open_profile_be.Auth.Recovery.Once.{
  by_email, found-Returned, token_for, users-with_found, verify_reset_otp-found, with_code-some,
  with_found,
}
use open_profile_be.Auth.Recovery.SignedOut.{Replaced, reset_password-Replaced}
use open_profile_be.Auth.UserStatusCache.{has_id}
use open_profile_be.Entities.{User}
use open_profile_be.Exec.{Result, Returned, continue, err, ok}
use open_profile_be.Prelude.{
  String, ap, arith, false, refl, some, subst, sym, ◌+◌, ◌<◌, ◌==◌, ◌∙◌, ◌≡◌,
}
use open_profile_be.Services.{Services}
use open_profile_be.Services.Security.{ResetPayload}
use open_profile_be.World.{World, now_seconds}
use open_profile_be.Users

module _ (x : Services) (address otp token : String) (w : World x) where
  answer-then :
      (u : User) (r : Result (Unit {0})) (v : World x)
      → (continue r (λ _. token_for x address u) v).0 ≡ ok token
      → token
        ≡ x.crypto.sign_reset
            (now_seconds x (continue r (λ _. token_for x address u) v).1 + 600)
            (record { sub = u.id; purpose = "password_reset" })
  answer-then u (ok _) v e = ground arith
  answer-then u (err h) v e = absurd (ground arith)

  abbrev after_code : World x
  after_code = (verify_reset_otp x address otp w).1

  -- What an accepted code has done: the users afterwards, and the token.
  accepted :
      (u : User)
      → (verify_reset_otp x address otp w).0 ≡ ok token
      → x.users.find_one (Users.has_email (x.crypto.to_lower address)) w.users ≡ some u
      → (after_code.users ≡ x.users.update (has_id u.id) verified w.users)
        × (token
            ≡ x.crypto.sign_reset
                (now_seconds x after_code + 600)
                (record { sub = u.id; purpose = "password_reset" }))
  accepted u e found =
      let whole = verify_reset_otp-found x address otp w in
      let o = with_code x (x.users.find_one (by_email x address) w.users) in
      let (v, code, there) =
        found-Returned x address otp o w
          (subst (λ m. Returned m.0) whole (subst Returned (sym e) tt)) in
      let found_v =
        with_code-some x address (x.users.find_one (by_email x address) w.users) v code there in
      let same : v ≡ u = ground arith in
      let exact : verify_reset_otp x address otp w ≡ with_found x address otp (some (v, code)) w =
        whole ∙ ap (λ c. with_found x address otp c w) there in
      let checked = check_otp x (reset_attempts_key (x.crypto.to_lower address)) v.id code otp w in
      subst
        (λ a.
          (after_code.users ≡ x.users.update (has_id a.id) verified w.users)
          × (token
              ≡ x.crypto.sign_reset (now_seconds x after_code + 600)
                  (record { sub = a.id; purpose = "password_reset" })))
        same
        (subst
          (λ m.
            (m.1.users ≡ x.users.update (has_id v.id) verified w.users)
            × (token
                ≡ x.crypto.sign_reset (now_seconds x m.1 + 600)
                    (record { sub = v.id; purpose = "password_reset" })))
          (sym exact)
          (
            users-with_found x address otp v code w
                (subst (λ m. Returned m.0) exact (subst Returned (sym e) tt)),
            answer-then v checked.0 checked.1 (ap (λ m. m.0) (sym exact) ∙ e),
          ))

  -- A code that is accepted for the account of an address, which its id, not an empty text, finds too, gives a token
  -- with which, for ten minutes and while the users stay as they are, the account's password can
  -- be replaced by any other; the account then has the new password and no session.
  pub reset_flow :
      (u : User) (password : String) (v : World x)
      → (verify_reset_otp x address otp w).0 ≡ ok token
      → x.users.find_one (Users.has_email (x.crypto.to_lower address)) w.users ≡ some u
      → x.users.find_one (has_id u.id) w.users ≡ some u
      → (u.id == "") ≡ false
      → v.users ≡ after_code.users
      → now_seconds x v < now_seconds x after_code + 600
      → ((reset_password x token password v).0 ≡ ok tt)
        × Replaced x u.id password (reset_password x token password v).1
  reset_flow u password v e found own named same in_time =
      let (users, is_token) = accepted u e found in
      let payload : ResetPayload = record { sub = u.id; purpose = "password_reset" } in
      let there : x.users.find_one (has_id u.id) v.users ≡ some (verified u) =
        rw (same ∙ users) (find_one-update x (has_id u.id) verified w.users u (λ a. refl) own) in
      let good : x.crypto.verify_reset (now_seconds x v) token ≡ some payload = rw is_token (
        x.crypto.verify-sign_reset (now_seconds x v) (now_seconds x after_code + 600) payload
          in_time) in
      reset_password-Replaced x token password v payload (verified u) good refl there named

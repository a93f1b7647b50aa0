-- ===== src/Auth/Recovery/Once.antt =====
-- A code of `forgotPassword` resets one password once.
use open_profile_be.Auth.Codes.{StoredOtp, check_otp, otp_invalid, stored_otp}
use open_profile_be.Auth.Codes.Spent.{
  check_otp-Returned, find_one-update, first-Returned, verified, world-then,
}
use open_profile_be.Auth.Recovery.{reset_attempts_key, verify_reset_otp, with_code}
use open_profile_be.Auth.UserStatusCache.{has_id}
use open_profile_be.Entities.{User}
use open_profile_be.Exec.{Returned, err, gets, pure, require, ◌>>=◌, ◌>>◌}
use open_profile_be.Prelude.{
  Bool, Option, Option-cases, String, ap, arith, inl, inr, none, refl, some, subst, ◌+◌, ◌∙◌, ◌≡◌,
}
use open_profile_be.Services.{Services}
use open_profile_be.World.{App, World, now_seconds}
use open_profile_be.Users

module _ (x : Services) (address : String) where
  abbrev pub by_email : User → Bool
  by_email = Users.has_email (x.crypto.to_lower address)

  abbrev pub token_for : User → App x String
  token_for u = do
    now ← gets (now_seconds x)
    pure (x.crypto.sign_reset (now + 600) (record { sub = u.id; purpose = "password_reset" }))

  -- The rest of `verifyResetOtp`, from what was found on.
  abbrev pub with_found : String → Option (User × StoredOtp) → App x String
  with_found otp o = do
    waiting ← require o otp_invalid
    check_otp x (reset_attempts_key (x.crypto.to_lower address)) waiting.0.id waiting.1 otp
    token_for waiting.0

  pub verify_reset_otp-found :
      (otp : String) (w : World x)
      → verify_reset_otp x address otp w
        ≡ with_found otp (with_code x (x.users.find_one by_email w.users)) w
  unfolding verify_reset_otp Users.find_by_email
  verify_reset_otp-found otp w = refl

  pub users-with_found :
      (otp : String) (u : User) (code : StoredOtp) (w : World x)
      → Returned (with_found otp (some (u, code)) w).0
      → (with_found otp (some (u, code)) w).1.users ≡ x.users.update (has_id u.id) verified w.users
  users-with_found otp u code w h =
      let k = reset_attempts_key (x.crypto.to_lower address) in
      let checked = check_otp x k u.id code otp w in
      let rest = token_for u in
      let returned = first-Returned x checked.0 (λ _. rest) checked.1 h in
      ap (λ v. v.users) (world-then x checked.0 rest checked.1 returned)
      ∙ (check_otp-Returned x k u.id code otp w returned).1

  pub with_code-some :
      (o : Option User) (u : User) (code : StoredOtp) → with_code x o ≡ some (u, code) → o ≡ some u
  with_code-some none u code e = cc
  with_code-some (some v) u code e = elim (Option-cases (stored_otp v)) [
    | inl missing ↦ absurd (ground arith)
    | inr (c, present) ↦ ground arith
  ]

  pub found-Returned :
      (otp : String) (o : Option (User × StoredOtp)) (w : World x)
      → Returned (with_found otp o w).0
      → (u : User) × (code : StoredOtp) × (o ≡ some (u, code))
  found-Returned otp none w h = absurd h
  found-Returned otp (some (u, code)) w h = (u, code, refl)

  -- The row has no code once it is verified.
  without_code :
      (u : User) (t : x.users.Table)
      → x.users.find_one by_email t ≡ some (verified u)
      → with_code x (x.users.find_one by_email t) ≡ none
  unfolding stored_otp
  without_code u t e = ap (with_code x) e

  -- Once a code is accepted, no code is accepted for the address in a world with the same users,
  -- until a new one is stored.
  pub verify_reset_otp-once :
      (otp again : String) (w v : World x)
      → Returned (verify_reset_otp x address otp w).0
      → v.users ≡ (verify_reset_otp x address otp w).1.users
      → (verify_reset_otp x address again v).0 ≡ err otp_invalid
  verify_reset_otp-once otp again w v h same =
      let o = with_code x (x.users.find_one by_email w.users) in
      let (u, code, e) =
        found-Returned otp o w (subst (λ m. Returned m.0) (verify_reset_otp-found otp w) h) in
      let changed : v.users ≡ x.users.update (has_id u.id) verified w.users =
        same
        ∙ ap (λ m. m.1.users) (verify_reset_otp-found otp w)
        ∙ ap (λ c. (with_found otp c w).1.users) e
        ∙ users-with_found otp u code w (
            subst (λ c. Returned (with_found otp c w).0) e
              (subst (λ m. Returned m.0) (verify_reset_otp-found otp w) h)) in
      let found : x.users.find_one by_email v.users ≡ some (verified u) = rw changed (
        find_one-update x by_email verified w.users u (λ a. refl)
          (with_code-some (x.users.find_one by_email w.users) u code e)) in
      ap (λ m. m.0) (verify_reset_otp-found again v)
      ∙ ap (λ c. (with_found again c v).0) (without_code u v.users found)

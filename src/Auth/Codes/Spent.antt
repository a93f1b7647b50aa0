-- ===== src/Auth/Codes/Spent.antt =====
-- A code is used once.
use open_profile_be.Auth.Codes.{
  StoredOtp, check_otp, check_valid, count_wrong_code, otp_expired, otp_invalid,
}
use open_profile_be.Auth.UserStatusCache.{has_id}
use open_profile_be.Entities.{User}
use open_profile_be.Exec.{Exception, Result, Returned, continue, err, ok, throw, throw_if, ◌>>◌}
use open_profile_be.Prelude.{
  Bool, Bool-cases, List, String, [], ap, arith, eq_refl, false, first, inl, inr, ltb, map_where,
  none, refl, some, sym, true, ◌∙◌, ◌∷◌, ◌≡◌,
}
use open_profile_be.Services.{Services}
use open_profile_be.World.{App, World}
use open_profile_be.Redis
use open_profile_be.Users

-- The row that an update leaves where it changed the row that was found.
pub first-update_found :
    (p : User → Bool) (f : User → User) (rows : List User) (u : User)
    → ((v : User) → p (f v) ≡ p v)
    → first p rows ≡ some u
    → first p (map_where (has_id u.id) f rows) ≡ some (f u)
first-update_found p f [] u keeps e = cc
first-update_found p f (v ∷ rows) u keeps e = elim (Bool-cases (p v)) [
  | inl passes ↦ ground (arith, keeps v, eq_refl u.id)
  | inr fails ↦ ground (arith, keeps v, first-update_found p f rows u keeps)
]

abbrev pub verified : User → User
verified u = record u { otp_hash = none; otp_expires_at = none; is_verified = true }

module _ (x : Services) where
  pub find_one-update :
      (p : User → Bool) (f : User → User) (t : x.users.Table) (u : User)
      → ((v : User) → p (f v) ≡ p v)
      → x.users.find_one p t ≡ some u
      → x.users.find_one p (x.users.update (has_id u.id) f t) ≡ some (f u)
  find_one-update p f t u keeps e =
      x.users.find_one_lem p (x.users.update (has_id u.id) f t)
      ∙ ap (first p) (x.users.rows-update (has_id u.id) f t)
      ∙ first-update_found p f (x.users.rows t) u keeps (sym (x.users.find_one_lem p t) ∙ e)

  pub first-Returned :
      {A B : Type 0} (r : Result A) (f : A → App x B) (w : World x)
      → Returned (continue r f w).0
      → Returned r
  first-Returned (ok a) f w h = tt
  first-Returned (err e) f w h = h

  pub world-then :
      {A : Type 0} (r : Result (Unit {0})) (m : App x A) (w : World x)
      → Returned r
      → (continue r (λ _. m) w).1 ≡ (m w).1
  world-then (ok tt) m w h = refl
  world-then (err e) m w h = absurd h

  pub never-Returned :
      {A : Type 0} (r : Result A) (e : Exception) (w : World x)
      → ¬ Returned (continue r (λ _. throw {A = Unit {0}} e) w).0
  never-Returned (ok a) e w h = h
  never-Returned (err d) e w h = h

  check_valid-throws : (k id : String) (w : World x) → ¬ Returned (check_valid x false k id w).0
  unfolding check_valid
  check_valid-throws k id w =
      never-Returned (count_wrong_code x k id w).0 otp_invalid (count_wrong_code x k id w).1

  abbrev use_up : String → String → App x (Unit {0})
  use_up k id = Redis.del x k >> Users.clear_otp x id

  users-use_up :
      (k id : String) (w : World x)
      → Returned (use_up k id w).0
      → (use_up k id w).1.users ≡ x.users.update (has_id id) verified w.users
  unfolding Redis.del Users.clear_otp Users.update_row
  users-use_up k id w h = elim (Bool-cases w.redis_up) [
    | inl up ↦ ground arith
    | inr down ↦ ground arith
  ]

  checks_passed :
      (late valid : Bool) (k id : String) (w : World x)
      → let m = throw_if late otp_expired >> (check_valid x valid k id >> use_up k id) in
        Returned (m w).0
        → (valid ≡ true) × ((m w).1.users ≡ x.users.update (has_id id) verified w.users)
  unfolding check_valid
  checks_passed true valid k id w h = absurd h
  checks_passed false false k id w h = absurd (
      check_valid-throws k id w (
        first-Returned (check_valid x false k id w).0 (λ _. use_up k id)
          (check_valid x false k id w).1 h))
  checks_passed false true k id w h = (refl, users-use_up k id w h)

  -- A check that returns was of the right code, and it has used the code up.
  pub check_otp-Returned :
      (k id : String) (code : StoredOtp) (otp : String) (w : World x)
      → Returned (check_otp x k id code otp w).0
      → (x.crypto.argon2_verify code.otp_hash otp ≡ true)
        × ((check_otp x k id code otp w).1.users ≡ x.users.update (has_id id) verified w.users)
  unfolding check_otp
  check_otp-Returned k id code otp w h =
      checks_passed (ltb code.otp_expires_at w.now) (x.crypto.argon2_verify code.otp_hash otp) k id
        w h

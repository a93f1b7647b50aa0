-- ===== src/Auth/Recovery/Silence.antt =====
-- What `forgotPassword` tells of an account.
use open_profile_be.Auth.Codes.{new_otp}
use open_profile_be.Auth.Recovery.{code_for, forgot_password, send_reset_code, too_many_codes}
use open_profile_be.Entities.{User}
use open_profile_be.Exec.{Exception, Result, continue, err, ok, throw_if, ◌>>=◌, ◌>>◌}
use open_profile_be.Exec.Laws.{same_answer}
use open_profile_be.Prelude.{
  Bool, Option, String, ap, arith, false, key, none, not, refl, some, sym, true, ◌∙◌, ◌≡◌,
}
use open_profile_be.Services.{Services}
use open_profile_be.World.{App, World}
use open_profile_be.RateLimiter
use open_profile_be.Redis
use open_profile_be.Users

module _ (x : Services) where
  limited-users :
      (k : String) (t : x.users.Table) (b : Bool) (w : World x)
      → (RateLimiter.is_allowed x k 3 3600 (record w { users = t; mail_up = b })).0
        ≡ (RateLimiter.is_allowed x k 3 3600 w).0
  unfolding RateLimiter.is_allowed Redis.incr Redis.expire
  limited-users k t b w = ground arith

  send_reset_code-ok : (u : User) (w : World x) → (send_reset_code x u w).0 ≡ ok tt
  unfolding send_reset_code new_otp Users.store_otp_hash Users.update_row
  send_reset_code-ok u w = ground arith

  code_for-ok : (o : Option User) (w : World x) → (code_for x o w).0 ≡ ok tt
  code_for-ok none w = refl
  code_for-ok (some u) w = ground (arith, send_reset_code-ok u w)

  abbrev pub limit : String → App x (Unit {0})
  limit address = do
    allowed ← RateLimiter.is_allowed x (key "forgot-password:" (x.crypto.to_lower address)) 3 3600
    throw_if (not allowed) too_many_codes

  guarded :
      (b : Bool) (e : Exception) (m : App x (Unit {0}))
      → ((w : World x) → (m w).0 ≡ ok tt)
      → (w : World x) → ((throw_if b e >> m) w).0 ≡ (throw_if b e w).0
  guarded true e m h w = refl
  guarded false e m h w = h w

  forgot_password-limit :
      (address : String) (w : World x) → (forgot_password x address w).0 ≡ (limit address w).0
  unfolding forgot_password Users.find_by_email
  forgot_password-limit address w =
      let k = key "forgot-password:" (x.crypto.to_lower address) in
      same_answer (RateLimiter.is_allowed x k 3 3600 w).0
        (λ allowed.
          throw_if (not allowed) too_many_codes
          >> (Users.find_by_email x (x.crypto.to_lower address) >>= code_for x))
        (λ allowed. throw_if (not allowed) too_many_codes)
        (λ allowed.
          guarded (not allowed) too_many_codes
            (Users.find_by_email x (x.crypto.to_lower address) >>= code_for x)
            (λ v.
              code_for-ok (x.users.find_one (Users.has_email (x.crypto.to_lower address)) v.users)
                v))
        (RateLimiter.is_allowed x k 3 3600 w).1

  limit_answer : Result Bool → Result (Unit {0})
  limit_answer (ok true) = ok tt
  limit_answer (ok false) = err too_many_codes
  limit_answer (err e) = err e

  limit-answer :
      (r : Result Bool) (w : World x)
      → (continue r (λ allowed. throw_if (not allowed) too_many_codes) w).0 ≡ limit_answer r
  unfolding limit_answer
  limit-answer (ok true) w = refl
  limit-answer (ok false) w = refl
  limit-answer (err e) w = refl

  limit-users :
      (address : String) (t : x.users.Table) (b : Bool) (w : World x)
      → (limit address (record w { users = t; mail_up = b })).0 ≡ (limit address w).0
  limit-users address t b w =
      let k = key "forgot-password:" (x.crypto.to_lower address) in
      let v = record w { users = t; mail_up = b } in
      limit-answer (RateLimiter.is_allowed x k 3 3600 v).0 (RateLimiter.is_allowed x k 3 3600 v).1
      ∙ ap limit_answer (limited-users k t b w)
      ∙ sym (
          limit-answer (RateLimiter.is_allowed x k 3 3600 w).0
            (RateLimiter.is_allowed x k 3 3600 w).1)

  -- The answer to a forgotten password is the same whichever accounts there are, whether the
  -- address is one of them, and whether the mail server works.
  pub forgot_password-silent :
      (address : String) (t : x.users.Table) (mail_up : Bool) (w : World x)
      → (forgot_password x address (record w { users = t; mail_up = mail_up })).0
        ≡ (forgot_password x address w).0
  forgot_password-silent address t b w =
      forgot_password-limit address (record w { users = t; mail_up = b })
      ∙ limit-users address t b w
      ∙ sym (forgot_password-limit address w)

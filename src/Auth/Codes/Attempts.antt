-- ===== src/Auth/Codes/Attempts.antt =====
-- How many wrong codes a stored code stands.
use open_profile_be.Auth.Codes.{StoredOtp, check_otp, check_valid, count_wrong_code, otp_invalid}
use open_profile_be.Auth.UserStatusCache.{has_id}
use open_profile_be.Entities.{User}
use open_profile_be.Exec.{err, ◌>>◌}
use open_profile_be.Prelude.{
  List, String, [], ap, arith, eq_refl, false, length, none, some, subst, suc, true, ℕ, ◌+◌, ◌<◌,
  ◌∙◌, ◌∷◌, ◌≡◌, ◌≤◌,
}
use open_profile_be.Redis.Laws.{entry-increment, increment-reply, peek}
use open_profile_be.Samples.{table}
use open_profile_be.Services.{Services}
use open_profile_be.Services.Redis.{counted, counter, live}
use open_profile_be.World.{World}
use open_profile_be.Redis
use open_profile_be.Users

-- A try of a code.
pub record Try : Type 0 where
  pub time : ℕ
  pub otp : String

abbrev pub without_otp : User → User
without_otp u = record u { otp_hash = none; otp_expires_at = none }

module _ (x : Services) (k id : String) (code : StoredOtp) where
  abbrev pub try_code : Try → World x → World x
  try_code t w = (check_otp x k id code t.otp (record w { now = t.time })).1

  abbrev pub tries : List Try → World x → World x
  tries [] w = w
  tries (t ∷ ts) w = tries ts (try_code t w)

  -- A try of a wrong code while the code stands.
  abbrev pub IsWrong : ℕ → Try → Type 0
  IsWrong from t =
      (from ≤ t.time)
      × (t.time < code.otp_expires_at)
      × (x.crypto.argon2_verify code.otp_hash t.otp ≡ false)

  abbrev after_increment : World x → World x
  after_increment w = (Redis.increment x k 300 w).1

  -- A wrong code that is not the fifth only counts up.
  wrong-fewer :
      (w : World x) (otp : String) (n : ℕ)
      → w.redis_up ≡ true
      → w.now < code.otp_expires_at
      → x.crypto.argon2_verify code.otp_hash otp ≡ false
      → counted (peek x w k) ≡ some n
      → n < 4
      → check_otp x k id code otp w ≡ (err otp_invalid, after_increment w)
  unfolding check_otp check_valid count_wrong_code
  wrong-fewer w otp n up early wrong e h = ground (arith, increment-reply x k 300 w up e)

  wrong-fifth :
      (w : World x) (otp : String)
      → w.redis_up ≡ true
      → w.now < code.otp_expires_at
      → x.crypto.argon2_verify code.otp_hash otp ≡ false
      → counted (peek x w k) ≡ some 4
      → check_otp x k id code otp w
        ≡ (err otp_invalid, ((Users.clear_otp_only x id >> Redis.del x k) (after_increment w)).1)
  unfolding check_otp check_valid count_wrong_code Users.clear_otp_only Users.update_row Redis.del
      Redis.increment Redis.incr Redis.expire
  wrong-fifth w otp up early wrong e =
      ground (arith, increment-reply x k 300 w up e, x.redis.incr_reply w.redis w.now k)

  up-after_increment : (w : World x) → w.redis_up ≡ true → (after_increment w).redis_up ≡ true
  unfolding Redis.increment Redis.incr Redis.expire
  up-after_increment w up = ground arith

  users-after_increment : (w : World x) → (after_increment w).users ≡ w.users
  unfolding Redis.increment Redis.incr Redis.expire
  users-after_increment w = ground arith

  users-fifth :
      (w : World x)
      → w.redis_up ≡ true
      → ((Users.clear_otp_only x id >> Redis.del x k) w).1.users
        ≡ x.users.update (has_id id) without_otp w.users
  unfolding Users.clear_otp_only Users.update_row Redis.del
  users-fifth w up = ground arith

  -- `n` wrong codes are counted until `deadline`, and the users are as they were.
  abbrev Counting : ℕ → ℕ → x.users.Table → World x → Type 0
  Counting n deadline t w =
      (w.redis_up ≡ true)
      × (w.users ≡ t)
      × (x.redis.entry w.redis k ≡ some (record { value = counter n; expires = some deadline }))

  first_wrong-Counting :
      (t : Try) (w : World x)
      → w.redis_up ≡ true
      → IsWrong t.time t
      → live t.time (x.redis.entry w.redis k) ≡ none
      → Counting 1 (t.time + 300000) w.users (try_code t w)
  first_wrong-Counting t w up (from, early, wrong) fresh =
      let v = record w { now = t.time } in
      let seen : counted (peek x v k) ≡ some 0 = rw fresh in
      rw (try_code, wrong-fewer v t.otp 0 up early wrong seen (omega arith))
        (
          up-after_increment v up,
          users-after_increment v,
          ground (arith, entry-increment x k 300 v up seen k, eq_refl k),
        )

  module _ (from : ℕ) (table : x.users.Table) (w : World x) (t : Try)
      (in_window : code.otp_expires_at ≤ from + 300000) (is_wrong : IsWrong from t) where
    next_wrong-Counting :
        (n : ℕ)
        → suc n < 4
        → Counting (suc n) (from + 300000) table w
        → Counting (suc (suc n)) (from + 300000) table (try_code t w)
    next_wrong-Counting n few (up, same, e) =
        let v = record w { now = t.time } in
        let early : t.time < from + 300000 = omega arith in
        let seen : counted (peek x v k) ≡ some (suc n) = ground arith in
        rw (try_code, wrong-fewer v t.otp (suc n) up is_wrong.1 is_wrong.2 seen few)
          (
            up-after_increment v up,
            users-after_increment v ∙ same,
            ground (arith, entry-increment x k 300 v up seen k, eq_refl k),
          )

    fifth_wrong-clears :
        Counting 4 (from + 300000) table w
        → (try_code t w).users ≡ x.users.update (has_id id) without_otp table
    fifth_wrong-clears (up, same, e) =
        let v = record w { now = t.time } in
        let early : t.time < from + 300000 = omega arith in
        let seen : counted (peek x v k) ≡ some 4 = ground arith in
        rw (try_code, wrong-fifth v t.otp up is_wrong.1 is_wrong.2 seen)
          (users-fifth (after_increment v) (up-after_increment v up)
            ∙ ap (x.users.update (has_id id) without_otp) (users-after_increment v ∙ same))

  abbrev pub AllWrong : ℕ → List Try → Type 0
  AllWrong from [] = Unit
  AllWrong from (t ∷ ts) = IsWrong from t × AllWrong from ts

  tries-Counting :
      (ts : List Try) (n from : ℕ) (table : x.users.Table) (w : World x)
      → code.otp_expires_at ≤ from + 300000
      → AllWrong from ts
      → suc n + length ts ≤ 4
      → Counting (suc n) (from + 300000) table w
      → Counting (suc n + length ts) (from + 300000) table (tries ts w)
  tries-Counting [] n from table w window wrong few c =
      subst (λ m. Counting m (from + 300000) table w) (omega arith) c
  tries-Counting (t ∷ ts) n from table w window (is_wrong, rest) few c =
      subst (λ m. Counting m (from + 300000) table (tries (t ∷ ts) w)) (omega arith)
        (tries-Counting ts (suc n) from table (try_code t w) window rest (omega arith)
          (next_wrong-Counting from table w t window is_wrong n (omega arith) c))

  -- While Redis answers, five wrong codes before a stored code expires take it off its account,
  -- where nothing was counted at the first of them, which came at most five minutes before the
  -- expiry and before the other four; up to the fifth no account changes.
  pub five_tries-clear :
      (first_try fifth : Try) (three : List Try) (w : World x)
      → w.redis_up ≡ true
      → live first_try.time (x.redis.entry w.redis k) ≡ none
      → code.otp_expires_at ≤ first_try.time + 300000
      → length three ≡ 3
      → AllWrong first_try.time (first_try ∷ fifth ∷ three)
      → ((tries (first_try ∷ three) w).users ≡ w.users)
        × ((try_code fifth (tries (first_try ∷ three) w)).users
            ≡ x.users.update (has_id id) without_otp w.users)
  five_tries-clear first_try fifth three w up fresh window three_more (wrong, (wrong_fifth, rest)) =
      let from = first_try.time in
      let four : Counting 4 (from + 300000) w.users (tries (first_try ∷ three) w) =
        subst (λ m. Counting m (from + 300000) w.users (tries (first_try ∷ three) w)) (omega arith)
          (tries-Counting three 0 from w.users (try_code first_try w) window rest (omega arith)
            (first_wrong-Counting first_try w up wrong fresh)) in
      (
        four.1,
        fifth_wrong-clears from w.users (tries (first_try ∷ three) w) fifth window wrong_fifth four,
      )

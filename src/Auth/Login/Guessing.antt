-- ===== src/Auth/Login/Guessing.antt =====
-- The lock that `login` puts on an account whose password is guessed.
use open_profile_be.Auth.Login.{
  attempts_key, check_password, invalid_credentials, lock_account, lock_key,
}
use open_profile_be.Auth.Login.Untouched.{check_password-HasUsers}
use open_profile_be.Entities.{User}
use open_profile_be.Exec.{err}
use open_profile_be.Prelude.{
  List, Option, String, [], arith, eq_refl, false, length, none, refl, some, subst, suc, text_ne,
  true, ℕ, ◌+◌, ◌<◌, ◌==◌, ◌∙◌, ◌∷◌, ◌≡◌, ◌≤◌,
}
use open_profile_be.Queue.{add_job, add_job_detached}
use open_profile_be.Redis.Laws.{entry-increment, increment-reply, peek}
use open_profile_be.Services.{Services}
use open_profile_be.Services.Redis.{RedisEntry, counted, counter, live, text_entry}
use open_profile_be.World.{World}
use open_profile_be.Redis

pub record Guess : Type 0 where
  pub time : ℕ
  pub password : String

-- The guesses that come from `from` on and before `until`.
abbrev pub Between : ℕ → ℕ → List Guess → Type 0
Between from until [] = Unit
Between from until (g ∷ gs) = (from ≤ g.time) × (g.time < until) × Between from until gs

module _ (x : Services) (u : User) where
  abbrev pub guess : Guess → World x → World x
  guess g w = (check_password x u g.password (record w { now = g.time })).1

  abbrev pub guesses : List Guess → World x → World x
  guesses [] w = w
  guesses (g ∷ gs) w = guesses gs (guess g w)

  abbrev pub AllWrong : List Guess → Type 0
  AllWrong [] = Unit
  AllWrong (g ∷ gs) = (x.crypto.argon2_verify u.password g.password ≡ false) × AllWrong gs

  live-later : (s t : ℕ) (o : Option RedisEntry) → live s o ≡ none → s ≤ t → live t o ≡ none
  live-later s t o e h = ground arith

  attempts-ne-lock : (attempts_key u.email == lock_key u.email) ≡ false
  attempts-ne-lock = text_ne 1 (attempts_key u.email) (lock_key u.email) (omega arith)

  lock-ne-attempts : (lock_key u.email == attempts_key u.email) ≡ false
  lock-ne-attempts = text_ne 1 (lock_key u.email) (attempts_key u.email) (omega arith)

  abbrev after_increment : World x → World x
  after_increment w = (Redis.increment x (attempts_key u.email) 1800 w).1

  module _ (w : World x) (up : w.redis_up ≡ true) (free : peek x w (lock_key u.email) ≡ none)
      (p : String) (wrong : x.crypto.argon2_verify u.password p ≡ false) where
    wrong-fewer :
        (n : ℕ)
        → counted (peek x w (attempts_key u.email)) ≡ some n
        → n < 4
        → check_password x u p w ≡ (err invalid_credentials, after_increment w)
    unfolding check_password Redis.get
    wrong-fewer n e h = ground (
      arith,
      increment-reply x (attempts_key u.email) 1800 w up e,
      x.redis.get_missing w.redis w.now (lock_key u.email) free,
    )

    wrong-fifth :
        counted (peek x w (attempts_key u.email)) ≡ some 4
        → check_password x u p w
          ≡ (err invalid_credentials, (lock_account x u (after_increment w)).1)
    unfolding check_password Redis.get lock_account Redis.set Redis.del Redis.increment Redis.incr
        Redis.expire
    wrong-fifth e = ground (
      arith,
      increment-reply x (attempts_key u.email) 1800 w up e,
      x.redis.incr_reply w.redis w.now (attempts_key u.email),
      x.redis.get_missing w.redis w.now (lock_key u.email) free,
    )

  redis_up-after_increment : (w : World x) → w.redis_up ≡ true → (after_increment w).redis_up ≡ true
  unfolding Redis.increment Redis.incr Redis.expire
  redis_up-after_increment w up = ground arith

  -- The account is locked before `until`.
  abbrev pub AccountLocked : ℕ → World x → Type 0
  AccountLocked until w =
      (w.redis_up ≡ true) × (x.redis.entry w.redis (lock_key u.email) ≡ text_entry "1" (some until))

  lock_account-Locked :
      (w : World x) → w.redis_up ≡ true → AccountLocked (w.now + 1800000) (lock_account x u w).1
  unfolding lock_account Redis.set Redis.del add_job_detached add_job
  lock_account-Locked w up = (
    ground arith,
    ground (
      arith,
      x.redis.entry-del (x.redis.set w.redis (lock_key u.email) "1" (some (w.now + 1800000)))
          (attempts_key u.email) (lock_key u.email),
      x.redis.entry-set w.redis (lock_key u.email) "1" (some (w.now + 1800000)) (lock_key u.email),
      attempts-ne-lock,
      eq_refl (lock_key u.email),
    ),
  )

  now-after_increment : (w : World x) → (after_increment w).now ≡ w.now
  unfolding Redis.increment Redis.incr Redis.expire
  now-after_increment w = ground arith

  -- `n` wrong guesses are counted until `deadline`, and no lock is on from `from`.
  abbrev Counting : ℕ → ℕ → ℕ → World x → Type 0
  Counting n from deadline w =
      (w.redis_up ≡ true)
      × (live from (x.redis.entry w.redis (lock_key u.email)) ≡ none)
      × (x.redis.entry w.redis (attempts_key u.email)
          ≡ some (record { value = counter n; expires = some deadline }))

  module _ (w : World x) (up : w.redis_up ≡ true) (free : peek x w (lock_key u.email) ≡ none)
      (from deadline : ℕ) (free_from : live from (x.redis.entry w.redis (lock_key u.email)) ≡ none)
      (p : String) (wrong : x.crypto.argon2_verify u.password p ≡ false) where
    first_wrong-Counting :
        counted (peek x w (attempts_key u.email)) ≡ some 0
        → Counting 1 from (w.now + 1800000) (check_password x u p w).1
    first_wrong-Counting e = rw (wrong-fewer w up free p wrong 0 e (omega arith)) (
      redis_up-after_increment w up,
      ground (
        arith,
        entry-increment x (attempts_key u.email) 1800 w up e (lock_key u.email),
        attempts-ne-lock,
      ),
      ground (
        arith,
        entry-increment x (attempts_key u.email) 1800 w up e (attempts_key u.email),
        eq_refl (attempts_key u.email),
      ),
    )

    next_wrong-Counting :
        (n : ℕ)
        → suc n < 4
        → x.redis.entry w.redis (attempts_key u.email)
          ≡ some (record { value = counter (suc n); expires = some deadline })
        → w.now < deadline
        → Counting (suc (suc n)) from deadline (check_password x u p w).1
    next_wrong-Counting n few e early =
        let seen : counted (peek x w (attempts_key u.email)) ≡ some (suc n) = ground arith in
        rw (wrong-fewer w up free p wrong (suc n) seen few) (
          redis_up-after_increment w up,
          ground (
            arith,
            entry-increment x (attempts_key u.email) 1800 w up seen (lock_key u.email),
            attempts-ne-lock,
          ),
          ground (
            arith,
            entry-increment x (attempts_key u.email) 1800 w up seen (attempts_key u.email),
            eq_refl (attempts_key u.email),
          ),
        )

    fifth_wrong-Locked :
        x.redis.entry w.redis (attempts_key u.email)
          ≡ some (record { value = counter 4; expires = some deadline })
        → w.now < deadline
        → AccountLocked (w.now + 1800000) (check_password x u p w).1
    fifth_wrong-Locked e early =
        let seen : counted (peek x w (attempts_key u.email)) ≡ some 4 = ground arith in
        rw (wrong-fifth w up free p wrong seen) (
          subst (λ n. AccountLocked (n + 1800000) (lock_account x u (after_increment w)).1)
            (now-after_increment w)
            (lock_account-Locked (after_increment w) (redis_up-after_increment w up)))

  guesses-Counting :
      (gs : List Guess) (n from deadline : ℕ) (w : World x)
      → Counting (suc n) from deadline w
      → suc n + length gs ≤ 4
      → Between from deadline gs
      → AllWrong gs
      → Counting (suc n + length gs) from deadline (guesses gs w)
  guesses-Counting [] n from deadline w c few h wrong =
      subst (λ k. Counting k from deadline w) (omega arith) c
  guesses-Counting (g ∷ gs) n from deadline w (up, free, e) few (after, before, h) (wrong, rest) =
      let now_g = record w { now = g.time } in
      let counted_g =
        next_wrong-Counting now_g up
          (live-later from g.time (x.redis.entry w.redis (lock_key u.email)) free after) from
          deadline free g.password wrong n (omega arith) e before in
      subst (λ k. Counting k from deadline (guesses (g ∷ gs) w)) (omega arith)
        (guesses-Counting gs (suc n) from deadline (guess g w) counted_g (omega arith) h rest)

  users-guesses : (gs : List Guess) (w : World x) → (guesses gs w).users ≡ w.users
  users-guesses [] w = refl
  users-guesses (g ∷ gs) w =
      users-guesses gs (guess g w)
      ∙ (check_password-HasUsers x u w.users g.password).at (record w { now = g.time }) refl

  module _ (w : World x) (first_guess fifth : Guess) (three : List Guess) where
    abbrev pub guessed : World x
    guessed = guess fifth (guesses three (guess first_guess w))

    pub users-guessed : guessed.users ≡ w.users
    users-guessed =
        (check_password-HasUsers x u (guesses three (guess first_guess w)).users fifth.password).at
          (record (guesses three (guess first_guess w)) { now = fifth.time }) refl
        ∙ users-guesses (first_guess ∷ three) w

    pub guessed-Locked :
        w.redis_up ≡ true
        → live first_guess.time (x.redis.entry w.redis (lock_key u.email)) ≡ none
        → live first_guess.time (x.redis.entry w.redis (attempts_key u.email)) ≡ none
        → length three ≡ 3
        → Between first_guess.time (first_guess.time + 1800000) (fifth ∷ three)
        → AllWrong (first_guess ∷ fifth ∷ three)
        → AccountLocked (fifth.time + 1800000) guessed
    guessed-Locked up free fresh three_more (after, before, h) (wrong, (wrong_fifth, rest)) =
        let now_first = record w { now = first_guess.time } in
        let one =
          first_wrong-Counting now_first up free first_guess.time (first_guess.time + 1800000) free
            first_guess.password wrong (rw fresh) in
        let until = first_guess.time + 1800000 in
        let four : Counting 4 first_guess.time until (guesses three (guess first_guess w)) =
          subst (λ k. Counting k first_guess.time until (guesses three (guess first_guess w)))
            (omega arith)
            (guesses-Counting three 0 first_guess.time until (guess first_guess w) one (omega arith)
              h rest) in
        let before_fifth = record (guesses three (guess first_guess w)) { now = fifth.time } in
        fifth_wrong-Locked before_fifth four.0
          (live-later first_guess.time fifth.time
            (x.redis.entry before_fifth.redis (lock_key u.email)) four.1 after)
          first_guess.time (first_guess.time + 1800000) four.1 fifth.password wrong_fifth four.2
          before

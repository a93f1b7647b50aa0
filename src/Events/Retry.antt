-- ===== src/Events/Retry.antt =====
-- The writing of an event with retries (modules/events/utils/event-retry.util.ts and
-- modules/events/utils/is-retryable-error.util.ts).
use text.Mathlib.Text.{starts_with}
use open_profile_be.Exec.{Exec, Result, catch, err, handle, ok, pure, ◌>>◌}
use open_profile_be.Prelude.{
  Bool, Bool-cases, List, Option, String, [], arith, false, if◌then◌else◌, inl, inr, leb, none, not,
  refl, some, subst, ap, ltb, ◌<◌, suc, true, zero, ℕ, ◌*◌, ◌+◌, ◌-◌, ◌==◌, ◌||◌, ◌∷◌, ◌≡◌, ◌≤◌,
  ◌⊎◌,
}

pub record RetryConfig : Type 0 where
  pub max_retries : ℕ
  pub delays_ms : List ℕ
  pub jitter_ms : ℕ

abbrev pub default_retry_config : RetryConfig
default_retry_config = record { max_retries = 3; delays_ms = 100 ∷ 200 ∷ 400 ∷ []; jitter_ms = 20 }

-- What a write throws: a QueryFailedError with its driver's code, or another Error.
pub data WriteError : Type 0 where
  query_failed : (code : Option String) → WriteError
  other_error : (message : String) → WriteError

-- `RETRYABLE_CODES.has(code)`
unfoldable pub is_retryable_code : Option String → Bool
is_retryable_code none = false
is_retryable_code (some code) =
    code == "40001" || code == "40P01" || code == "08006" || code == "08001" || code == "57P03"

-- `includes`
unfoldable pub contains : String → String → Bool
contains needle String.[] = starts_with needle ""
contains needle (String.◌∷◌ c s) =
    let later = contains needle s in starts_with needle (String.◌∷◌ c s) || later

unfoldable pub is_retryable_message : String → Bool
is_retryable_message message =
    contains "timeout" message
    || contains "econnrefused" message
    || contains "connection terminated" message
    || contains "connection reset" message

-- `message.toLowerCase()` is the first argument's.
unfoldable pub is_retryable_error : (String → String) → WriteError → Bool
unfolding is_retryable_code is_retryable_message
is_retryable_error to_lower (query_failed code) = is_retryable_code code
is_retryable_error to_lower (other_error message) = is_retryable_message (to_lower message)

-- `delaysMs[attempt] ?? delaysMs[delaysMs.length - 1]`; 0 where there is none.
abbrev pub base_delay : List ℕ → ℕ → ℕ
base_delay [] attempt = 0
base_delay (d ∷ []) attempt = d
base_delay (d ∷ e ∷ ds) zero = d
base_delay (d ∷ e ∷ ds) (suc attempt) = base_delay (e ∷ ds) attempt

-- `Math.max(0, baseMs + jitter)`, where `random` is below `2 * jitterMs + 1`.
abbrev pub delay_with_jitter : (base_ms jitter_ms random : ℕ) → ℕ
delay_with_jitter base_ms jitter_ms random = base_ms + random - jitter_ms

-- The write and the dead-letter handler are the caller's; a random number and a sleep are read
-- from the state.
module _ {S : Type 0} (to_lower : String → String) (write : S → Option WriteError × S)
    (on_exhausted : WriteError → ℕ → Exec S (Unit {0})) (random_below : ℕ → S → ℕ)
    (sleep : ℕ → S → S) (config : RetryConfig) where
  -- A handler that fails itself is logged only.
  unfoldable pub safe_on_exhausted : WriteError → ℕ → Exec S (Option Bool)
  safe_on_exhausted e attempts = catch (on_exhausted e attempts) (λ _. pure tt) >> pure (some false)

  abbrev pub delay_of : ℕ → S → ℕ
  delay_of attempt s =
      delay_with_jitter (base_delay config.delays_ms attempt) config.jitter_ms
        (random_below (2 * config.jitter_ms + 1) s)

  -- The `catch` of the loop; `next` is its next round.
  unfoldable pub after_failure : Exec S (Option Bool) → ℕ → WriteError → Exec S (Option Bool)
  unfolding safe_on_exhausted
  after_failure next attempt e s =
      if not (is_retryable_error to_lower e)
      then safe_on_exhausted e (suc attempt) s
      else if leb config.max_retries attempt
      then safe_on_exhausted e (suc attempt) s
      else next (sleep (delay_of attempt s) s)

  abbrev pub written : Option WriteError → Exec S (Option Bool) → ℕ → Exec S (Option Bool)
  written none next attempt = pure (some true)
  written (some e) next attempt = after_failure next attempt e

  -- The loop from its round `attempt` on; `none` where the fuel is out.
  unfoldable pub write_from : (fuel attempt : ℕ) → Exec S (Option Bool)
  unfolding after_failure
  write_from zero attempt s = (ok none, s)
  write_from (suc fuel) attempt s =
      written (write s).0 (write_from fuel (suc attempt)) attempt (write s).1

  unfoldable pub write_event_with_retry : Exec S (Option Bool)
  unfolding write_from
  write_event_with_retry = write_from (suc config.max_retries) 0

  -- The state in which round `n` starts, where all rounds before it failed and were retried.
  abbrev pub round_start : ℕ → S → S
  round_start zero s = s
  round_start (suc n) s = let t = (write (round_start n s)).1 in sleep (delay_of n t) t

  -- Round `n` failed with an error that is retried.
  abbrev pub IsRetried : ℕ → S → Type 0
  IsRetried n s =
      (e : WriteError) × ((write (round_start n s)).0 ≡ some e)
      × (is_retryable_error to_lower e ≡ true)

  -- The write of round `n` succeeded, and nothing was done after it.
  abbrev pub IsWritten : ℕ → S → Result (Option Bool) × S → Type 0
  IsWritten n s m =
      ((write (round_start n s)).0 ≡ none) × (m ≡ (ok (some true), (write (round_start n s)).1))

  -- The write of round `n` failed for good, and the dead-letter handler got its error.
  abbrev pub IsDeadLetter : ℕ → S → Result (Option Bool) × S → Type 0
  IsDeadLetter n s m =
      (e : WriteError) × ((write (round_start n s)).0 ≡ some e)
      × ((is_retryable_error to_lower e ≡ false) ⊎ (n ≡ config.max_retries))
      × (m ≡ (ok (some false), (on_exhausted e (suc n) (write (round_start n s)).1).1))

  -- The rounds up to the last: those before it failed and were retried.
  abbrev pub Settled : S → Result (Option Bool) × S → Type 0
  Settled s m =
      (n : ℕ) × (n ≤ config.max_retries)
      × ((k : ℕ) → k < n → IsRetried k s)
      × (IsWritten n s m ⊎ IsDeadLetter n s m)

  handled-ends :
      (r : Result (Unit {0})) (s : S)
      → ((λ t. handle r (λ _. pure tt) t) >> pure (some false)) s ≡ (ok (some false), s)
  handled-ends (ok _) s = refl
  handled-ends (err e) s = refl

  safe_on_exhausted_lem :
      (e : WriteError) (n : ℕ) (s : S)
      → safe_on_exhausted e n s ≡ (ok (some false), (on_exhausted e n s).1)
  unfolding safe_on_exhausted
  safe_on_exhausted_lem e n s = handled-ends (on_exhausted e n s).0 (on_exhausted e n s).1

  IsRetried-next :
      (n : ℕ) (s : S)
      → ((k : ℕ) → k < n → IsRetried k s)
      → IsRetried n s
      → (k : ℕ) → k < suc n
      → IsRetried k s
  IsRetried-next n s before this k under = elim (Bool-cases (ltb k n)) [
    | inl lower ↦ before k (ground (arith, lower))
    | inr upper ↦
        let same : (n ≡ k) = (ground (arith, upper, under)) in subst (λ i. IsRetried i s) same this
  ]

  failure-Settled :
      (fuel n : ℕ) (e : WriteError) (s : S)
      → n ≤ config.max_retries
      → ((k : ℕ) → k < n → IsRetried k s)
      → (write (round_start n s)).0 ≡ some e
      → (suc n ≤ config.max_retries
          → ((k : ℕ) → k < suc n → IsRetried k s)
          → Settled s (write_from fuel (suc n) (round_start (suc n) s)))
      → Settled s (after_failure (write_from fuel (suc n)) n e (write (round_start n s)).1)
  unfolding after_failure
  failure-Settled fuel n e s here before failed next =
      let v = (write (round_start n s)).1 in
      elim (Bool-cases (is_retryable_error to_lower e)) [
        | inr permanent ↦
            rw permanent
              (n, here, before, inr (e, failed, inl permanent, safe_on_exhausted_lem e (suc n) v))
        | inl passing ↦ elim (Bool-cases (leb config.max_retries n)) [
          | inl last ↦
              rw (passing, last)
                (
                  n,
                  here,
                  before,
                  inr (e, failed, inr (ground (arith, last)), safe_on_exhausted_lem e (suc n) v),
                )
          | inr more ↦
              rw (passing, more)
                (next (ground (arith, more)) (IsRetried-next n s before (e, failed, passing)))
        ]
      ]

  written-Settled :
      (fuel n : ℕ) (r : Option WriteError) (s : S)
      → n ≤ config.max_retries
      → ((k : ℕ) → k < n → IsRetried k s)
      → (write (round_start n s)).0 ≡ r
      → (suc n ≤ config.max_retries
          → ((k : ℕ) → k < suc n → IsRetried k s)
          → Settled s (write_from fuel (suc n) (round_start (suc n) s)))
      → Settled s (written r (write_from fuel (suc n)) n (write (round_start n s)).1)
  written-Settled fuel n none s here before e next = (n, here, before, inl (e, refl))
  written-Settled fuel n (some e) s here before failed next =
      failure-Settled fuel n e s here before failed next

  write_from-Settled :
      (fuel n : ℕ) (s : S)
      → suc config.max_retries ≤ fuel + n
      → n ≤ config.max_retries
      → ((k : ℕ) → k < n → IsRetried k s)
      → Settled s (write_from fuel n (round_start n s))
  unfolding write_from
  write_from-Settled zero n s enough here before = absurd (omega arith)
  write_from-Settled (suc fuel) n s enough here before =
      written-Settled fuel n (write (round_start n s)).0 s here before refl
        (λ more retried. write_from-Settled fuel (suc n) s (omega arith) more retried)

  -- Whatever the write and the dead-letter handler do, the loop ends and does not throw. There is a
  -- last round, after at most as many as there are retries, each of which failed with an error that
  -- is retried: either its write succeeded, and that is the end, or it failed with an error that is
  -- not retried or in the last round there is, and the dead-letter handler got the error and the
  -- number of writes.
  pub write_event_with_retry-Settled : (s : S) → Settled s (write_event_with_retry s)
  unfolding write_event_with_retry
  write_event_with_retry-Settled s =
      write_from-Settled (suc config.max_retries) zero s (omega arith) (omega arith)
        (λ k under. absurd (omega arith))

  -- A write that succeeds at once is the only one.
  pub write_event_with_retry-first :
      (s : S) → (write s).0 ≡ none → write_event_with_retry s ≡ (ok (some true), (write s).1)
  unfolding write_event_with_retry write_from
  write_event_with_retry-first s e =
      ap (λ o. written o (write_from config.max_retries (suc zero)) zero (write s).1) e

-- ===== src/Tests/Retries.antt =====
-- The writing of events at a write that fails for a while.
use open_profile_be.Events.Retry.{
  Settled, WriteError, contains, default_retry_config, is_retryable_error, is_retryable_message,
  other_error, query_failed, write_event_with_retry, write_event_with_retry-Settled,
}
use open_profile_be.Exec.{Exec, ok}
use open_profile_be.Prelude.{
  Option, String, if◌then◌else◌, ltb, none, refl, some, suc, true, ℕ, ◌+◌, ◌≡◌,
}

-- The state counts the writes; the first two time out.
abbrev flaky : ℕ → Option WriteError × ℕ
flaky n = (if ltb n 2 then some (other_error "timeout") else none, suc n)

abbrev broken : ℕ → Option WriteError × ℕ
broken n = (some (query_failed (some "40001")), suc n)

abbrev lose : WriteError → ℕ → Exec ℕ (Unit {0})
lose e attempts n = (ok tt, n + 100)

abbrev same_text : String → String
same_text s = s

written_at_last :
    write_event_with_retry same_text flaky lose (λ bound n. 0) (λ ms n. n) default_retry_config 0
    ≡ (ok (some true), 3)
unfolding write_event_with_retry is_retryable_error is_retryable_message contains
written_at_last = refl

write_event_with_retry-Settled_example :
    Settled same_text broken lose
      (λ bound n. 0)
      (λ ms n. n)
      default_retry_config
      0
      (write_event_with_retry same_text broken lose
        (λ bound n. 0)
        (λ ms n. n)
        default_retry_config
        0)
write_event_with_retry-Settled_example =
    write_event_with_retry-Settled same_text broken lose (λ bound n. 0) (λ ms n. n)
      default_retry_config 0

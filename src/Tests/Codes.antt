-- ===== src/Tests/Codes.antt =====
-- One-time codes and OAuth states at concrete values.
use open_profile_be.Auth.Codes.{StoredOtp}
use open_profile_be.Auth.Codes.Attempts.{Try, five_tries-clear, tries, try_code, without_otp}
use open_profile_be.Auth.OauthStates.{
  consume_oauth_state, consume_oauth_state-once, create_oauth_state,
}
use open_profile_be.Auth.UserStatusCache.{has_id}
use open_profile_be.Exec.{ok}
use open_profile_be.Prelude.{List, [], arith, none, refl, ℕ, ◌∷◌, ◌≡◌}
use open_profile_be.Samples.{empty_world, sample}
use open_profile_be.Services.Settings.{OauthState}
use open_profile_be.Tests.Recovery.{waiting}
use open_profile_be.World.{World}
use open_profile_be.Redis

abbrev sent : StoredOtp
sent = record { otp_hash = "h123456"; otp_expires_at = 1300000 }

abbrev miss_at : ℕ → Try
miss_at t = record { time = t; otp = "000000" }

abbrev three_misses : List Try
three_misses = miss_at 1002000 ∷ miss_at 1003000 ∷ miss_at 1004000 ∷ []

five_tries-clear_example :
    ((tries sample "k" "1" sent (miss_at 1001000 ∷ three_misses) waiting).users ≡ waiting.users)
    × ((try_code sample "k" "1" sent
          (miss_at 1005000)
          (tries sample "k" "1" sent (miss_at 1001000 ∷ three_misses) waiting)).users
        ≡ sample.users.update (has_id "1") without_otp waiting.users)
five_tries-clear_example =
    five_tries-clear sample "k" "1" sent (miss_at 1001000) (miss_at 1005000) three_misses waiting
      refl refl (omega arith) refl
      (
        (omega arith, omega arith, refl),
        (
          (omega arith, omega arith, refl),
          (
            (omega arith, omega arith, refl),
            ((omega arith, omega arith, refl), ((omega arith, omega arith, refl), tt)),
          ),
        ),
      )

abbrev flow_started : World sample
flow_started = (create_oauth_state sample "google" "m" 300 empty_world).1

abbrev flow_state : OauthState
flow_state = record { meta = "m"; created_at = 0 }

consume_oauth_state-once_example :
    (consume_oauth_state sample "google" "x"
      (record (consume_oauth_state sample "google" "x" flow_started).1 { now = 1000001 })).0
    ≡ ok none
unfolding consume_oauth_state create_oauth_state Redis.get Redis.set Redis.del
consume_oauth_state-once_example =
    consume_oauth_state-once sample "google" "x" 1000001 flow_started flow_state refl

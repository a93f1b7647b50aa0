-- ===== src/Tests/Recovery.antt =====
-- The recovery of a password at a concrete account.
use open_profile_be.Auth.Codes.{
  assert_email_provider, check_otp, check_valid, otp_invalid, stored_otp,
}
use open_profile_be.Auth.Recovery.{
  change_password, forgot_password, replace_password, reset_password, verify_reset_otp,
}
use open_profile_be.Auth.Recovery.Flow.{reset_flow}
use open_profile_be.Auth.Recovery.Once.{verify_reset_otp-once}
use open_profile_be.Auth.Recovery.SignedOut.{
  Replaced, accepts, change_password-Replaced, reset_password-Replaced,
}
use open_profile_be.Auth.Recovery.Silence.{forgot_password-silent}
use open_profile_be.Auth.Tokens.{delete_tokens, invalidate_all_refresh_tokens}
use open_profile_be.Entities.{User}
use open_profile_be.Exec.{err, ok}
use open_profile_be.Prelude.{String, [], arith, false, refl, some, true, ◌∷◌, ◌≡◌}
use open_profile_be.Queue.{add_job}
use open_profile_be.Samples.{ann, empty_world, sample}
use open_profile_be.Services.Security.{ResetPayload}
use open_profile_be.World.{World}
use open_profile_be.Redis
use open_profile_be.Users

-- An account whose code waits.
abbrev pub forgetful : User
forgetful = record ann { otp_hash = some "h123456"; otp_expires_at = some 1300000 }

abbrev pub waiting : World sample
waiting = record empty_world { users = forgetful ∷ [] }

abbrev nobody : User → World sample
nobody u = record empty_world { users = u ∷ [] }

forgot_password-silent_example :
    (forgot_password sample "ann@x.org" (record empty_world { users = []; mail_up = false })).0
    ≡ (forgot_password sample "ann@x.org" waiting).0
forgot_password-silent_example = forgot_password-silent sample "ann@x.org" [] false waiting

abbrev code_used : World sample
code_used = (verify_reset_otp sample "ann@x.org" "123456" waiting).1

verify_reset_otp-once_example :
    (verify_reset_otp sample "ann@x.org" "123456" code_used).0 ≡ err otp_invalid
unfolding verify_reset_otp check_otp check_valid Users.find_by_email stored_otp Redis.del
    Users.clear_otp Users.update_row
verify_reset_otp-once_example =
    verify_reset_otp-once sample "ann@x.org" "123456" "123456" waiting code_used tt refl

abbrev reset_payload : ResetPayload
reset_payload = record { sub = "1"; purpose = "password_reset" }

abbrev reset_token : String
reset_token = sample.crypto.sign_reset 1600 reset_payload

reset_password-Replaced_example :
    ((reset_password sample reset_token "new" waiting).0 ≡ ok tt)
    × Replaced sample "1" "new" (reset_password sample reset_token "new" waiting).1
reset_password-Replaced_example =
    reset_password-Replaced sample reset_token "new" waiting reset_payload forgetful
      (sample.crypto.verify-sign_reset 1000 1600 reset_payload (omega arith)) refl refl refl

change_password-Replaced_example :
    Replaced sample "1" "new" (change_password sample "1" "pw" "new" waiting).1
    × (accepts sample "pw" (some forgetful) ≡ true)
unfolding change_password Users.find_one assert_email_provider replace_password
    Users.update_password Users.hash_password Users.update_row invalidate_all_refresh_tokens
    delete_tokens add_job
change_password-Replaced_example = change_password-Replaced sample "1" "pw" "new" waiting refl tt

abbrev flow_token : String
flow_token = sample.crypto.sign_reset 1600 reset_payload

reset_flow_example :
    ((reset_password sample flow_token "new" code_used).0 ≡ ok tt)
    × Replaced sample "1" "new" (reset_password sample flow_token "new" code_used).1
unfolding verify_reset_otp check_otp check_valid Users.find_by_email stored_otp Redis.del
    Users.clear_otp Users.update_row
reset_flow_example =
    reset_flow sample "ann@x.org" "123456" flow_token waiting forgetful "new" code_used refl refl
      refl refl refl (omega arith)

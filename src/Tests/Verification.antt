-- ===== src/Tests/Verification.antt =====
-- The verification of an address at a concrete account.
use open_profile_be.Auth.Verification.{verify_otp}
use open_profile_be.Auth.Verification.Invited.{verify_otp-invites}
use open_profile_be.Entities.{User}
use open_profile_be.Prelude.{[], false, none, some, ◌∷◌, ◌≡◌}
use open_profile_be.Samples.{empty_world, sample}
use open_profile_be.Tests.Login.{no_cookies}
use open_profile_be.Tests.Recovery.{forgetful}
use open_profile_be.World.{World}

abbrev newcomer : User
newcomer = record forgetful { is_verified = false }

abbrev newcomer_only : World sample
newcomer_only = record empty_world { users = newcomer ∷ [] }

verify_otp-invites_example :
    (verify_otp sample "ann@x.org" "123456" (some "made up") no_cookies newcomer_only).0
    ≡ (verify_otp sample "ann@x.org" "123456" none no_cookies newcomer_only).0
verify_otp-invites_example =
    verify_otp-invites sample "ann@x.org" "123456" (some "made up") none no_cookies newcomer_only

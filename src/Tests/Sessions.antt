-- ===== src/Tests/Sessions.antt =====
-- Sessions, and Google logins, at concrete accounts.
use open_profile_be.Auth.Codes.{Cookies}
use open_profile_be.Auth.Sessions.{GoogleUser, validate_google_user}
use open_profile_be.Auth.Sessions.Takeover.{taken_over, validate_google_user-takeover}
use open_profile_be.Auth.UserStatusCache.{has_id}
use open_profile_be.Entities.{User}
use open_profile_be.Exec.{ok}
use open_profile_be.Prelude.{[], false, none, refl, some, ◌∷◌, ◌≡◌}
use open_profile_be.Samples.{ann, empty_world, sample}
use open_profile_be.World.{World}

abbrev unverified : User
unverified = record ann { is_verified = false }

abbrev unverified_only : World sample
unverified_only = record empty_world { users = unverified ∷ [] }

abbrev google_ann : GoogleUser
google_ann = record { email = "ann@x.org"; full_name = "Ann" }

validate_google_user-takeover_example :
    ((validate_google_user sample google_ann unverified_only).0
      ≡ ok (record { account = taken_over "hx" unverified; is_new_user = false }))
    × (sample.users.find_one
          (has_id "1")
          (validate_google_user sample google_ann unverified_only).1.users
        ≡ some (taken_over "hx" unverified))
validate_google_user-takeover_example =
    validate_google_user-takeover sample google_ann unverified_only unverified refl refl refl refl

abbrev with_refresh : Cookies
with_refresh = record { access_token = none; refresh_token = some "raw"; anonymous_id = none }

-- ===== src/Tests/Guard.antt =====
-- The guard at concrete requests.
use open_profile_be.Auth.Guard.{GuardRequest, admit, can_activate, private_with_token}
use open_profile_be.Auth.Guard.Admission.{Admitted, can_activate-Admitted, can_activate-public}
use open_profile_be.Auth.RedisLock.{Others}
use open_profile_be.Auth.Tokens.{needs_silent_refresh, verify_access_token}
use open_profile_be.Auth.UserStatusCache.{is_active}
use open_profile_be.Exec.{ok}
use open_profile_be.Prelude.{Bool, [], false, none, refl, some, true, ◌∷◌, ◌≡◌}
use open_profile_be.Samples.{ann, empty_world, sample}
use open_profile_be.Samples.Encoding.{signed}
use open_profile_be.Services.Security.{JwtPayload}
use open_profile_be.World.{World}

abbrev pub alone : Others sample
alone n w = w

abbrev ann_payload : JwtPayload
ann_payload = record {
  sub = "1";
  email = "ann@x.org";
  role = "user";
  onboarding_complete = true;
  exp = some 1900;
}

abbrev with_token : Bool → GuardRequest
with_token is_public = record {
  is_public = is_public;
  access_cookie = some (signed ann_payload);
  refresh_cookie = none;
  authorization = none;
}

abbrev pub ann_only : World sample
ann_only = record empty_world { users = ann ∷ [] }

can_activate-public_example : (can_activate sample alone (with_token true) ann_only).0 ≡ ok true
can_activate-public_example =
    can_activate-public sample alone (with_token true) ann_only refl (λ token raw t given. cc)

let_in : (can_activate sample alone (with_token false) ann_only).0 ≡ ok true
unfolding can_activate private_with_token admit is_active verify_access_token needs_silent_refresh
let_in = refl

can_activate-Admitted_example :
    Admitted sample alone
      (with_token false)
      ann_only
      (can_activate sample alone (with_token false) ann_only).1
can_activate-Admitted_example =
    can_activate-Admitted sample alone (with_token false) ann_only refl let_in

-- ===== src/Tests/Admin.antt =====
-- Account states and their audit trail at concrete requests.
use open_profile_be.Admin.AccountStatus.{AdminCall, apply, serve}
use open_profile_be.Admin.AccountStatus.Effect.{apply-is_active}
use open_profile_be.Admin.AccountStatus.Trail.{
  FollowsGraph, HasTrail, replay, serve-FollowsGraph, serve-HasTrail,
}
use open_profile_be.Admin.Transitions.{
  allows, block, reactivate, status_eq, status_transitions, suspend,
}
use open_profile_be.Auth.UserStatusCache.{is_active, is_inactive, status_text}
use open_profile_be.Entities.{UserStatus, active, blocked}
use open_profile_be.Exec.{ok}
use open_profile_be.Prelude.{List, String, [], arith, false, not, refl, true, ◌∷◌, ◌≡◌}
use open_profile_be.Samples.{ann, empty_world, sample}
use open_profile_be.World.{World}
use open_profile_be.Redis

abbrev office : World sample
office = record empty_world { users = ann ∷ [] }

abbrev started_active : String → UserStatus
started_active user_id = active

abbrev requests : List AdminCall
requests =
    record { time = 2000000; redis_answers = true; account = "1"; action = block; admin = "9" }
    ∷ record { time = 2000001; redis_answers = true; account = "1"; action = suspend; admin = "9" }
    ∷ record {
      time = 2000002;
      redis_answers = false;
      account = "1";
      action = reactivate;
      admin = "9";
    }
    ∷ []

office-HasTrail : HasTrail sample started_active office
unfolding replay
office-HasTrail user_id s h = ground arith

serve-HasTrail_example : HasTrail sample started_active (serve sample requests office)
serve-HasTrail_example = serve-HasTrail sample started_active requests office office-HasTrail

serve-FollowsGraph_example : FollowsGraph sample (serve sample requests office)
serve-FollowsGraph_example = serve-FollowsGraph sample requests office tt

apply-is_active_example :
    (is_active sample "1"
      (record (apply sample "1" block "9" office).1 { now = 1000001; database_up = true })).0
    ≡ ok (not (is_inactive (status_text blocked)))
unfolding apply status_eq status_transitions allows Redis.del
apply-is_active_example =
    apply-is_active sample "1" "9" block 1000001 office
      (record { from = active; to = blocked; changed = true }) refl refl refl

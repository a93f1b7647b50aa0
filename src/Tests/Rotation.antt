-- ===== src/Tests/Rotation.antt =====
-- The rotation of a refresh token at a concrete token.
use open_profile_be.Auth.RedisLock.{acquire_lock}
use open_profile_be.Auth.Tokens.{access_payload, rotate_locked, rotate_tokens, session_expired}
use open_profile_be.Auth.Tokens.Replay.{IsKnown, rotate_tokens-replay}
use open_profile_be.Entities.{RefreshToken}
use open_profile_be.Exec.{err, ok}
use open_profile_be.Prelude.{String, [], refl, ◌∷◌, ◌≡◌}
use open_profile_be.Samples.{ann, empty_world, sample}
use open_profile_be.Services.Settings.{Tokens}
use open_profile_be.Tests.Guard.{alone}
use open_profile_be.World.{World}

abbrev pub raw_token : String
raw_token = "raw"

abbrev pub token_row : RefreshToken
token_row = record {
  id = "t1";
  user_id = "1";
  token_hash = "sraw";
  expires_at = 9000000;
  created_at = 0;
}

abbrev pub session : World sample
session = record empty_world { users = ann ∷ []; refresh_tokens = token_row ∷ [] }

abbrev new_tokens : Tokens
new_tokens = record {
  access_token = sample.crypto.sign_access (access_payload sample ann session);
  refresh_token = sample.crypto.uuid 0;
}

session-IsKnown : IsKnown sample alone raw_token token_row session
session-IsKnown = record { known = refl; only = refl; fresh = refl }

rotates : (rotate_locked sample "sraw" (acquire_lock sample "sraw" session).1).0 ≡ ok new_tokens
unfolding rotate_locked acquire_lock
rotates = refl

rotate_tokens-replay_example :
    ((rotate_tokens sample alone raw_token session).0 ≡ ok new_tokens)
    × ((rotate_tokens sample alone raw_token
          (record (rotate_tokens sample alone raw_token session).1 { now = 1010000 })).0
        ≡ err session_expired)
rotate_tokens-replay_example =
    rotate_tokens-replay sample alone raw_token token_row session new_tokens 1010000 refl refl
      session-IsKnown rotates

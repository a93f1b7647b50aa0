-- ===== src/Notifications/Announcements.antt =====
-- AnnouncementService (modules/notifications/announcements.service.ts).
pub mod Batches
use open_profile_be.Entities.{User}
use open_profile_be.Entities.Notifications.{FanoutBatch}
use open_profile_be.Exec.{
  Exception, catch, err, gets, http, infrastructure, ok, pure, throw, ◌>>=◌, ◌>>◌,
}
use open_profile_be.Notifications.{dropped, taken}
use open_profile_be.Prelude.{
  Bool, List, String, [], if◌then◌else◌, length, map, suc, true, zero, ℕ, ◌+◌, ◌++◌, ◌∷◌,
}
use open_profile_be.Services.{Services}
use open_profile_be.World.{App, World, draw}

-- FANOUT_BATCH_SIZE
abbrev pub fanout_batch_size : ℕ
fanout_batch_size = 500

abbrev pub broadcast_failed : Exception
broadcast_failed = http 500 "Failed to broadcast announcement"

module _ (x : Services) where
  -- The accounts in the order of their ids.
  abbrev pub users_by_id : World x → List User
  users_by_id w = x.users.find_ordered (λ u. x.crypto.uuid_order u.id) (λ _. true) w.users

  abbrev pub with_batch : FanoutBatch → World x → World x
  with_batch b w = record w {
    tracking = record (w.tracking) { batches = w.tracking.batches ++ b ∷ [] };
  }

  abbrev pub add_batch : FanoutBatch → App x (Unit {0})
  add_batch b w =
      if w.queue_up then (ok tt, with_batch b w) else (err (infrastructure "queue unavailable"), w)

  -- The loop, for one announcement. Its fuel is the argument after the size of a batch.
  module _ (id title body : String) where
    abbrev pub batch_of : List User → FanoutBatch
    batch_of users = record {
      announcement_id = id;
      title = title;
      body = body;
      user_ids = map (λ (u : User). u.id) users;
    }

    abbrev pub send_page : App x (Unit {0}) → List User → App x (Unit {0})
    send_page rest [] = pure tt
    send_page rest (u ∷ users) = add_batch (batch_of (u ∷ users)) >> rest

    unfoldable pub fan_out : (size fuel offset : ℕ) → App x (Unit {0})
    fan_out size zero offset = pure tt
    fan_out size (suc fuel) offset =
        let rest = fan_out size fuel (offset + size) in
        do users ← gets (λ w. taken size (dropped offset (users_by_id w))); send_page rest users

  -- There are fewer batches than accounts, but for the last page, which is empty.
  unfoldable pub broadcast : (title body : String) → App x String
  unfolding fan_out
  broadcast title body = do
    n ← draw x
    total ← gets (λ w. length (users_by_id w))
    let id = x.crypto.uuid n in
        do
          catch (fan_out id title body fanout_batch_size (suc total) 0)
              (λ _. throw broadcast_failed)
          pure id

-- ===== src/Events/Recording.antt =====
-- EventsService (modules/events/events.service.ts): the recording of events.
pub mod Deduplicated
use open_profile_be.Entities.Pages.{Profile}
use open_profile_be.Entities.Tracking.{EventPayload, EventRow, EventType}
use open_profile_be.Events.Retry.{
  WriteError, default_retry_config, other_error, query_failed, write_event_with_retry,
}
use open_profile_be.Entities.Notifications.{NotificationType}
use open_profile_be.Notifications.{DispatchNotification, dispatch}
use open_profile_be.Exec.{catch, gets, modify, pure, when, ◌>>=◌, ◌>>◌}
use open_profile_be.Prelude.{
  Bool, List, Option, String, [], any, false, if◌then◌else◌, is_some, key, length, map, nat_eq,
  none, not, some, suc, true, truthy, ℕ, ◌&&◌, ◌==◌, ◌∷◌,
}
use open_profile_be.Profiles.Pages.Cache.{is_public_page}
use open_profile_be.Services.{Services}
use open_profile_be.World.{
  App, Event, World, draw, identity_merged, invite_claimed, invite_sent, stored,
}
use open_profile_be.Redis

abbrev pub default_dedup_ttl_seconds : ℕ
default_dedup_ttl_seconds = 300

pub record RecordEvent : Type 0 where
  pub payload : EventPayload
  pub dedup_key : Option String
  pub dedup_ttl_seconds : Option ℕ

-- What the query `UPDATE … RETURNING` of TypeORM answers: the rows, and then their number.
pub record ViewRow : Type 0 where
  pub view_count : ℕ
  pub user_id : String

pub data QueryItem : Type 0 where
  returned_rows : List ViewRow → QueryItem
  affected_rows : ℕ → QueryItem

abbrev pub update_answer : List ViewRow → List QueryItem
update_answer rows = returned_rows rows ∷ affected_rows (length rows) ∷ []

-- `result[0]`
abbrev pub first_item : List QueryItem → Option QueryItem
first_item [] = none
first_item (i ∷ items) = some i

-- The properties `view_count` and `user_id` of an item, which a list and a number do not have.
abbrev pub view_row : QueryItem → Option ViewRow
view_row (returned_rows rows) = none
view_row (affected_rows n) = none

abbrev pub is_in : List ℕ → ℕ → Bool
is_in ns n = any (λ m. nat_eq m n) ns

abbrev pub is_profile_viewed : EventType → Bool
is_profile_viewed EventType.profile_viewed = true
is_profile_viewed _ = false

-- `where: { anonymousId, actorId: IsNull() }`
abbrev pub is_anonymous : String → EventRow → Bool
is_anonymous id e = elim (e.payload.anonymous_id) [
  | none ↦ false
  | some a ↦ a == id && not (is_some e.payload.actor_id)
]

abbrev pub with_actor : String → EventRow → EventRow
with_actor actor e = record e { payload = record (e.payload) { actor_id = some actor } }

abbrev pub with_view : Profile → Profile
with_view p = record p { view_count = suc p.view_count }

-- Whether the database answers, a random number, and a sleep, in which others may act, are the
-- arguments.
module _ (x : Services) (outage : World x → Option WriteError) (random_below : ℕ → World x → ℕ)
    (sleep : ℕ → World x → World x) where
  unfoldable pub is_duplicate_event : String → ℕ → App x Bool
  unfolding Redis.set_nx
  is_duplicate_event k ttl =
      catch (do is_new ← Redis.set_nx x k "1" ttl; pure (not is_new)) (λ _. pure false)

  abbrev pub inserted_event : World x → Option x.tracking.events.Table → Option WriteError × World x
  inserted_event w none = (some (query_failed (some "23505")), w)
  inserted_event w (some t) =
      (none, record w { drawn = suc w.drawn; tracking = record (w.tracking) { events = t } })

  abbrev pub event_row : EventPayload → World x → EventRow
  event_row payload w = record {
    id = x.crypto.uuid w.drawn;
    payload = payload;
    occurred_at = w.now;
  }

  abbrev pub save_answered :
      Option WriteError → EventPayload → World x → Option WriteError × World x
  save_answered (some e) payload w = (some e, w)
  save_answered none payload w =
      inserted_event w (x.tracking.events.insert (event_row payload w) w.tracking.events)

  -- `eventRepository.save(eventRepository.create(payload))`
  unfoldable pub save_event : EventPayload → World x → Option WriteError × World x
  save_event payload w = save_answered (outage w) payload w

  abbrev pub code_of : WriteError → Option String
  code_of (query_failed code) = code
  code_of (other_error message) = none

  abbrev pub put_failed : World x → x.tracking.failed_events.Table → World x
  put_failed w t = record w { tracking = record (w.tracking) { failed_events = t } }

  -- The dead-letter handler.
  unfoldable pub save_failed_event : EventPayload → WriteError → ℕ → App x (Unit {0})
  save_failed_event payload e attempts = do
    n ← draw x
    inserted_table ← gets (λ w.
        x.tracking.failed_events.insert
          (record {
            id = x.crypto.uuid n;
            payload = payload;
            error_code = code_of e;
            attempt_count = attempts;
          })
          w.tracking.failed_events)
    stored x put_failed inserted_table

  unfoldable pub write_payload : EventPayload → App x (Option Bool)
  write_payload payload =
      write_event_with_retry x.crypto.to_lower (save_event payload) (save_failed_event payload)
        random_below sleep default_retry_config

  abbrev pub milestone_notice : String → ViewRow → DispatchNotification
  milestone_notice profile r =
      let count = x.redis.decimal r.view_count in
      record {
        user_id = r.user_id;
        user_email = none;
        notification_type = NotificationType.profile_view_milestone;
        title = "Milestone reached!";
        body = key "Your profile has been viewed " (key count " times.");
        metadata = some count;
        dedupe_key = some (key "MILESTONE_" (key profile (key "_" count)));
        send_email = false;
      }

  abbrev pub dispatch_milestone : String → Option ViewRow → App x (Unit {0})
  dispatch_milestone profile none = pure tt
  dispatch_milestone profile (some r) =
      when (is_in x.env.profile_view_milestones r.view_count)
        (dispatch x (milestone_notice profile r) >> pure tt)

  abbrev pub milestone_of : String → Option QueryItem → App x (Unit {0})
  milestone_of profile none = pure tt
  milestone_of profile (some item) = dispatch_milestone profile (view_row item)

  abbrev pub view_rows : String → World x → List ViewRow
  view_rows profile w =
      map (λ p. record { view_count = suc p.view_count; user_id = p.user_id })
        (x.pages.profiles.find (λ p. p.id == profile) w.pages.profiles)

  unfoldable pub check_profile_view_milestone : String → App x (Unit {0})
  unfolding dispatch
  check_profile_view_milestone profile =
      catch
        (do
          rows ← gets (view_rows profile)
          modify (λ w. record w {
            pages = record (w.pages) {
              profiles = x.pages.profiles.update (λ p. p.id == profile) with_view w.pages.profiles;
            };
          })
          milestone_of profile (first_item (update_answer rows)))
        (λ _. pure tt)

  abbrev pub after_write : EventPayload → Option Bool → App x (Unit {0})
  after_write payload (some true) = elim (payload.profile_id) [
    | none ↦ pure tt
    | some profile ↦
        when (is_profile_viewed payload.event_type) (check_profile_view_milestone profile)
  ]
  after_write payload _ = pure tt

  abbrev pub write_new : EventPayload → App x (Unit {0})
  write_new payload = do written_one ← write_payload payload; after_write payload written_one

  abbrev pub ttl_or_default : Option ℕ → ℕ
  ttl_or_default none = default_dedup_ttl_seconds
  ttl_or_default (some ttl) = ttl

  abbrev pub record_deduplicated : EventPayload → Option String → ℕ → App x (Unit {0})
  record_deduplicated payload none ttl = write_new payload
  record_deduplicated payload (some k) ttl = do
    duplicate ← is_duplicate_event k ttl
    (if duplicate then pure tt else write_new payload)

  unfoldable pub record_event : RecordEvent → App x (Unit {0})
  unfolding is_duplicate_event write_payload check_profile_view_milestone
  record_event e =
      record_deduplicated e.payload (truthy e.dedup_key) (ttl_or_default e.dedup_ttl_seconds)

  abbrev pub public_target : Option Profile → Option (String × String)
  public_target none = none
  public_target (some p) = some (p.id, p.user_id)

  unfoldable pub find_public_profile_target : String → App x (Option (String × String))
  find_public_profile_target username = gets λ w.
      public_target
        (x.pages.profiles.find_one (is_public_page (x.crypto.to_lower username)) w.pages.profiles)

  unfoldable pub merge_anonymous_events : String → String → App x (Unit {0})
  merge_anonymous_events anonymous actor = modify λ w. record w {
    tracking = record (w.tracking) {
      events =
          x.tracking.events.update (is_anonymous anonymous) (with_actor actor) w.tracking.events;
    };
  }

  -- The handlers of the emitted events; what they throw is logged. The metadata of an invite is
  -- written as its ids.
  unfoldable pub handle_event : Event → App x (Unit {0})
  unfolding record_event merge_anonymous_events
  handle_event (identity_merged anonymous actor) =
      catch (merge_anonymous_events anonymous actor) (λ _. pure tt)
  handle_event (invite_sent inviter invite) =
      catch
        (record_event (record {
          payload = record {
            event_type = EventType.invite_sent_type;
            profile_id = none;
            actor_id = some inviter;
            anonymous_id = none;
            metadata = some invite;
          };
          dedup_key = none;
          dedup_ttl_seconds = none;
        }))
        (λ _. pure tt)
  handle_event (invite_claimed invite inviter claimant) =
      catch
        (record_event (record {
          payload = record {
            event_type = EventType.invite_claimed_type;
            profile_id = none;
            actor_id = some claimant;
            anonymous_id = none;
            metadata = some (key invite (key " " inviter));
          };
          dedup_key = none;
          dedup_ttl_seconds = none;
        }))
        (λ _. pure tt)

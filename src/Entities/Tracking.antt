-- ===== src/Entities/Tracking.antt =====
-- The rows of the events: modules/events/entities. The metadata is the text of its document.
use open_profile_be.Prelude.{Option, String, ℕ}

pub data EventType : Type 0 where
  profile_viewed link_clicked search_performed invite_sent_type invite_claimed_type : EventType

pub record EventPayload : Type 0 where
  pub event_type : EventType
  pub profile_id : Option String
  pub actor_id : Option String
  pub anonymous_id : Option String
  pub metadata : Option String

pub record EventRow : Type 0 where
  pub id : String
  pub payload : EventPayload
  pub occurred_at : ℕ

-- A row of the dead letters. Its error message is left out.
pub record FailedEvent : Type 0 where
  pub id : String
  pub payload : EventPayload
  pub error_code : Option String
  pub attempt_count : ℕ

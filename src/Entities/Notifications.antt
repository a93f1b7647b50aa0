-- ===== src/Entities/Notifications.antt =====
-- The rows of the notifications: modules/notifications/entities/notification.entity.ts.
use open_profile_be.Prelude.{Bool, List, Option, String, false, none, some, ℕ, ◌&&◌, ◌==◌}

pub data NotificationType : Type 0 where
  profile_view_milestone system_announcement invite_claimed_notice : NotificationType

-- The metadata is the text of its document.
pub record Notification : Type 0 where
  pub id : String
  pub user_id : String
  pub notification_type : NotificationType
  pub title : String
  pub body : String
  pub metadata : Option String
  pub read_at : Option ℕ
  pub dedupe_key : Option String
  pub created_at : ℕ

-- The job of one batch of an announcement's fan-out.
pub record FanoutBatch : Type 0 where
  pub announcement_id : String
  pub title : String
  pub body : String
  pub user_ids : List String

-- Two columns that are both there and the same; a null equals nothing.
abbrev pub same_text : Option String → Option String → Bool
same_text none _ = false
same_text (some s) none = false
same_text (some s) (some t) = s == t

-- The unique index uq_notification_user_dedupe.
abbrev pub same_dedupe : Notification → Notification → Bool
same_dedupe a b = a.user_id == b.user_id && same_text a.dedupe_key b.dedupe_key

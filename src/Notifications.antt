-- ===== src/Notifications.antt =====
-- NotificationService (modules/notifications/notifications.service.ts).
pub mod Deduplicated
pub mod Announcements
use open_profile_be.Entities.Notifications.{Notification, NotificationType}
use open_profile_be.Exec.{catch, gets, http, modify, pure, throw_if, ◌>>=◌, ◌>>◌}
use open_profile_be.Prelude.{
  Bool, List, Option, String, [], false, if◌then◌else◌, is_some, key, length, nat_eq, none, not,
  some, suc, true, truthy, zero, ℕ, ◌&&◌, ◌*◌, ◌-◌, ◌==◌, ◌∷◌,
}
use open_profile_be.Services.{Services}
use open_profile_be.World.{App, World, draw}
use open_profile_be.Queue

pub record DispatchNotification : Type 0 where
  pub user_id : String
  pub user_email : Option String
  pub notification_type : NotificationType
  pub title : String
  pub body : String
  pub metadata : Option String
  pub dedupe_key : Option String
  pub send_email : Bool

pub record NotificationPage : Type 0 where
  pub items : List Notification
  pub total : ℕ
  pub page : ℕ
  pub limit : ℕ

abbrev pub dropped {ℓ} : {A : Type ℓ} → ℕ → List A → List A
dropped zero rows = rows
dropped (suc n) [] = []
dropped (suc n) (r ∷ rows) = dropped n rows

abbrev pub turned {ℓ} : {A : Type ℓ} → List A → List A → List A
turned later [] = later
turned later (r ∷ rows) = turned (r ∷ later) rows

abbrev pub taken {ℓ} : {A : Type ℓ} → ℕ → List A → List A
taken zero rows = []
taken (suc n) [] = []
taken (suc n) (r ∷ rows) = r ∷ taken n rows

abbrev pub is_for : String → Notification → Bool
is_for user n = n.user_id == user

-- `where: { userId, readAt: IsNull() }`
abbrev pub is_unread : String → Notification → Bool
is_unread user n = n.user_id == user && not (is_some n.read_at)

-- `{ id, userId }`
abbrev pub is_own : (user id : String) → Notification → Bool
is_own user id n = n.id == id && n.user_id == user

abbrev pub with_read : Option ℕ → Notification → Notification
with_read t n = record n { read_at = t }

module _ (x : Services) where
  abbrev pub new_notification : DispatchNotification → (id : String) (now : ℕ) → Notification
  new_notification p id now = record {
    id = id;
    user_id = p.user_id;
    notification_type = p.notification_type;
    title = p.title;
    body = p.body;
    metadata = p.metadata;
    read_at = none;
    dedupe_key = p.dedupe_key;
    created_at = now;
  }

  -- The mail goes out only where it is asked for and there is an address.
  abbrev pub mail_to : DispatchNotification → Option String → App x (Unit {0})
  mail_to p none = pure tt
  mail_to p (some to) =
      catch
        (Queue.add_job x
          (record { name = "send-notification-email"; to = to; content = key p.title p.body }))
        (λ _. pure tt)

  unfoldable pub send_notification_mail : DispatchNotification → App x (Unit {0})
  unfolding Queue.add_job
  send_notification_mail p = mail_to p (if p.send_email then truthy p.user_email else none)

  abbrev pub put_notification : Notification → x.tracking.notifications.Table → World x → World x
  put_notification n t w = record w {
    tracking = record (w.tracking) { notifications = t; pushed = n ∷ w.tracking.pushed };
  }

  -- An insert that breaks the unique index is ignored, and nothing is sent.
  abbrev pub after_insert :
      DispatchNotification
      → Notification
      → Option x.tracking.notifications.Table
      → App x (Option Notification)
  after_insert p n none = pure none
  after_insert p n (some t) = do
    modify (put_notification n t)
    send_notification_mail p
    pure (some n)

  unfoldable pub dispatch : DispatchNotification → App x (Option Notification)
  unfolding send_notification_mail
  dispatch p = do
    drawn ← draw x
    now ← gets (λ w. w.now)
    let n = new_notification p (x.crypto.uuid drawn) now in
        do
          t ← gets (λ w. x.tracking.notifications.insert n w.tracking.notifications)
          after_insert p n t

  unfoldable pub handle_invite_claimed_notify : (invite inviter : String) → App x (Unit {0})
  unfolding dispatch
  handle_invite_claimed_notify invite inviter =
      catch
        (do
          dispatch (record {
            user_id = inviter;
            user_email = none;
            notification_type = NotificationType.invite_claimed_notice;
            title = "Your invite was accepted!";
            body = "Someone you invited just joined Open Profile.";
            metadata = none;
            dedupe_key = some (key "INVITE_CLAIMED_" invite);
            send_email = false;
          })
          pure tt)
        (λ _. pure tt)

  -- Pages count from 1. Rows that were created at one time come in any order.
  unfoldable pub find_all_for_user : (user : String) (page limit : ℕ) → App x NotificationPage
  find_all_for_user user page limit = gets λ w.
      let rows = turned [] (
        x.tracking.notifications.find_ordered (λ n. n.created_at) (is_for user)
          w.tracking.notifications) in
      record {
        items = taken limit (dropped ((page - 1) * limit) rows);
        total = length rows;
        page = page;
        limit = limit;
      }

  abbrev pub update_read : (Notification → Bool) → Option ℕ → World x → World x
  update_read p t w = record w {
    tracking = record (w.tracking) {
      notifications = x.tracking.notifications.update p (with_read t) w.tracking.notifications;
    };
  }

  -- `result.affected === 0`
  abbrev pub affects_none : (Notification → Bool) → World x → Bool
  affects_none p w = nat_eq (length (x.tracking.notifications.find p w.tracking.notifications)) 0

  abbrev pub set_read : (user id : String) → Option ℕ → App x (Unit {0})
  set_read user id t = do
    missing ← gets (affects_none (is_own user id))
    modify (update_read (is_own user id) t)
    throw_if missing (http 404 "Notification not found")

  unfoldable pub mark_as_read : (user id : String) → App x (Unit {0})
  mark_as_read user id = do now ← gets (λ w. w.now); set_read user id (some now)

  unfoldable pub mark_as_unread : (user id : String) → App x (Unit {0})
  mark_as_unread user id = set_read user id none

  unfoldable pub mark_all_as_read : String → App x (Unit {0})
  mark_all_as_read user = modify λ w. update_read (is_unread user) (some w.now) w

  unfoldable pub unread_count : String → App x ℕ
  unread_count user =
      gets λ w. length (x.tracking.notifications.find (is_unread user) w.tracking.notifications)

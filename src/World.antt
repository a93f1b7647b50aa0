-- ===== src/World.antt =====
-- What a request can see and change: the clock, the random values, Redis, the tables, the job
-- queue, the emitted events, and the request and response of the HTTP layer.
use open_profile_be.Entities.Notifications.{FanoutBatch, Notification}
use open_profile_be.Exec.{Exception, Exec, err, infrastructure, modify, ok}
use open_profile_be.Prelude.{Bool, List, Option, String, none, some, suc, ℕ, ◌/◌, ◌∷◌}
use open_profile_be.Services.{Services}
use open_profile_be.Services.Security.{JwtPayload}

-- A job of modules/queue: its name and its recipient.
pub record Job : Type 0 where
  pub name : String
  pub to : String
  pub content : String

pub data Event : Type 0 where
  identity_merged : (anonymous_id user_id : String) → Event
  invite_sent : (inviter_user_id invite_id : String) → Event
  invite_claimed : (invite_id inviter_user_id claimant_user_id : String) → Event

-- The attributes of the session's cookies (modules/auth/utils/auth-cookie-policy.ts).
pub data SameSite : Type 0 where
  strict lax same_site_none : SameSite

pub record CookieOptions : Type 0 where
  pub secure : Bool
  pub same_site : SameSite
  pub path : String
  pub domain : Option String

-- A call of the response's `cookie` or `clearCookie`.
pub data CookieChange : Type 0 where
  set_cookie :
      (name value : String) (http_only : Bool) (max_age : ℕ) (base : CookieOptions) → CookieChange
  clear_cookie : (name : String) (base : CookieOptions) → CookieChange

pub record Pages (x : Services) : Type 0 where
  pub profiles : x.pages.profiles.Table
  pub components : x.pages.components.Table
  pub skills : x.pages.skills.Table
  pub education : x.pages.education.Table
  pub work_experience : x.pages.work_experience.Table
  pub awards : x.pages.awards.Table
  pub drafts : x.pages.drafts.Table

pub record Tracking (x : Services) : Type 0 where
  pub events : x.tracking.events.Table
  pub failed_events : x.tracking.failed_events.Table
  pub notifications : x.tracking.notifications.Table
  -- What the gateway sent: `emitToUser(userId, 'notification:new', notification)`.
  pub pushed : List Notification
  -- The batches that announcements queued, in their order.
  pub batches : List FanoutBatch

pub record World (x : Services) : Type 0 where
  -- Milliseconds since the epoch.
  pub now : ℕ
  -- How many random values were drawn.
  pub drawn : ℕ
  pub redis : x.redis.Store
  -- Whether Redis and the job queue answer.
  pub redis_up : Bool
  pub queue_up : Bool
  pub mail_up : Bool
  -- Whether the database answers the account check's read, the one whose failure is modelled.
  pub database_up : Bool
  pub users : x.users.Table
  pub refresh_tokens : x.refresh_tokens.Table
  pub invites : x.invites.Table
  pub status_history : x.status_history.Table
  pub pages : Pages x
  pub tracking : Tracking x
  pub jobs : List Job
  pub mails : List Job
  pub events : List Event
  pub cookies : List CookieChange
  -- `req['user']`
  pub request_user : Option JwtPayload

-- PostgreSQL's code for a broken unique index
abbrev pub unique_violation : Exception
unique_violation = infrastructure "23505"

abbrev pub App : Services → Type 0 → Type 0
App x A = Exec (World x) A

module _ (x : Services) where
  -- A fresh position in the sequence of random values.
  abbrev pub draw : App x ℕ
  draw w = (ok w.drawn, record w { drawn = suc w.drawn })

  -- `Math.floor(Date.now() / 1000)`
  abbrev pub now_seconds : World x → ℕ
  now_seconds w = w.now / 1000

  abbrev pub emit : Event → App x (Unit {0})
  emit e = modify λ w. record w { events = e ∷ w.events }

  -- The outcome of an INSERT: the new table, or the error of a unique index.
  abbrev pub stored : {T : Type 0} → (World x → T → World x) → Option T → App x (Unit {0})
  stored put none w = (err unique_violation, w)
  stored put (some t) w = (ok tt, put w t)

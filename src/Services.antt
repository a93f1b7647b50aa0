-- ===== src/Services.antt =====
-- What the program calls and does not implement: Redis, the database behind TypeORM, hashing,
-- random values and signed tokens. Each is an interface with the documented behaviour that the
-- program relies on, and `Services` is all of them.
pub mod Redis
pub mod Database
pub mod Security
pub mod Settings
use open_profile_be.Entities.{User, RefreshToken, Invite, UserStatusHistory}
use open_profile_be.Entities.Pages.{
  Profile, ProfileComponent, Skill, Education, WorkExperience, Award, ProfileDraft,
}
use open_profile_be.Entities.Notifications.{Notification, same_dedupe}
use open_profile_be.Entities.Tracking.{EventRow, FailedEvent}
use open_profile_be.Entities.PublicProfiles.{CachedPage, not_found_mark}
use open_profile_be.Prelude.{
  Bool, false, ℕ, String, ◌≡◌, ◌==◌, Option, some, is_some, List, any, nth,
}
use Redis.{RedisClient}
use Database.{Repository}
use Security.{Crypto}
use Settings.{Environment}

-- The tables of a profile's page.
pub record PageTables : Type 1 where
  pub profiles : Repository Profile
  pub components : Repository ProfileComponent
  pub skills : Repository Skill
  pub education : Repository Education
  pub work_experience : Repository WorkExperience
  pub awards : Repository Award
  pub drafts : Repository ProfileDraft
  -- `UPDATE … FROM (VALUES …) AS v(id, new_order) WHERE id = v.id` over the ids of a list and their
  -- positions joins a row with one value of its id, and leaves a row without one as it is.
  pub joined : List String → String → Option ℕ
  pub joined-matches :
      (ids : List String) (id : String) (i : ℕ) → joined ids id ≡ some i → nth i ids ≡ some id
  pub joined-finds :
      (ids : List String) (id : String) → any (λ j. j == id) ids ≡ is_some (joined ids id)

-- `JSON.stringify` and `JSON.parse` of what the cache of pages holds, and the MD5 digest.
pub record PageCodec : Type 0 where
  pub stringify_page : CachedPage → String
  pub parse_page : String → CachedPage
  pub md5 : String → String
  -- Whether `save` finds no column of a draft to update.
  pub is_unchanged : ProfileDraft → ProfileDraft → Bool
  pub parse-stringify_mark : parse_page (stringify_page not_found_mark) ≡ not_found_mark
  pub stringify_page-ne-empty : (p : CachedPage) → (stringify_page p == "") ≡ false

-- `lowered_href` is the URL's text once its protocol and its host are in lower case.
pub record Url : Type 0 where
  pub hostname : String
  pub protocol : String
  pub lowered_href : String
  pub search : String
  pub hash : String

-- `new URL`, `dns.lookup`, libphonenumber-js and `Date.prototype.toISOString`. A parse or a lookup
-- that raises an error is `none`.
pub record Web : Type 0 where
  pub parse_url : String → Option Url
  pub lookup_address : String → Option String
  pub is_valid_phone_number : String → Bool
  pub to_iso_string : ℕ → String

-- The tables of the events and of the notifications, and the text of a cached set of links. A text that `JSON.parse` rejects
-- is `none`.
pub record TrackingTables : Type 1 where
  pub events : Repository EventRow
  pub failed_events : Repository FailedEvent
  pub notifications : Repository Notification
  pub clashes-same_dedupe : (a b : Notification) → notifications.clashes a b ≡ same_dedupe a b
  pub stringify_links : Option String → List String → String
  pub parse_links : String → Option (Option String × List String)
  pub parse-stringify_links :
      (profile : Option String) (links : List String)
      → parse_links (stringify_links profile links) ≡ some (profile, links)

pub record Services : Type 1 where
  pub redis : RedisClient
  pub users : Repository User
  pub refresh_tokens : Repository RefreshToken
  pub invites : Repository Invite
  pub status_history : Repository UserStatusHistory
  pub pages : PageTables
  pub page_codec : PageCodec
  pub web : Web
  pub tracking : TrackingTables
  pub crypto : Crypto
  pub env : Environment

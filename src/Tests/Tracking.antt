-- ===== src/Tests/Tracking.antt =====
-- An event with a key, recorded twice, the check of a link on a page, a notification, and
-- an announcement.
use open_profile_be.Entities.{User}
use open_profile_be.Notifications.Announcements.{broadcast, users_by_id}
use open_profile_be.Notifications.Announcements.Batches.{batched, broadcast-batches}
use open_profile_be.Entities.Notifications.{NotificationType}
use open_profile_be.Notifications.{DispatchNotification, dispatch, unread_count}
use open_profile_be.Notifications.Deduplicated.{dispatch-once}
use open_profile_be.Entities.Content.{ProfileContent}
use open_profile_be.Entities.Pages.{Profile}
use open_profile_be.Events.Links.{
  build_link_set, check_profile, normalize_parsed, normalize_url, validate_profile_link,
}
use open_profile_be.Events.Links.Cached.{validate_profile_link-refines}
use open_profile_be.Events.Links.Cached.Coherent.{IsCoherent}
use open_profile_be.Tests.Sections.{home}
use open_profile_be.Entities.Tracking.{EventPayload, EventType}
use open_profile_be.Events.Recording.{is_duplicate_event}
use open_profile_be.Events.Recording.Deduplicated.{marked, record_event-once, recorded, row_at}
use open_profile_be.Events.Retry.{WriteError}
use open_profile_be.Exec.{ok}
use open_profile_be.Prelude.{
  false, Bool, count_where, [], ◌∷◌, true, Option, arith, none, refl, some, ℕ, ◌≡◌, ◌+◌,
}
use open_profile_be.Samples.{ann, empty_world, sample}
use open_profile_be.World.{World}
use open_profile_be.Redis

abbrev viewed : EventPayload
viewed = record {
  event_type = EventType.profile_viewed;
  profile_id = some "p";
  actor_id = none;
  anonymous_id = some "a";
  metadata = none;
}

abbrev no_outage : World sample → Option WriteError
no_outage w = none

abbrev no_jitter : ℕ → World sample → ℕ
no_jitter n w = 0

abbrev no_sleep : ℕ → World sample → World sample
no_sleep ms w = w

abbrev once : World sample → World sample
once w = marked sample no_outage no_jitter no_sleep viewed "dedup:p:a" 60 refl w

abbrev later : World sample
later = record empty_world { now = empty_world.now + 5000; redis = (once empty_world).redis }

record_event-once_example :
    ((recorded sample no_outage no_jitter no_sleep viewed "dedup:p:a" 60 refl empty_world).0
      ≡ ok tt)
    × ((recorded sample no_outage no_jitter no_sleep viewed "dedup:p:a" 60 refl
          empty_world).1.tracking.events
        ≡ row_at sample no_outage no_jitter no_sleep viewed "dedup:p:a" 60 refl empty_world ∷ [])
    × ((recorded sample no_outage no_jitter no_sleep viewed "dedup:p:a" 60 refl later).0 ≡ ok tt)
    × ((recorded sample no_outage no_jitter no_sleep viewed "dedup:p:a" 60 refl later).1.tracking
        ≡ later.tracking)
    × ((recorded sample no_outage no_jitter no_sleep viewed "dedup:p:a" 60 refl later).1.pages
        ≡ later.pages)
    × ((recorded sample no_outage no_jitter no_sleep viewed "dedup:p:a" 60 refl later).1.events
        ≡ later.events)
unfolding is_duplicate_event Redis.set_nx
record_event-once_example =
    record_event-once sample no_outage no_jitter no_sleep viewed "dedup:p:a" 60 refl empty_world
      later refl refl refl refl refl refl (omega arith) refl

abbrev linked : ProfileContent
linked = record {
  section_order = none;
  bio_part = none;
  links_part = some (record {
    visible = none;
    section_title = none;
    items =
        some (record { id = "l"; label = "code"; url = "https://a.test/"; visible = true } ∷ []);
    style = record {
      text_color = none;
      icon_color = none;
      padding_top = none;
      padding_bottom = none;
    };
  });
  projects_part = none;
  cta_part = none;
  work_experience_part = none;
  education_part = none;
  skills_part = none;
}

abbrev linked_home : Profile
linked_home = record home { content = some linked }

abbrev linked_world : World sample
linked_world = record empty_world {
  pages = record (empty_world.pages) { profiles = linked_home ∷ [] };
}

validate_profile_link-refines_example :
    ((validate_profile_link sample no_sleep "ann" "https://a.test" linked_world).0
      ≡ ok (check_profile sample (normalize_url sample "https://a.test") (some linked_home)))
    × IsCoherent sample "ann"
        (some linked_home)
        (validate_profile_link sample no_sleep "ann" "https://a.test" linked_world).1
validate_profile_link-refines_example =
    validate_profile_link-refines sample no_sleep (some linked_home) "ann" "https://a.test"
      linked_world (λ ms v h. h) (refl, tt)

-- The slash at the end of a link does not count.
finds_link :
    (check_profile sample (normalize_url sample "https://a.test") (some linked_home)).valid ≡ true
unfolding check_profile build_link_set normalize_url normalize_parsed
finds_link = refl

abbrev accepted_notice : DispatchNotification
accepted_notice = record {
  user_id = "1";
  user_email = some "ann@x.org";
  notification_type = NotificationType.invite_claimed_notice;
  title = "Your invite was accepted!";
  body = "";
  metadata = none;
  dedupe_key = some "INVITE_CLAIMED_i";
  send_email = true;
}

abbrev notified : World sample
notified = (dispatch sample accepted_notice empty_world).1

-- Another notification with the key.
abbrev reworded : DispatchNotification
reworded = record accepted_notice { title = "Accepted"; send_email = false }

dispatch-once_example :
    ((dispatch sample reworded notified).0 ≡ ok none)
    × ((dispatch sample reworded notified).1.tracking ≡ notified.tracking)
    × ((dispatch sample reworded notified).1.jobs ≡ notified.jobs)
    × ((unread_count sample "1" (dispatch sample accepted_notice empty_world).1).0 ≡ ok 1)
dispatch-once_example =
    dispatch-once sample accepted_notice reworded "INVITE_CLAIMED_i" empty_world notified refl refl
      refl refl

abbrev office : World sample
office = record empty_world { users = record ann { id = "2"; email = "bob@x.org" } ∷ ann ∷ [] }

broadcast-batches_example :
    ((broadcast sample "News" "Hello" office).0 ≡ ok "u")
    × (batched (broadcast sample "News" "Hello" office).1.tracking.batches ≡ "2" ∷ "1" ∷ [])
    × ((q : User → Bool) → count_where q (users_by_id sample office) ≡ count_where q office.users)
broadcast-batches_example = broadcast-batches sample "News" "Hello" office refl

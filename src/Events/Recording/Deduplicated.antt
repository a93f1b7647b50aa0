-- ===== src/Events/Recording/Deduplicated.antt =====
-- An event with a key is recorded once in the time to live of the key.
use open_profile_be.Entities.Tracking.{EventPayload, EventRow}
use open_profile_be.Events.Recording.{
  RecordEvent, after_write, check_profile_view_milestone, event_row, inserted_event, save_answered,
  save_event, save_failed_event, write_payload, is_duplicate_event, record_deduplicated,
  record_event, write_new,
}
use open_profile_be.Events.Retry.{WriteError, default_retry_config, write_event_with_retry-first}
use open_profile_be.Exec.{Result, continue, ok, pure}
use open_profile_be.Prelude.{
  List, Option-cases, [], any, inl, inr, refl, subst, suc, sym, ◌++◌, ◌∷◌, Bool, Option, String, ap,
  arith, eq_refl, false, if◌then◌else◌, is_some, ltb, none, some, true, ℕ, ◌*◌, ◌+◌, ◌<◌, ◌==◌, ◌∙◌,
  ◌≡◌,
}
use open_profile_be.Redis.Laws.{peek}
use open_profile_be.Services.{Services}
use open_profile_be.Services.Database.{insert_of_no_clash}
use open_profile_be.Services.Redis.{text_entry}
use open_profile_be.World.{App, World}
use open_profile_be.Redis

module _ (x : Services) (outage : World x → Option WriteError) (random_below : ℕ → World x → ℕ)
    (sleep : ℕ → World x → World x) (payload : EventPayload) (k : String) (ttl : ℕ)
    (given : (k == "") ≡ false) where
  abbrev pub keyed : RecordEvent
  keyed = record { payload = payload; dedup_key = some k; dedup_ttl_seconds = some ttl }

  abbrev pub recorded : App x (Unit {0})
  recorded = record_event x outage random_below sleep keyed

  abbrev pub marked : World x → World x
  marked w = (is_duplicate_event x outage random_below sleep k ttl w).1

  unless_duplicate : Result Bool × World x → Result (Unit {0}) × World x
  unless_duplicate r =
      continue r.0
        (λ duplicate. if duplicate then pure tt else write_new x outage random_below sleep payload)
        r.1

  recorded_lem :
      (w : World x)
      → recorded w ≡ unless_duplicate (is_duplicate_event x outage random_below sleep k ttl w)
  unfolding record_event unless_duplicate
  recorded_lem w =
      ap
        (λ b.
          record_deduplicated x outage random_below sleep payload (if b then none else some k) ttl
            w)
        given

  fresh_answer :
      (w : World x)
      → w.redis_up ≡ true
      → peek x w k ≡ none
      → ((is_duplicate_event x outage random_below sleep k ttl w).0 ≡ ok false)
        × (x.redis.entry (marked w).redis k ≡ text_entry "1" (Redis.expiry x w ttl))
        × ((marked w).tracking ≡ w.tracking)
        × ((marked w).now ≡ w.now)
        × ((marked w).drawn ≡ w.drawn)
  unfolding is_duplicate_event Redis.set_nx
  fresh_answer w up free = ground (
    arith,
    up,
    free,
    eq_refl k,
    x.redis.set_nx_reply w.redis w.now k "1" (Redis.expiry x w ttl),
    x.redis.entry-set_nx w.redis w.now k "1" (Redis.expiry x w ttl) k,
  )

  live_answer :
      (w : World x)
      → w.redis_up ≡ true
      → is_some (peek x w k) ≡ true
      → ((is_duplicate_event x outage random_below sleep k ttl w).0 ≡ ok true)
        × ((marked w).tracking ≡ w.tracking)
        × ((marked w).pages ≡ w.pages)
        × ((marked w).events ≡ w.events)
  unfolding is_duplicate_event Redis.set_nx
  live_answer w up held_live =
      ground (arith, up, held_live, x.redis.set_nx_reply w.redis w.now k "1" (Redis.expiry x w ttl))

  still_live :
      (w v : World x)
      → ltb 0 ttl ≡ true
      → v.now < w.now + ttl * 1000
      → x.redis.entry v.redis k ≡ text_entry "1" (Redis.expiry x w ttl)
      → is_some (peek x v k) ≡ true
  still_live w v lasting early e = ground (arith, lasting, e)

  abbrev pub row_at : World x → EventRow
  row_at w = event_row x outage random_below sleep payload w

  abbrev pub event_rows : World x → List EventRow
  event_rows w = x.tracking.events.rows w.tracking.events

  check-events :
      (profile : String) (w : World x)
      → ((check_profile_view_milestone x outage random_below sleep profile w).0 ≡ ok tt)
        × ((check_profile_view_milestone x outage random_below sleep profile w).1.tracking
            ≡ w.tracking)
  unfolding check_profile_view_milestone
  check-events profile w = (refl, refl)

  after_write-events :
      (w : World x)
      → ((after_write x outage random_below sleep payload (some true) w).0 ≡ ok tt)
        × ((after_write x outage random_below sleep payload (some true) w).1.tracking ≡ w.tracking)
  after_write-events w = elim (Option-cases payload.profile_id) [
    | inl e ↦ ground (arith, e)
    | inr (profile, e) ↦ ground (arith, e, check-events profile w)
  ]

  -- A write that the database takes puts the event into the table.
  write_new-row :
      (w : World x)
      → outage w ≡ none
      → any (x.tracking.events.clashes (row_at w)) (event_rows w) ≡ false
      → ((write_new x outage random_below sleep payload w).0 ≡ ok tt)
        × (event_rows (write_new x outage random_below sleep payload w).1
            ≡ event_rows w ++ row_at w ∷ [])
  unfolding write_payload save_event
  write_new-row w answers apart =
      let (t, e, rows) = insert_of_no_clash x.tracking.events (row_at w) w.tracking.events apart in
      let v : World x = record w {
        drawn = suc w.drawn;
        tracking = record (w.tracking) { events = t };
      } in
      let saved =
        ap (λ o. save_answered x outage random_below sleep o payload w) answers
        ∙ ap (inserted_event x outage random_below sleep w) e in
      let settled =
        write_event_with_retry-first x.crypto.to_lower
          (save_event x outage random_below sleep payload)
          (save_failed_event x outage random_below sleep payload) random_below sleep
          default_retry_config w (ap (λ (m : Option WriteError × World x). m.0) saved)
        ∙ ap (λ (m : Option WriteError × World x). (ok (some true), m.1)) saved in
      let after = after_write-events v in
      let Goal : (Result (Option Bool) × World x → Type 0) = (λ m.
        ((continue m.0 (after_write x outage random_below sleep payload) m.1).0 ≡ ok tt)
        × (event_rows (continue m.0 (after_write x outage random_below sleep payload) m.1).1
            ≡ event_rows w ++ row_at w ∷ [])) in
      subst Goal (sym settled) (after.0, ap (λ g. x.tracking.events.rows g.events) after.1 ∙ rows)

  same_row : (w v : World x) → v.now ≡ w.now → v.drawn ≡ w.drawn → row_at v ≡ row_at w
  same_row w v now drawn =
      ap (λ t. record { id = x.crypto.uuid v.drawn; payload = payload; occurred_at = t }) now
      ∙ ap (λ n. record { id = x.crypto.uuid n; payload = payload; occurred_at = w.now }) drawn

  -- An event whose key Redis does not hold is put into the table, at the end and with its time,
  -- where the database takes it. For the time to live of the key from then on, in any world where
  -- Redis still holds that entry, an event with the key is neither written nor counted. Redis
  -- answers both times.
  pub record_event-once :
      (w v : World x)
      → w.redis_up ≡ true
      → v.redis_up ≡ true
      → outage (marked w) ≡ none
      → any (x.tracking.events.clashes (row_at w)) (event_rows w) ≡ false
      → peek x w k ≡ none
      → ltb 0 ttl ≡ true
      → v.now < w.now + ttl * 1000
      → x.redis.entry v.redis k ≡ x.redis.entry (marked w).redis k
      → ((recorded w).0 ≡ ok tt)
        × (event_rows (recorded w).1 ≡ event_rows w ++ row_at w ∷ [])
        × ((recorded v).0 ≡ ok tt)
        × ((recorded v).1.tracking ≡ v.tracking)
        × ((recorded v).1.pages ≡ v.pages)
        × ((recorded v).1.events ≡ v.events)
  unfolding unless_duplicate
  record_event-once w v up v_up answers apart free lasting early same =
      let (new, entry, tracking, now, drawn) = fresh_answer w up free in
      let held = live_answer v v_up (still_live w v lasting early (same ∙ entry)) in
      let first_one =
        recorded_lem w ∙ ap (λ (r : Result Bool). unless_duplicate (r, marked w)) new in
      let second =
        recorded_lem v ∙ ap (λ (r : Result Bool). unless_duplicate (r, marked v)) held.0 in
      let row = same_row w (marked w) now drawn in
      let rows : (event_rows (marked w) ≡ event_rows w) =
        (ap (λ g. x.tracking.events.rows g.events) tracking) in
      let stored = write_new-row (marked w) answers (
        ap (λ r. any (x.tracking.events.clashes r) (event_rows (marked w))) row
        ∙ ap (any (x.tracking.events.clashes (row_at w))) rows
        ∙ apart) in
      (
        ap (λ (r : Result (Unit {0}) × World x). r.0) first_one ∙ stored.0,
        ap (λ (r : Result (Unit {0}) × World x). event_rows r.1) first_one
            ∙ stored.1
            ∙ ap (λ l. l ++ row_at (marked w) ∷ []) rows
            ∙ ap (λ r. event_rows w ++ r ∷ []) row,
        ap (λ (r : Result (Unit {0}) × World x). r.0) second,
        ap (λ (r : Result (Unit {0}) × World x). r.1.tracking) second ∙ held.1,
        ap (λ (r : Result (Unit {0}) × World x). r.1.pages) second ∙ held.2,
        ap (λ (r : Result (Unit {0}) × World x). r.1.events) second ∙ held.3,
      )

-- ===== src/Events/Links/Cached.antt =====
-- The cached set of links answers as the database does.
pub mod Coherent
use open_profile_be.Entities.Content.{ProfileContent}
use open_profile_be.Entities.Pages.{Profile}
use open_profile_be.Events.Links.{
  LinkCheck, answer_links, answer_locked, answer_retried, build_link_set, cache_links, chars,
  check_cached, check_entry, check_from_db, check_profile, content_links, has_link, link_cache_ttl,
  links_entry, includes, bad_json, links_key, links_lock_key, normalize_url, poll_links,
  resolve_from_db, validate_profile_link,
}
use open_profile_be.Exec.{
  Exception, require, Result, catch, continue, err, finally, handle, ok, pure,
}
use open_profile_be.Prelude.{
  Bool, List, Option, String, ap, arith, eq_iff, eq_refl, false, if◌then◌else◌, is_some, key, none,
  refl, some, subst, suc, sym, true, truthy, zero, ℕ, ◌+◌, ◌==◌, ◌∙◌, ◌≡◌,
}
use open_profile_be.Redis.Laws.{peek}
use open_profile_be.Services.{Services}
use open_profile_be.Services.Redis.{
  RedisEntry, RedisValue, counter, live, text, text_entry, not_expired,
}
use open_profile_be.World.{App, World}
use open_profile_be.Redis
use open_profile_be.Events.Links.Cached.Coherent.{
  IsCoherent, IsRead, After, then-After, truthy-IsRead, get-After, set-After, set_nx-After,
  del-After,
}

module _ (x : Services) (name : String) (found : Option Profile) where
  -- The answer of the database.
  abbrev IsAnswer : String → LinkCheck → Type 0
  IsAnswer url a = a ≡ check_profile x url found

  finally-After :
      (url : String) (m : App x LinkCheck) (last : App x (Unit {0})) (w : World x)
      → After x name found (IsAnswer url) (m w)
      → ((v : World x) → IsCoherent x name found v → After x name found (λ _. Unit {0}) (last v))
      → After x name found (IsAnswer url) (finally m last w)
  finally-After url m last w h k =
      then-After x name found (λ _. Unit {0}) (IsAnswer url) (last (m w).1) (λ _ t. ((m w).0, t))
        (k (m w).1 h.0) (λ _ v _ c. (c, h.1))

  has_link_lem :
      (url : String) (o : Option ProfileContent)
      → includes (content_links x o) url ≡ has_link x url o
  has_link_lem url none = refl
  has_link_lem url (some c) = refl

  check_entry_lem :
      (url : String) (o : Option Profile)
      → check_entry x url (links_entry x o) ≡ check_profile x url o
  unfolding check_profile
  check_entry_lem url none = refl
  check_entry_lem url (some p) =
      ap (λ (b : Bool). record { valid = b; profile_id = some p.id }) (has_link_lem url p.content)

  check_cached-After :
      (url t : String) (w : World x)
      → x.tracking.parse_links t ≡ some (links_entry x found)
      → IsCoherent x name found w
      → After x name found (IsAnswer url) (check_cached x url t w)
  unfolding check_cached
  check_cached-After url t w e h =
      subst
        (λ (o : Option (Option String × List String)). After x name found (IsAnswer url) (
          continue (require {S = World x} o bad_json w).0 (λ e. pure (check_entry x url e))
            (require {S = World x} o bad_json w).1))
        (sym e) (h, check_entry_lem url found)

  check_from_db-After :
      (url : String) (w : World x)
      → IsCoherent x name found w
      → After x name found (IsAnswer url) (check_from_db x name url w)
  check_from_db-After url w h = (h, ap (check_profile x url) h.0)

  cache_links-After :
      (url : String) (w : World x)
      → IsCoherent x name found w
      → After x name found (IsAnswer url) (cache_links x name url w)
  unfolding cache_links
  cache_links-After url w h =
      let o = resolve_from_db x name w in
      let e = links_entry x o in
      then-After x name found (λ _. Unit {0}) (IsAnswer url)
        (Redis.set x (links_key x name) (x.tracking.stringify_links e.0 e.1) link_cache_ttl w)
        (λ _. pure (check_profile x url o))
        (set-After x name found w (x.tracking.stringify_links e.0 e.1) link_cache_ttl
          (x.tracking.parse-stringify_links e.0 e.1 ∙ ap (λ q. some (links_entry x q)) h.0) h)
        (λ _ v _ c. (c, ap (check_profile x url) h.0))

  module _ (sleep : ℕ → World x → World x)
      (quiet : (ms : ℕ) (v : World x)
        → IsCoherent x name found v
        → IsCoherent x name found (sleep ms v)) where
    answer_retried-After :
        (url : String) (rest : App x LinkCheck) (o : Option String) (w : World x)
        → IsRead x name found o
        → IsCoherent x name found w
        → ((v : World x) → IsCoherent x name found v → After x name found (IsAnswer url) (rest v))
        → After x name found (IsAnswer url) (answer_retried x sleep url rest o w)
    answer_retried-After url rest none w r h k = k w h
    answer_retried-After url rest (some t) w r h k = check_cached-After url t w r h

    poll_links-After :
        (n : ℕ) (url : String) (w : World x)
        → IsCoherent x name found w
        → After x name found (IsAnswer url) (poll_links x sleep n name url w)
    unfolding poll_links
    poll_links-After zero url w h = check_from_db-After url w h
    poll_links-After (suc n) url w h =
        let rest = poll_links x sleep n name url in
        let slept = quiet 100 w h in
        then-After x name found (IsRead x name found) (IsAnswer url)
          (Redis.get x (links_key x name) (sleep 100 w))
          (λ o. answer_retried x sleep url rest (truthy o))
          (get-After x name found (sleep 100 w) slept)
          (λ o v r c.
            answer_retried-After url rest (truthy o) v (truthy-IsRead x name found o r) c
              (λ u d. poll_links-After n url u d))

    answer_locked-After :
        (url : String) (b : Bool) (w : World x)
        → IsCoherent x name found w
        → After x name found (IsAnswer url) (answer_locked x sleep name url b w)
    answer_locked-After url false w h = poll_links-After 3 url w h
    answer_locked-After url true w h =
        finally-After url (cache_links x name url) (Redis.del x (links_lock_key x name)) w
          (cache_links-After url w h) (del-After x name found)

    answer_links-After :
        (url : String) (o : Option String) (w : World x)
        → IsRead x name found o
        → IsCoherent x name found w
        → After x name found (IsAnswer url) (answer_links x sleep name url o w)
    answer_links-After url (some t) w r h = check_cached-After url t w r h
    answer_links-After url none w r h =
        then-After x name found (λ _. Unit {0}) (IsAnswer url)
          (Redis.set_nx x (links_lock_key x name) "1" 5 w) (answer_locked x sleep name url)
          (set_nx-After x name found w "1" 5 h) (λ b v _ c. answer_locked-After url b v c)

    caught :
        (url : String) (r : Result LinkCheck × World x)
        → After x name found (IsAnswer url) r
        → ((handle r.0 (λ _. check_from_db x name url) r.1).0 ≡ ok (check_profile x url found))
          × IsCoherent x name found (handle r.0 (λ _. check_from_db x name url) r.1).1
    caught url (ok a, v) h = (ap ok h.1, h.0)
    caught url (err e, v) h = (ap (λ o. ok (check_profile x url o)) h.0.0, h.0)

-- Where the cached set of links of a username, if there is one, is that of the profile in the
-- database, an answer is the one of the database alone: whether Redis answers or not, whoever has
-- the lock, and whatever others do in the sleeps that keeps this so. It is so afterwards too.
pub validate_profile_link-refines :
    (x : Services) (sleep : ℕ → World x → World x) (found : Option Profile) (username url : String)
    (w : World x)
    → ((ms : ℕ) (v : World x)
        → IsCoherent x (x.crypto.to_lower username) found v
        → IsCoherent x (x.crypto.to_lower username) found (sleep ms v))
    → IsCoherent x (x.crypto.to_lower username) found w
    → ((validate_profile_link x sleep username url w).0
        ≡ ok (check_profile x (normalize_url x url) found))
      × IsCoherent x
          (x.crypto.to_lower username)
          found
          (validate_profile_link x sleep username url w).1
unfolding validate_profile_link
validate_profile_link-refines x sleep found username url w quiet h =
    let name = x.crypto.to_lower username in
    let link = normalize_url x url in
    caught x name found sleep quiet link
      (continue (Redis.get x (links_key x name) w).0
        (λ o. answer_links x sleep name link (truthy o)) (Redis.get x (links_key x name) w).1)
      (then-After x name found (IsRead x name found) (IsAnswer x name found link)
        (Redis.get x (links_key x name) w) (λ o. answer_links x sleep name link (truthy o))
        (get-After x name found w h)
        (λ o v r c.
          answer_links-After x name found sleep quiet link (truthy o) v
            (truthy-IsRead x name found o r) c))

-- ===== src/Events/Links.antt =====
-- EventsService (modules/events/events.service.ts) and modules/events/utils/normalize-url.util.ts:
-- whether a link is on a profile's page, by a cached set of links.
pub mod Cached
use Prim.Native.Char.{code}
use open_profile_be.Entities.Content.{
  CtaSection, CtaType, LinkItem, LinksSection, ProfileContent, ProjectItem, ProjectsSection,
}
use open_profile_be.Entities.Pages.{Profile}
use open_profile_be.Exec.{
  Exception, catch, finally, gets, infrastructure, modify, pure, require, ◌>>=◌, ◌>>◌,
}
use open_profile_be.Prelude.{
  Bool, List, Option, String, [], ◌++◌, any, false, if◌then◌else◌, is_some, key, ltb, map, nat_eq,
  none, not, some, suc, true, truthy, zero, ℕ, ◌&&◌, ◌+◌, ◌-◌, ◌==◌, ◌∷◌,
}
use open_profile_be.Services.{Services, Url}
use open_profile_be.World.{App, World}
use open_profile_be.Redis

-- LINK_CACHE_TTL
abbrev pub link_cache_ttl : ℕ
link_cache_ttl = 300

abbrev pub chars : String → ℕ
chars String.[] = 0
chars (String.◌∷◌ c s) = suc (chars s)

-- `text.slice(0, n)`, by characters
abbrev pub take_chars : ℕ → String → String
take_chars zero s = ""
take_chars (suc n) String.[] = ""
take_chars (suc n) (String.◌∷◌ c s) = String.◌∷◌ c (take_chars n s)

-- `text.replace(/\/$/, '')`
abbrev pub without_slash : String → String
without_slash String.[] = ""
without_slash (String.◌∷◌ c s) =
    let rest = without_slash s in if s == "" && nat_eq (code c) 47 then "" else String.◌∷◌ c rest

abbrev pub trimmed_base : String → String
trimmed_base base = if ltb 1 (chars base) then without_slash base else base

-- The text before the first character with a code, and the text from there on.
abbrev pub before_code : ℕ → String → String
before_code n String.[] = ""
before_code n (String.◌∷◌ c s) =
    let rest = before_code n s in if nat_eq (code c) n then "" else String.◌∷◌ c rest

abbrev pub from_code : ℕ → String → String
from_code n String.[] = ""
from_code n (String.◌∷◌ c s) =
    let rest = from_code n s in if nat_eq (code c) n then String.◌∷◌ c s else rest

unfoldable pub normalize_parsed : Url → String
normalize_parsed u =
    let suffix_length = chars u.search + chars u.hash in
    let base =
      if ltb 0 suffix_length
      then take_chars (chars u.lowered_href - suffix_length) u.lowered_href
      else u.lowered_href in
    key (trimmed_base base) (key u.search u.hash)

-- The text is split at its first `#`, and what is before it at its first `?`.
unfoldable pub normalize_text : String → String
normalize_text url =
    let before_hash = before_code 35 url in
    key (trimmed_base (before_code 63 before_hash))
      (key (from_code 63 before_hash) (from_code 35 url))

abbrev pub normalize_as : Option Url → String → String
normalize_as none url = normalize_text url
normalize_as (some u) url = normalize_parsed u

-- A link of a page: whether it is valid, and whose profile it is.
pub record LinkCheck : Type 0 where
  pub valid : Bool
  pub profile_id : Option String

abbrev pub bad_json : Exception
bad_json = infrastructure "Unexpected token in JSON"

abbrev pub list_or_empty {ℓ} : {A : Type ℓ} → Option (List A) → List A
list_or_empty none = []
list_or_empty (some items) = items

abbrev pub includes : List String → String → Bool
includes urls url = any (λ u. u == url) urls

-- `new Set(urls)`, in the order of insertion.
abbrev pub insert_new : List String → List String → List String
insert_new seen [] = []
insert_new seen (u ∷ urls) =
    let rest = insert_new (u ∷ seen) urls in if includes seen u then rest else u ∷ rest

module _ (x : Services) where
  unfoldable pub normalize_url : String → String
  unfolding normalize_parsed normalize_text
  normalize_url url = normalize_as (x.web.parse_url url) url

  abbrev pub optional_url : Option String → List String
  optional_url none = []
  optional_url (some url) = normalize_url url ∷ []

  abbrev pub link_urls : Option LinksSection → List String
  link_urls none = []
  link_urls (some s) = map (λ (i : LinkItem). normalize_url i.url) (list_or_empty s.items)

  abbrev pub all_project_urls : List ProjectItem → List String
  all_project_urls [] = []
  all_project_urls (i ∷ items) =
      normalize_url i.repo_url ∷ (optional_url (truthy i.live_url) ++ all_project_urls items)

  abbrev pub project_urls : Option ProjectsSection → List String
  project_urls none = []
  project_urls (some s) = all_project_urls (list_or_empty s.items)

  abbrev pub is_link_type : Option CtaType → Bool
  is_link_type (some CtaType.link) = true
  is_link_type _ = false

  abbrev pub cta_urls : Option CtaSection → List String
  cta_urls none = []
  cta_urls (some s) = if is_link_type s.cta_type then optional_url (truthy s.value) else []

  unfoldable pub build_link_set : ProfileContent → List String
  unfolding normalize_url
  build_link_set c =
      insert_new [] (link_urls c.links_part ++ project_urls c.projects_part ++ cta_urls c.cta_part)

  abbrev pub links_key : String → String
  links_key name = key "profile:links:" name

  abbrev pub links_lock_key : String → String
  links_lock_key name = key "profile:links:lock:" name

  -- `where: { username, isPublished: true, deletedAt: IsNull() }`
  abbrev pub is_published_page : String → Profile → Bool
  is_published_page name p = p.username == name && p.is_published && not (is_some p.deleted_at)

  abbrev pub resolve_from_db : String → World x → Option Profile
  resolve_from_db name w = x.pages.profiles.find_one (is_published_page name) w.pages.profiles

  abbrev pub content_links : Option ProfileContent → List String
  content_links none = []
  content_links (some c) = build_link_set c

  -- What is cached for a profile, and for no profile.
  abbrev pub links_entry : Option Profile → Option String × List String
  links_entry none = (none, [])
  links_entry (some p) = (some p.id, content_links p.content)

  abbrev pub check_entry : String → Option String × List String → LinkCheck
  check_entry url e = record { valid = includes e.1 url; profile_id = e.0 }

  abbrev pub has_link : String → Option ProfileContent → Bool
  has_link url none = false
  has_link url (some c) = includes (build_link_set c) url

  -- The answer from the database alone.
  unfoldable pub check_profile : String → Option Profile → LinkCheck
  unfolding build_link_set
  check_profile url none = record { valid = false; profile_id = none }
  check_profile url (some p) = record { valid = has_link url p.content; profile_id = some p.id }

  unfoldable pub check_cached : (url text : String) → App x LinkCheck
  check_cached url text = do
    e ← require (x.tracking.parse_links text) bad_json
    pure (check_entry url e)

  abbrev pub check_from_db : (name url : String) → App x LinkCheck
  check_from_db name url = do found ← gets (resolve_from_db name); pure (check_profile url found)

  -- What runs under the lock.
  unfoldable pub cache_links : (name url : String) → App x LinkCheck
  unfolding Redis.set build_link_set check_profile
  cache_links name url = do
    found ← gets (resolve_from_db name)
    let e = links_entry found in
        do
          Redis.set x (links_key name) (x.tracking.stringify_links e.0 e.1) link_cache_ttl
          pure (check_profile url found)

  -- A sleep, in which others may act, is the argument.
  module _ (sleep : ℕ → World x → World x) where
    abbrev pub answer_retried : String → App x LinkCheck → Option String → App x LinkCheck
    answer_retried url rest none = rest
    answer_retried url rest (some text) = check_cached url text

    -- The polls of a request that has not got the lock.
    unfoldable pub poll_links : ℕ → (name url : String) → App x LinkCheck
    unfolding Redis.get check_cached check_profile
    poll_links zero name url = check_from_db name url
    poll_links (suc n) name url =
        let rest = poll_links n name url in
        do
          modify (sleep 100)
          retried ← Redis.get x (links_key name)
          answer_retried url rest (truthy retried)

    abbrev pub answer_locked : (name url : String) → Bool → App x LinkCheck
    answer_locked name url false = poll_links 3 name url
    answer_locked name url true = finally (cache_links name url) (Redis.del x (links_lock_key name))

    abbrev pub answer_links : (name url : String) → Option String → App x LinkCheck
    answer_links name url (some text) = check_cached url text
    answer_links name url none = do
      acquired ← Redis.set_nx x (links_lock_key name) "1" 5
      answer_locked name url acquired

    unfoldable pub validate_profile_link : (username link_url : String) → App x LinkCheck
    unfolding Redis.get Redis.set_nx Redis.del normalize_url check_cached poll_links cache_links
        check_profile
    validate_profile_link username link_url =
        let name = x.crypto.to_lower username in
        let url = normalize_url link_url in
        catch (do cached ← Redis.get x (links_key name); answer_links name url (truthy cached))
          (λ _. check_from_db name url)

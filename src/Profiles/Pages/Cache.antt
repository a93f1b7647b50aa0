-- ===== src/Profiles/Pages/Cache.antt =====
-- `getPublicProfile`: the cache of pages, the lock on a cold cache, and the check before a page is
-- cached.
use open_profile_be.Entities.Pages.{Profile}
use open_profile_be.Entities.PublicProfiles.{CachedPage, PublicProfile, not_found_mark, page}
use open_profile_be.Exec.{Exception, finally, gets, http, pure, throw, when, ◌>>=◌, ◌>>◌}
use open_profile_be.Prelude.{
  Bool, Option, String, false, is_some, key, none, not, some, true, truthy, ℕ, ◌&&◌, ◌==◌,
}
use open_profile_be.Profiles.Awards.{awards_section}
use open_profile_be.Profiles.Components.{components_section}
use open_profile_be.Profiles.EducationEntries.{education_section}
use open_profile_be.Profiles.Pages.{serialize}
use open_profile_be.Profiles.Skills.{skills_section}
use open_profile_be.Profiles.Visibility.{has_profile_id, ordered_rows}
use open_profile_be.Profiles.WorkExperienceEntries.{work_experience_section}
use open_profile_be.Samples.ToyRedis.{shown}
use open_profile_be.Services.{Services}
use open_profile_be.World.{App, World}
use open_profile_be.Redis

pub record PublicResponse : Type 0 where
  pub profile_id : String
  pub user_id : String
  pub shown : PublicProfile
  pub etag : String
  pub from_cache : Bool

abbrev pub page_not_found : Exception
page_not_found = http 404 "not_found"

-- CACHE_TTL_SECONDS and CACHE_404_TTL_SECONDS
abbrev pub cache_ttl : ℕ
cache_ttl = 60

abbrev pub cache_404_ttl : ℕ
cache_404_ttl = 30

abbrev pub is_open : Profile → Bool
is_open p = p.is_published && p.is_public && not (is_some p.deleted_at)

-- `where: { username, isPublished: true, isPublic: true, deletedAt: IsNull() }`
abbrev pub is_public_page : String → Profile → Bool
is_public_page name p = p.username == name && is_open p

abbrev pub still_public : Option Profile → Bool
still_public none = false
still_public (some p) = is_open p

module _ (x : Services) where
  abbrev pub page_key : String → String
  page_key name = key "profile:" name

  abbrev pub lock_key : String → String
  lock_key name = key "profile:lock:" name

  abbrev pub compute_etag : String → String
  compute_etag content = key "\"" (key (x.page_codec.md5 content) "\"")

  abbrev pub from_cached : String → CachedPage → App x PublicResponse
  from_cached text not_found_mark = throw page_not_found
  from_cached text (page profile_id user_id shown) = pure (record {
    profile_id = profile_id;
    user_id = user_id;
    shown = shown;
    etag = compute_etag text;
    from_cache = true;
  })

  -- The page of a profile, from the rows behind it.
  unfoldable pub read_page : Profile → World x → PublicProfile
  read_page p w =
      serialize p (ordered_rows x (skills_section x) p.id w)
        (ordered_rows x (education_section x) p.id w) (ordered_rows x (components_section x) p.id w)
        (ordered_rows x (work_experience_section x) p.id w)
        (ordered_rows x (awards_section x) p.id w)

  -- The flags are read again, and the page is cached where it is still public.
  unfoldable pub write_back : (name id text : String) → App x (Unit {0})
  unfolding Redis.set
  write_back name id text = do
    flags ← gets (λ w. x.pages.profiles.find_one (has_profile_id x id) w.pages.profiles)
    when (still_public flags) (Redis.set x (page_key name) text cache_ttl >> pure tt)

  abbrev pub answer_missing : String → App x PublicResponse
  answer_missing name = do
    Redis.set x (page_key name) (x.page_codec.stringify_page not_found_mark) cache_404_ttl
    throw page_not_found

  abbrev pub answer_page : String → Profile → App x PublicResponse
  answer_page name p = do
    shown ← gets (read_page p)
    let text = x.page_codec.stringify_page (page p.id p.user_id shown) in
        do
          write_back name p.id text
          pure (record {
            profile_id = p.id;
            user_id = p.user_id;
            shown = shown;
            etag = compute_etag text;
            from_cache = false;
          })

  abbrev pub answer_found : String → Option Profile → App x PublicResponse
  answer_found name none = answer_missing name
  answer_found name (some p) = answer_page name p

  -- What runs under the lock.
  unfoldable pub build_page : String → App x PublicResponse
  build_page name = do
    found ← gets (λ w. x.pages.profiles.find_one (is_public_page name) w.pages.profiles)
    answer_found name found

  -- A cold cache: the lock is taken if it is free, and given back whatever happens.
  unfoldable pub build_locked : String → App x PublicResponse
  unfolding Redis.set_nx Redis.del
  build_locked name = do
    acquired ← Redis.set_nx x (lock_key name) "1" cache_ttl
    finally (build_page name) (when acquired (Redis.del x (lock_key name)))

  abbrev pub answer_cached : String → Option String → App x PublicResponse
  answer_cached name none = build_locked name
  answer_cached name (some text) = from_cached text (x.page_codec.parse_page text)

  unfoldable pub get_public_profile : String → App x PublicResponse
  unfolding Redis.get
  get_public_profile username = do
    cached ← Redis.get x (page_key (x.crypto.to_lower username))
    answer_cached (x.crypto.to_lower username) (truthy cached)

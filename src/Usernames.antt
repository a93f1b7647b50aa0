-- ===== src/Usernames.antt =====
-- UsernamesService (modules/usernames/usernames.service.ts).
pub mod Grammar
use open_profile_be.Entities.Pages.{Profile}
use open_profile_be.Exec.{gets, pure}
use open_profile_be.Prelude.{
  Bool, List, Option, String, [], any, codes, false, if◌then◌else◌, is_between, is_some, length,
  ltb, nat_eq, none, not, some, true, ℕ, ◌&&◌, ◌==◌, ◌||◌, ◌∷◌,
}
use open_profile_be.Services.{Services}
use open_profile_be.World.{App}

-- RESERVED_USERNAMES of modules/usernames/data/reserved-keywords.ts
abbrev pub reserved_usernames : List String
reserved_usernames =
    "admin" ∷ "administrator" ∷ "root" ∷ "system" ∷ "api" ∷ "v1" ∷ "v2" ∷ "health" ∷ "status"
    ∷ "auth" ∷ "login" ∷ "logout" ∷ "register" ∷ "signup" ∷ "signin" ∷ "me" ∷ "self" ∷ "profile"
    ∷ "settings" ∷ "account" ∷ "dashboard" ∷ "home" ∷ "index" ∷ "search" ∷ "explore" ∷ "discover"
    ∷ "feed" ∷ "notifications" ∷ "support" ∷ "help" ∷ "security" ∷ "privacy" ∷ "legal" ∷ "terms"
    ∷ "abuse" ∷ "contact" ∷ "info" ∷ "noreply" ∷ "no-reply" ∷ "bot" ∷ "official" ∷ "team" ∷ "user"
    ∷ "username" ∷ "test" ∷ "demo" ∷ "anonymous" ∷ "guest" ∷ "null" ∷ "undefined" ∷ "true" ∷ "false"
    ∷ []

-- AMBIGUOUS_UNICODE_REGEX: a Cyrillic, a Greek or a Chinese character.
abbrev pub is_ambiguous : ℕ → Bool
is_ambiguous n = is_between 1024 1279 n || is_between 880 1023 n || is_between 19968 40959 n

-- `[a-z0-9]` and `[a-z0-9-]`
abbrev pub is_alphanumeric : ℕ → Bool
is_alphanumeric n = is_between 97 122 n || is_between 48 57 n

abbrev pub is_allowed_code : ℕ → Bool
is_allowed_code n = is_alphanumeric n || nat_eq n 45

abbrev pub all_allowed : List ℕ → Bool
all_allowed [] = true
all_allowed (c ∷ cs) = is_allowed_code c && all_allowed cs

-- Whether the last of the characters, the first of which is given, is in `[a-z0-9]`.
abbrev pub ends_alphanumeric : ℕ → List ℕ → Bool
ends_alphanumeric c [] = is_alphanumeric c
ends_alphanumeric c (d ∷ cs) = ends_alphanumeric d cs

-- FORMAT_REGEX: `^[a-z0-9]([a-z0-9-]*[a-z0-9])?$`
unfoldable pub matches_format : List ℕ → Bool
matches_format [] = false
matches_format (c ∷ cs) = is_alphanumeric c && all_allowed cs && ends_alphanumeric c cs

-- `/--/`
abbrev pub starts_with_hyphen : List ℕ → Bool
starts_with_hyphen [] = false
starts_with_hyphen (c ∷ cs) = nat_eq c 45

unfoldable pub has_double_hyphen : List ℕ → Bool
has_double_hyphen [] = false
has_double_hyphen (c ∷ cs) = (nat_eq c 45 && starts_with_hyphen cs) || has_double_hyphen cs

pub data UnavailableReason : Type 0 where
  invalid_format taken : UnavailableReason

pub data UsernameCheckResult : Type 0 where
  available : (normalized_username : String) → UsernameCheckResult
  unavailable : UnavailableReason → UsernameCheckResult

-- The tests of `check` on the text alone, in its order.
unfoldable pub has_invalid_format : String → Bool
unfolding matches_format has_double_hyphen
has_invalid_format name =
    any is_ambiguous (codes name)
    || ltb (length (codes name)) 3
    || ltb 30 (length (codes name))
    || not (matches_format (codes name))
    || has_double_hyphen (codes name)
    || any (λ word. word == name) reserved_usernames

-- `where: { username }`
-- `findOne({ where: { username } })`, which adds that the profile is not deleted.
abbrev pub has_username : String → Profile → Bool
has_username name p = p.username == name && not (is_some p.deleted_at)

module _ (x : Services) where
  abbrev pub normalized : String → String
  normalized raw = x.crypto.to_lower (x.env.trim raw)

  abbrev pub unless_taken : String → Option Profile → UsernameCheckResult
  unless_taken name none = available name
  unless_taken name (some p) = unavailable taken

  unfoldable pub check : String → App x UsernameCheckResult
  unfolding has_invalid_format
  check raw =
      if has_invalid_format (normalized raw)
      then pure (unavailable invalid_format)
      else gets (λ w.
        unless_taken (normalized raw)
          (x.pages.profiles.find_one (has_username (normalized raw)) w.pages.profiles))

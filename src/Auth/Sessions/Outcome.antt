-- ===== src/Auth/Sessions/Outcome.antt =====
-- What `refreshTokens` answers and does to the session's cookies.
use open_profile_be.Auth.RedisLock.{Others}
use open_profile_be.Auth.Tokens.{
  access_token_max_age_ms, get_cookie_options, refresh_token_max_age_ms, rotate_tokens,
  session_expired,
}
use open_profile_be.Exec.{Exception, Result, err, ok}
use open_profile_be.Prelude.{Option, String, [], none, some, true, false, ◌≡◌, ◌⊎◌, ◌++◌, ◌∷◌}
use open_profile_be.Services.{Services}
use open_profile_be.Services.Settings.{Tokens}
use open_profile_be.World.{World, clear_cookie, set_cookie}

module _ (x : Services) (others : Others x) where
  -- The session ended in a world: the answer, and its three cookies cleared.
  abbrev pub IsOver : World x → Result (Unit {0}) × World x → Type 0
  IsOver v m =
      (m.0 ≡ err session_expired)
      × (m.1 ≡ record v {
        cookies =
            v.cookies
            ++ clear_cookie "accessToken" (get_cookie_options x)
              ∷ clear_cookie "refreshToken" (get_cookie_options x)
              ∷ clear_cookie "auth" (get_cookie_options x)
              ∷ [];
      })

  -- The session went on from a world, with these tokens as its cookies.
  abbrev pub GoesOn : Tokens → World x → Result (Unit {0}) × World x → Type 0
  GoesOn t v m =
      (m.0 ≡ ok tt)
      × (m.1 ≡ record v {
        cookies =
            v.cookies
            ++ set_cookie "accessToken" t.access_token true access_token_max_age_ms
                (get_cookie_options x)
              ∷ set_cookie "refreshToken" t.refresh_token true refresh_token_max_age_ms
                  (get_cookie_options x)
              ∷ set_cookie "auth" "1" false refresh_token_max_age_ms (get_cookie_options x)
              ∷ [];
      })

  -- What the rotation of a token answered decides.
  abbrev pub Decided : Result Tokens × World x → Result (Unit {0}) × World x → Type 0
  Decided r m =
      ((t : Tokens) × (r.0 ≡ ok t) × GoesOn t r.1 m)
      ⊎ ((e : Exception) × (r.0 ≡ err e) × IsOver r.1 m)

  abbrev pub AnswersAs : Option String → World x → Result (Unit {0}) × World x → Type 0
  AnswersAs none w m = IsOver w m
  AnswersAs (some raw) w m = Decided (rotate_tokens x others raw w) m

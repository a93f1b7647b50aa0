-- ===== src/Services/Settings.antt =====
-- The settings that config/env.ts reads, and the JSON text of a pair of tokens.
use open_profile_be.Prelude.{ℕ, List, String, ◌≡◌, ◌≢◌, Option, some}

-- `RotatedTokens` of modules/auth/services/redis-lock.service.ts
pub record Tokens : Type 0 where
  pub access_token : String
  pub refresh_token : String

-- What `createOauthState` stores: the text of its `meta`, and the time.
pub record OauthState : Type 0 where
  pub meta : String
  pub created_at : ℕ

pub record Environment : Type 0 where
  pub node_env : String
  pub cookie_domain : String
  pub database_name : String
  pub frontend_url : String
  -- JWT_ACCESS_EXPIRES_IN, in seconds
  pub jwt_access_expires_in : ℕ
  pub invite_expiry_days : Option ℕ
  pub profile_view_milestones : List ℕ
  pub encode_uri_component : String → String
  -- `text.trim()`
  pub trim : String → String
  -- `new Date(t).toUTCString()`
  pub to_utc_string : ℕ → String
  pub stringify_tokens : Tokens → String
  pub parse_tokens : String → Option Tokens
  -- `JSON.stringify` and `JSON.parse` of the state of an OAuth flow
  pub stringify_state : OauthState → String
  pub parse_state : String → Option OauthState
  pub parse-stringify : (t : Tokens) → parse_tokens (stringify_tokens t) ≡ some t
  pub stringify-ne-empty : (t : Tokens) → stringify_tokens t ≢ ""

-- ===== src/Services/Security.antt =====
-- argon2, SHA-256, random values, text case and JSON Web Tokens. A random value is read by its
-- position in the sequence of random values.
use open_profile_be.Prelude.{ℕ, ◌<◌, String, ◌≡◌, Bool, true, Option, some}

pub record JwtPayload : Type 0 where
  pub sub : String
  pub email : String
  pub role : String
  pub onboarding_complete : Bool
  -- In seconds; absent in a token that does not expire.
  pub exp : Option ℕ

pub record ResetPayload : Type 0 where
  pub sub : String
  pub purpose : String

pub record Crypto : Type 0 where
  pub argon2_hash : ℕ → String → String
  pub argon2_verify : (hash plain : String) → Bool
  pub sha256 : String → String
  pub uuid : ℕ → String
  -- The place of an id in PostgreSQL's order of UUIDs, which is that of their 128 bits.
  pub uuid_order : String → ℕ
  pub random_hex : ℕ → String
  pub random_otp : ℕ → String
  pub to_lower : String → String
  -- Tokens under JWT_ACCESS_SECRET and under JWT_RESET_SECRET. A check is made at a second.
  pub sign_access : JwtPayload → String
  pub verify_access : ℕ → String → Option JwtPayload
  pub verify_access_ignoring_expiration : String → Option JwtPayload
  pub sign_reset : (exp : ℕ) → ResetPayload → String
  pub verify_reset : ℕ → String → Option ResetPayload
  pub verify-hash :
      (salt : ℕ) (plain : String) → argon2_verify (argon2_hash salt plain) plain ≡ true
  pub verify-sign_access :
      (now exp : ℕ) (p : JwtPayload)
      → p.exp ≡ some exp
      → now < exp
      → verify_access now (sign_access p) ≡ some p
  pub verify-sign_reset :
      (now exp : ℕ) (p : ResetPayload) → now < exp → verify_reset now (sign_reset exp p) ≡ some p

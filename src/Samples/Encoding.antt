-- ===== src/Samples/Encoding.antt =====
-- Texts that hold several fields: each character of a field stands behind an `x`, and a full stop
-- ends the field.
use Prim.Native.Char.{code}
use open_profile_be.Prelude.{
  Bool, Option, String, ap, arith, false, if◌then◌else◌, ltb, lt→ltb, nat_eq, none, refl, some, suc,
  true, zero, ℕ, ◌<◌, ◌∙◌, ◌≡◌, ◌≢◌,
}
use open_profile_be.Services.Security.{JwtPayload, ResetPayload}
use open_profile_be.Services.Settings.{Tokens}

abbrev pub put : String → String → String
put String.[] rest = String.◌∷◌ "." rest
put (String.◌∷◌ c s) rest = String.◌∷◌ "x" (String.◌∷◌ c (put s rest))

abbrev pub take : String → String × String
take String.[] = ("", "")
take (String.◌∷◌ mark String.[]) = ("", "")
take (String.◌∷◌ mark (String.◌∷◌ c s)) =
    let later = take s in
    if nat_eq (code mark) b'x' then (String.◌∷◌ c later.0, later.1) else ("", String.◌∷◌ c s)

pub take-put : (s rest : String) → take (put s rest) ≡ (s, rest)
take-put String.[] String.[] = refl
take-put String.[] (String.◌∷◌ c rest) = refl
take-put (String.◌∷◌ c s) rest = rw (take-put s rest)

abbrev pub unary : ℕ → String
unary zero = ""
unary (suc n) = String.◌∷◌ "i" (unary n)

abbrev pub size : String → ℕ
size String.[] = 0
size (String.◌∷◌ c s) = suc (size s)

pub size-unary : (n : ℕ) → size (unary n) ≡ n
size-unary zero = refl
size-unary (suc n) = ap suc (size-unary n)

-- A token of an account: its claims.
abbrev pub flag : Bool → String
flag true = "t"
flag false = ""

abbrev pub read_flag : String → Bool
read_flag String.[] = false
read_flag (String.◌∷◌ c s) = true

pub read_flag-flag : (b : Bool) → read_flag (flag b) ≡ b
read_flag-flag true = refl
read_flag-flag false = refl

abbrev pub optional : Option ℕ → String
optional none = ""
optional (some n) = unary (suc n)

abbrev pub read_optional : String → Option ℕ
read_optional String.[] = none
read_optional (String.◌∷◌ c s) = some (size s)

pub read_optional-optional : (o : Option ℕ) → read_optional (optional o) ≡ o
read_optional-optional none = refl
read_optional-optional (some n) = ap some (size-unary n)

abbrev pub signed : JwtPayload → String
signed p =
    put p.sub
      (put p.email (put p.role (put (flag p.onboarding_complete) (put (optional p.exp) ""))))

abbrev pub opened : String → JwtPayload
opened token =
    let (sub, r1) = take token in
    let (mail, r2) = take r1 in
    let (role, r3) = take r2 in
    let (onboarding, r4) = take r3 in
    record {
      sub = sub;
      email = mail;
      role = role;
      onboarding_complete = read_flag onboarding;
      exp = read_optional (take r4).0;
    }

pub opened-signed : (p : JwtPayload) → opened (signed p) ≡ p
opened-signed p = simp (take-put, read_flag-flag, read_optional-optional)

abbrev pub not_past : ℕ → Option ℕ → Bool
not_past now none = true
not_past now (some exp) = ltb now exp

abbrev pub unless_past : ℕ → JwtPayload → Option JwtPayload
unless_past now p = if not_past now p.exp then some p else none

abbrev pub verified_at : ℕ → String → Option JwtPayload
verified_at now token = unless_past now (opened token)

pub verified_at-signed :
    (now exp : ℕ) (p : JwtPayload)
    → p.exp ≡ some exp
    → now < exp
    → verified_at now (signed p) ≡ some p
verified_at-signed now exp p e h =
    ap (unless_past now) (opened-signed p) ∙ ground (arith, lt→ltb now exp h)

abbrev pub signed_reset : ℕ → ResetPayload → String
signed_reset exp p = put p.sub (put p.purpose (unary exp))

abbrev pub verified_reset : ℕ → String → Option ResetPayload
verified_reset now token =
    let (sub, r1) = take token in
    let (purpose, r2) = take r1 in
    if ltb now (size r2) then some (record { sub = sub; purpose = purpose }) else none

pub verified_reset-signed :
    (now exp : ℕ) (p : ResetPayload) → now < exp → verified_reset now (signed_reset exp p) ≡ some p
verified_reset-signed now exp p h = simp (take-put, size-unary) (rw (lt→ltb now exp h))

abbrev pub written : Tokens → String
written t = put t.access_token (put t.refresh_token "")

abbrev pub read : String → Option Tokens
read s =
    let (access_token, rest) = take s in
    some (record { access_token = access_token; refresh_token = (take rest).0 })

pub read-written : (t : Tokens) → read (written t) ≡ some t
read-written t = simp take-put

pub put-ne-empty : (s rest : String) → put s rest ≢ ""
put-ne-empty String.[] rest = λ e. omega (arith, ap size e)
put-ne-empty (String.◌∷◌ c s) rest = λ e. omega (arith, ap size e)

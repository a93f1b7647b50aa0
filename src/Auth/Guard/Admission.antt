-- ===== src/Auth/Guard/Admission.antt =====
-- Whom the guard lets through.
use open_profile_be.Auth.Guard.{
  GuardRequest, access_token_of, admit, after_identification, after_rotation, after_verification,
  attempt_refresh, can_activate, refreshed, inactive_after_refresh, can_activate_private,
  can_activate_public, identify, rotate_and_verify,
}
use open_profile_be.Auth.RedisLock.{Others}
use open_profile_be.Auth.Tokens.{
  clear_token_cookies, rotate_tokens, set_token_cookies, verify_access_token,
}
use open_profile_be.Auth.UserStatusCache.{find_account, is_active, read_through, resolve_status}
use open_profile_be.Exec.{
  Result, Returned, continue, err, http, infrastructure, ok, refresh_in_progress,
}
use open_profile_be.Prelude.{
  Bool, if◌then◌else◌, inl, inr, subst, sym, ◌⊎◌, Option, String, arith, false, none, refl, some,
  true, truthy, ◌≡◌,
}
use open_profile_be.Services.{Services}
use open_profile_be.Services.Security.{JwtPayload}
use open_profile_be.Services.Settings.{Tokens}
use open_profile_be.World.{World, now_seconds}

Returned-cases {ℓ} : {A : Type ℓ} (r : Result A) → Returned r → (a : A) × (r ≡ ok a)
Returned-cases (ok a) h = (a, refl)
Returned-cases (err e) h = absurd h

module _ (x : Services) where
  -- The check of an account returns where the database answers, whether or not Redis does.
  pub is_active-Returned :
      (user_id : String) (w : World x) → w.database_up ≡ true → Returned (is_active x user_id w).0
  unfolding is_active resolve_status read_through find_account
  is_active-Returned user_id w answers = ground (arith, answers)

  module _ (others : Others x) where
    after_rotation-silent :
        (outcome : Result (Tokens × JwtPayload)) (w : World x)
        → w.database_up ≡ true
        → (after_rotation x others true outcome w).0 ≡ ok true
    unfolding after_rotation
    after_rotation-silent (err e) w answers = refl
    after_rotation-silent (ok (tokens, payload)) w answers =
        let (b, e) = Returned-cases _ (is_active-Returned payload.sub w answers) in
        rw e (ground arith)

    -- A silent refresh never rejects a request, where the database answers once it has rotated.
    attempt_refresh-silent :
        (raw : Option String) (w : World x)
        → ((given : String)
            → raw ≡ some given
            → (rotate_and_verify x others given w).1.database_up ≡ true)
        → (attempt_refresh x others raw true w).0 ≡ ok true
    unfolding attempt_refresh
    attempt_refresh-silent none w answers = refl
    attempt_refresh-silent (some raw) w answers = after_rotation-silent _ _ (answers raw refl)

    after_identification-ok :
        (raw : Option String) (outcome : Result (Unit {0})) (w : World x)
        → ((given : String)
            → raw ≡ some given
            → (rotate_and_verify x others given w).1.database_up ≡ true)
        → (after_identification x others raw outcome w).0 ≡ ok true
    after_identification-ok raw (ok _) w answers = refl
    after_identification-ok raw (err e) w answers = rw (attempt_refresh-silent raw w answers)

    can_activate_public-ok :
        (r : GuardRequest) (token : Option String) (w : World x)
        → ((t raw : String)
            → token ≡ some t
            → truthy r.refresh_cookie ≡ some raw
            → (rotate_and_verify x others raw (identify x others t w).1).1.database_up ≡ true)
        → (can_activate_public x others r token w).0 ≡ ok true
    unfolding can_activate_public
    can_activate_public-ok r none w answers = refl
    can_activate_public-ok r (some token) w answers =
        after_identification-ok (truthy r.refresh_cookie) (identify x others token w).0
          (identify x others token w).1 (λ raw given. answers token raw refl given)

    -- A public route is open to every request: whatever its tokens, and whether or not Redis, the
    -- rotation and the first check of the account answer. Only where the database fails the check
    -- of the account after a rotation is this not said.
    pub can_activate-public :
        (r : GuardRequest) (w : World x)
        → r.is_public ≡ true
        → ((token raw : String)
            → access_token_of r ≡ some token
            → truthy r.refresh_cookie ≡ some raw
            → (rotate_and_verify x others raw (identify x others token w).1).1.database_up ≡ true)
        → (can_activate x others r w).0 ≡ ok true
    unfolding can_activate
    can_activate-public r w public answers =
        rw public (can_activate_public-ok r (access_token_of r) w answers)

    -- The access token of the request: verified at the request's time, of an account that the check
    -- then found active.
    pub record ByToken (r : GuardRequest) (w after : World x) : Type 0 where
      pub token : String
      pub payload : JwtPayload
      pub given : access_token_of r ≡ some token
      pub verified : x.crypto.verify_access (now_seconds x w) token ≡ some payload
      pub found_active : (is_active x payload.sub w).0 ≡ ok true
      pub identified : after.request_user ≡ some payload

    -- The refresh token of the request: rotated, and the new access token verified, of an account
    -- that the check found active in the world that the rotation left.
    pub record ByRefresh (r : GuardRequest) (w after : World x) : Type 0 where
      pub raw : String
      pub tokens : Tokens
      pub payload : JwtPayload
      pub given : truthy r.refresh_cookie ≡ some raw
      pub rotated : (rotate_tokens x others raw w).0 ≡ ok tokens
      pub verified :
          x.crypto.verify_access
            (now_seconds x (rotate_tokens x others raw w).1)
            tokens.access_token
          ≡ some payload
      pub found_active : (is_active x payload.sub (rotate_tokens x others raw w).1).0 ≡ ok true
      pub identified : after.request_user ≡ some payload

    abbrev pub Admitted : GuardRequest → World x → World x → Type 0
    Admitted r w after = ByToken r w after ⊎ ByRefresh r w after

    rotate_and_verify-verified :
        (raw : String) (w : World x) (tokens : Tokens) (p : JwtPayload)
        → (rotate_and_verify x others raw w).0 ≡ ok (tokens, p)
        → ((rotate_tokens x others raw w).0 ≡ ok tokens)
          × (x.crypto.verify_access
                (now_seconds x (rotate_tokens x others raw w).1)
                tokens.access_token
              ≡ some p)
          × ((rotate_and_verify x others raw w).1 ≡ (rotate_tokens x others raw w).1)
    unfolding rotate_and_verify verify_access_token
    rotate_and_verify-verified raw w tokens p e = (ground arith, ground arith, ground arith)

    live_only :
        (m : Result Bool × World x) (tokens : Tokens) (p : JwtPayload)
        → (continue m.0
            (λ b. if b then refreshed x others tokens p else inactive_after_refresh x others false)
            m.1).0
          ≡ ok true
        → (m.0 ≡ ok true)
          × ((continue m.0
                (λ b.
                  if b then refreshed x others tokens p else inactive_after_refresh x others false)
                m.1).1.request_user
              ≡ some p)
    unfolding set_token_cookies clear_token_cookies
    live_only (ok true, v) tokens p e = (refl, refl)
    live_only (ok false, v) tokens p e = absurd (ground (arith, e))
    live_only (err _, v) tokens p e = absurd (ground (arith, e))

    after_rotation-live :
        (outcome : Result (Tokens × JwtPayload)) (w : World x)
        → (after_rotation x others false outcome w).0 ≡ ok true
        → (tokens : Tokens) × (p : JwtPayload) × (outcome ≡ ok (tokens, p))
          × ((is_active x p.sub w).0 ≡ ok true)
          × ((after_rotation x others false outcome w).1.request_user ≡ some p)
    unfolding after_rotation
    after_rotation-live (err refresh_in_progress) w e = cc
    after_rotation-live (err (http status code)) w e = absurd (ground (arith, e))
    after_rotation-live (err (infrastructure m)) w e = absurd (ground (arith, e))
    after_rotation-live (ok (tokens, p)) w e =
        let (found, identified) = live_only (is_active x p.sub w) tokens p e in
        (tokens, p, refl, found, identified)

    attempt_refresh-Admitted :
        (r : GuardRequest) (raw : Option String) (w : World x)
        → truthy r.refresh_cookie ≡ raw
        → (attempt_refresh x others raw false w).0 ≡ ok true
        → Admitted r w (attempt_refresh x others raw false w).1
    unfolding attempt_refresh
    attempt_refresh-Admitted r none w given e = cc
    attempt_refresh-Admitted r (some raw) w given e =
        let m = rotate_and_verify x others raw w in
        let (tokens, p, outcome, found, identified) = after_rotation-live m.0 m.1 e in
        let (rotated, verified, same) = rotate_and_verify-verified raw w tokens p outcome in
        inr (record {
          raw = raw;
          tokens = tokens;
          payload = p;
          given = given;
          rotated = rotated;
          verified = verified;
          found_active = subst (λ (v : World x). (is_active x p.sub v).0 ≡ ok true) same found;
          identified = identified;
        })

    admit-live :
        (r : GuardRequest) (payload : JwtPayload) (w : World x)
        → (admit x others r payload w).0 ≡ ok true
        → ((is_active x payload.sub w).0 ≡ ok true)
          × ((admit x others r payload w).1.request_user ≡ some payload)
    unfolding admit clear_token_cookies
    admit-live r payload w e = (ground (arith, e), ground (arith, e))

    after_verification-Admitted :
        (r : GuardRequest) (token : String) (outcome : Result JwtPayload) (w : World x)
        → access_token_of r ≡ some token
        → ((p : JwtPayload)
            → outcome ≡ ok p
            → x.crypto.verify_access (now_seconds x w) token ≡ some p)
        → (after_verification x others r outcome w).0 ≡ ok true
        → Admitted r w (after_verification x others r outcome w).1
    after_verification-Admitted r token (ok p) w given v e =
        let (found, identified) = admit-live r p w e in
        inl (record {
          token = token;
          payload = p;
          given = given;
          verified = v p refl;
          found_active = found;
          identified = identified;
        })
    after_verification-Admitted r token (err _) w given v e =
        attempt_refresh-Admitted r (truthy r.refresh_cookie) w refl e

    verify_access_token-verified :
        (token : String) (w : World x) (p : JwtPayload)
        → (verify_access_token x token w).0 ≡ ok p
        → x.crypto.verify_access (now_seconds x w) token ≡ some p
    unfolding verify_access_token
    verify_access_token-verified token w p e = ground arith

    verify_access_token-world :
        (token : String) (w : World x) → (verify_access_token x token w).1 ≡ w
    unfolding verify_access_token
    verify_access_token-world token w = ground arith

    can_activate_private-Admitted :
        (r : GuardRequest) (token : Option String) (w : World x)
        → access_token_of r ≡ token
        → (can_activate_private x others r token w).0 ≡ ok true
        → Admitted r w (can_activate_private x others r token w).1
    unfolding can_activate_private
    can_activate_private-Admitted r none w given e =
        attempt_refresh-Admitted r (truthy r.refresh_cookie) w refl e
    can_activate_private-Admitted r (some token) w given e =
        let outcome = (verify_access_token x token w).0 in
        let Goal : (World x → Type 0) = (λ v.
          (after_verification x others r outcome v).0 ≡ ok true
          → Admitted r w (after_verification x others r outcome v).1) in
        subst Goal (sym (verify_access_token-world token w))
          (after_verification-Admitted r token outcome w given
            (verify_access_token-verified token w))
          e

    -- A private route lets a request through only by its own access token, verified at the time of
    -- the request and of an account that the check found active, or by its own refresh token,
    -- rotated, with the new access token verified and its account found active after the rotation.
    -- The requester is then the one of that token.
    pub can_activate-Admitted :
        (r : GuardRequest) (w : World x)
        → r.is_public ≡ false
        → (can_activate x others r w).0 ≡ ok true
        → Admitted r w (can_activate x others r w).1
    unfolding can_activate
    can_activate-Admitted r w private e =
        simp private
          (can_activate_private-Admitted r (access_token_of r) w refl (simp private at e))

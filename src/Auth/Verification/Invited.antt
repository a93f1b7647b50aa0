-- ===== src/Auth/Verification/Invited.antt =====
-- What an invite does to the verification of an address.
use open_profile_be.Auth.Codes.{
  Cookies, StoredOtp, check_otp, merge_anonymous_identity_if_present, start_session, stored_otp,
}
use open_profile_be.Auth.Tokens.{
  create_refresh_token_record, generate_access_token, generate_refresh_token, save_token,
  set_token_cookies,
}
use open_profile_be.Auth.Verification.{
  VerifiedUser, already_verified, claim_quietly, no_account, no_otp, verify_otp,
  verify_otp_attempts_key,
}
use open_profile_be.Entities.{Invite, User}
use open_profile_be.Exec.{Result, catch, continue, err, ok, pure, require, throw_if, ◌>>=◌, ◌>>◌}
use open_profile_be.Exec.Laws.{same_answer}
use open_profile_be.Prelude.{
  List, Option, String, ap, arith, none, refl, some, sym, truthy, ◌∙◌, ◌∷◌, ◌≡◌,
}
use open_profile_be.Services.{Services}
use open_profile_be.World.{App, Event, World, invite_claimed}
use open_profile_be.Invites
use open_profile_be.Users

module _ (x : Services) where
  -- A world with other invites and other events.
  abbrev with_invites : x.invites.Table → List Event → World x → World x
  with_invites t es w = record w { invites = t; events = es }

  -- An attempt to claim that may have changed the invites and the events, and nothing else.
  abbrev IsQuiet : World x → Result (Unit {0}) × World x → Type 0
  IsQuiet w m =
      (m.0 ≡ ok tt) × ((t : x.invites.Table) × (es : List Event) × (m.1 ≡ with_invites t es w))

  -- A claim ends in one of two ways: refused, or with its event.
  result-IsQuiet :
      (id : String) (o : Option Invite) (t : x.invites.Table) (w : World x)
      → IsQuiet w (catch (Invites.claim_result x id o) (λ _. pure tt) (record w { invites = t }))
  result-IsQuiet id none t w = (refl, (t, w.events, refl))
  result-IsQuiet id (some i) t w =
      (refl, (t, invite_claimed i.id i.inviter_user_id id ∷ w.events, refl))

  claim_quietly-IsQuiet :
      (o : Option String) (id address : String) (w : World x)
      → IsQuiet w (claim_quietly x o id address w)
  unfolding claim_quietly Invites.claim_invite
  claim_quietly-IsQuiet none id address w = (refl, (w.invites, w.events, refl))
  claim_quietly-IsQuiet (some token) id address w =
      let test = Invites.is_claimable id (x.crypto.sha256 token) address w.now in
      result-IsQuiet id (x.invites.find_one test w.invites)
        (x.invites.update test (Invites.claimed_by id w.now) w.invites) w

  start_session-frame :
      (cookies : Cookies) (u : User) (t : x.invites.Table) (es : List Event) (w : World x)
      → (start_session x cookies u (with_invites t es w)).0 ≡ (start_session x cookies u w).0
  unfolding start_session generate_access_token generate_refresh_token create_refresh_token_record
      save_token set_token_cookies merge_anonymous_identity_if_present
  start_session-frame cookies u t es w = ground arith

  abbrev verified_user : User → VerifiedUser
  verified_user u = record {
    id = u.id;
    email = u.email;
    role = u.role;
    onboarding_complete = u.onboarding_complete;
  }

  abbrev session_of : Cookies → User → App x VerifiedUser
  session_of cookies u = start_session x cookies u >> pure (verified_user u)

  then_pure :
      (r : Result (Unit {0})) (v : VerifiedUser) (w w' : World x)
      → (continue r (λ _. pure v) w).0 ≡ (continue r (λ _. pure v) w').0
  then_pure (ok _) v w w' = refl
  then_pure (err e) v w w' = refl

  session_of-frame :
      (cookies : Cookies) (u : User) (t : x.invites.Table) (es : List Event) (w : World x)
      → (session_of cookies u (with_invites t es w)).0 ≡ (session_of cookies u w).0
  session_of-frame cookies u t es w =
      let v = with_invites t es w in
      ap (λ r. (continue r (λ _. pure (verified_user u)) (start_session x cookies u v).1).0)
        (start_session-frame cookies u t es w)
      ∙ then_pure (start_session x cookies u w).0 (verified_user u) (start_session x cookies u v).1
          (start_session x cookies u w).1

  invited-session :
      (o : Option String) (address : String) (cookies : Cookies) (u : User) (w : World x)
      → ((claim_quietly x o u.id address >> session_of cookies u) w).0 ≡ (session_of cookies u w).0
  invited-session o address cookies u w =
      let (fine, (t, es, after)) = claim_quietly-IsQuiet o u.id address w in
      rw (fine, after) (session_of-frame cookies u t es w)

  module _ (address otp : String) where
    abbrev code_key : String
    code_key = verify_otp_attempts_key (x.crypto.to_lower address)

    -- `verifyOtp` with what it does once the code is accepted left open.
    abbrev with_otp : (User → App x VerifiedUser) → User → StoredOtp → App x VerifiedUser
    with_otp k u code = check_otp x code_key u.id code otp >> k u

    abbrev with_account : (User → App x VerifiedUser) → User → App x VerifiedUser
    with_account k u =
        throw_if u.is_verified already_verified >> (require (stored_otp u) no_otp >>= with_otp k u)

    abbrev verify_then : (User → App x VerifiedUser) → App x VerifiedUser
    verify_then k = Users.find_by_email x (x.crypto.to_lower address) >>= λ o.
        require o no_account >>= with_account k

    module _ (k l : User → App x VerifiedUser)
        (alike : (u : User) (w : World x) → (k u w).0 ≡ (l u w).0) where
      with_otp-alike :
          (u : User) (code : StoredOtp) (w : World x)
          → (with_otp k u code w).0 ≡ (with_otp l u code w).0
      with_otp-alike u code w =
          let r = check_otp x code_key u.id code otp w in
          same_answer r.0 (λ _. k u) (λ _. l u) (λ _. alike u) r.1

      with_account-alike :
          (u : User) (w : World x) → (with_account k u w).0 ≡ (with_account l u w).0
      with_account-alike u w =
          let m : World x → Result (Unit {0}) × World x = throw_if u.is_verified already_verified in
          let o = stored_otp u in
          same_answer (m w).0 (λ _. require o no_otp >>= with_otp k u)
            (λ _. require o no_otp >>= with_otp l u)
            (λ _ v.
              same_answer (require o no_otp v).0 (with_otp k u) (with_otp l u) (with_otp-alike u)
                (require o no_otp v).1)
            (m w).1

      verify_then-alike : (w : World x) → (verify_then k w).0 ≡ (verify_then l w).0
      verify_then-alike w =
          let m = Users.find_by_email x (x.crypto.to_lower address) w in
          same_answer m.0 (λ o. require o no_account >>= with_account k)
            (λ o. require o no_account >>= with_account l)
            (λ o v.
              same_answer (require o no_account v).0 (with_account k) (with_account l)
                with_account-alike (require o no_account v).1)
            m.1

    -- `verifyOtp` without its invite.
    abbrev uninvited : Cookies → App x VerifiedUser
    uninvited cookies = verify_then (session_of cookies)

    verify_otp-uninvited :
        (invite_token : Option String) (cookies : Cookies) (w : World x)
        → (verify_otp x address otp invite_token cookies w).0 ≡ (uninvited cookies w).0
    unfolding verify_otp
    verify_otp-uninvited invite_token cookies w =
        verify_then-alike
          (λ u.
            claim_quietly x (truthy invite_token) u.id (x.crypto.to_lower address)
            >> session_of cookies u)
          (session_of cookies)
          (λ u. invited-session (truthy invite_token) (x.crypto.to_lower address) cookies u) w

    -- An invite that comes with a code, good, spent, expired or made up, or none at all, does not
    -- change what the verification of the address answers.
    pub verify_otp-invites :
        (one other : Option String) (cookies : Cookies) (w : World x)
        → (verify_otp x address otp one cookies w).0 ≡ (verify_otp x address otp other cookies w).0
    verify_otp-invites one other cookies w =
        verify_otp-uninvited one cookies w ∙ sym (verify_otp-uninvited other cookies w)

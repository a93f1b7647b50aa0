-- ===== src/Invites.antt =====
-- InvitesService (modules/invites/invites.service.ts).
pub mod Claims
use open_profile_be.Entities.{Invite, email}
use open_profile_be.Exec.{
  Exception, catch, gets, http, modify, pure, require, throw, throw_if, when, ◌>>=◌, ◌>>◌,
}
use open_profile_be.Prelude.{
  Bool, Option, String, is_some, key, ltb, none, not, some, suc, ℕ, ◌&&◌, ◌*◌, ◌+◌, ◌==◌,
}
use open_profile_be.Queue.{add_job}
use open_profile_be.Services.{Services}
use open_profile_be.World.{App, World, draw, emit, invite_claimed, invite_sent, stored}
use open_profile_be.RateLimiter
use open_profile_be.Users

abbrev pub pending_invite : Exception
pending_invite = http 409 "You already have a pending invite to this email address."

abbrev pub invalid_claim : Exception
invalid_claim = http 400 "This invite is invalid, expired, or already claimed."

abbrev pub invite_email_failed : Exception
invite_email_failed = http 500 "Failed to send invite email. Please try again."

-- `where: { recipientEmail, inviterUserId, claimedAt: IsNull() }`
abbrev pub is_pending : String → String → Invite → Bool
is_pending inviter recipient i =
    i.recipient_email == recipient && i.inviter_user_id == inviter && not (is_some i.claimed_at)

abbrev pub has_invite_id : String → Invite → Bool
has_invite_id id i = i.id == id

abbrev pub has_token : String → Invite → Bool
has_token hash i = i.token == hash

-- The WHERE clause of the UPDATE of `claimInvite`.
unfoldable pub is_claimable : (claimant hash email : String) (now : ℕ) → Invite → Bool
is_claimable claimant hash address now i =
    i.token == hash
    && not (is_some i.claimed_at)
    && ltb now i.expires_at
    && not (i.inviter_user_id == claimant)
    && i.recipient_email == address

-- Its SET clause.
abbrev pub claimed_by : String → ℕ → Invite → Invite
claimed_by claimant now i = record i { claimed_at = some now; claimed_by_user_id = some claimant }

pub record CreatedInvite : Type 0 where
  pub id : String
  pub recipient_email : String
  pub expires_at : ℕ

pub record InviteLookup : Type 0 where
  pub recipient_email : String
  pub expires_at : ℕ

module _ (x : Services) where
  abbrev pub put_invites : World x → x.invites.Table → World x
  put_invites w t = record w { invites = t }

  unfoldable pub delete_invites : (Invite → Bool) → App x (Unit {0})
  delete_invites p = modify λ w. record w { invites = (x.invites.delete p w.invites).1 }

  -- A pending invite that is still good blocks a new one; one that expired is deleted.
  abbrev pub replace_pending : Option Invite → App x (Unit {0})
  replace_pending none = pure tt
  replace_pending (some i) = do
    now ← gets (λ w. w.now)
    throw_if (ltb now i.expires_at) pending_invite
    delete_invites (has_invite_id i.id)

  abbrev pub expiry_days : ℕ
  expiry_days = elim x.env.invite_expiry_days [ none ↦ 7 | some d ↦ d ]

  -- The row of a new invite; its token and its id are the next random values.
  abbrev pub invite_row : String → String → World x → Invite
  invite_row inviter recipient w = record {
    id = x.crypto.uuid (suc w.drawn);
    inviter_user_id = inviter;
    recipient_email = recipient;
    token = x.crypto.sha256 (x.crypto.uuid w.drawn);
    expires_at = w.now + expiry_days * 24 * 60 * 60 * 1000;
    clicked_at = none;
    claimed_at = none;
    claimed_by_user_id = none;
    created_at = w.now;
  }

  abbrev pub signup_url : String → String → String
  signup_url recipient token =
      key x.env.frontend_url
        (key "/signup?email=" (key (x.env.encode_uri_component recipient) (key "&invite=" token)))

  -- `stored` throws nothing but the code 23505, which is a conflict here.
  unfoldable pub save_invite : Invite → App x (Unit {0})
  save_invite i w =
      (catch (stored x put_invites (x.invites.insert i w.invites)) (λ _. throw pending_invite)) w

  -- The invite is stored, mailed and announced; without its mail it is deleted again.
  unfoldable pub send_invite : Invite → String → App x CreatedInvite
  unfolding save_invite delete_invites add_job
  send_invite i token = do
    save_invite i
    catch
        (add_job x (record {
          name = "send-invite-email";
          to = i.recipient_email;
          content = signup_url i.recipient_email token;
        }))
        (λ _. delete_invites (has_invite_id i.id) >> throw invite_email_failed)
    emit x (invite_sent i.inviter_user_id i.id)
    pure (record { id = i.id; recipient_email = i.recipient_email; expires_at = i.expires_at })

  unfoldable pub create_invite : String → String → App x CreatedInvite
  unfolding send_invite RateLimiter.is_allowed
  create_invite inviter recipient = do
    allowed ← RateLimiter.is_allowed x (key "invite:" inviter) 10 3600
    throw_if (not allowed) (http 429 "INVITE_RATE_LIMIT_EXCEEDED")
    existing_user ← gets (λ w. x.users.find_one (Users.has_email recipient) w.users)
    throw_if (is_some existing_user) (http 409 "An account with this email already exists.")
    existing_invite ← gets (λ w. x.invites.find_latest (is_pending inviter recipient) w.invites)
    replace_pending existing_invite
    i ← gets (invite_row inviter recipient)
    token ← draw x
    draw x
    send_invite i (x.crypto.uuid token)

  abbrev pub claim_result : String → Option Invite → App x (Unit {0})
  claim_result claimant none = throw invalid_claim
  claim_result claimant (some i) = emit x (invite_claimed i.id i.inviter_user_id claimant)

  -- One UPDATE … RETURNING: the rows that the clause selects, and the table with them claimed.
  unfoldable pub claim_invite : (token claimant email : String) → App x (Unit {0})
  unfolding is_claimable
  claim_invite token claimant address = do
    now ← gets (λ w. w.now)
    let test = is_claimable claimant (x.crypto.sha256 token) address now
    returned ← gets (λ w. x.invites.find_one test w.invites)
    modify (λ w. record w { invites = x.invites.update test (claimed_by claimant now) w.invites })
    claim_result claimant returned

  -- The checks of `recordInviteClick` on the invite that it found, and the first click.
  unfoldable pub click : Invite → App x InviteLookup
  click i = do
    throw_if (is_some i.claimed_at)
        (http 400 "This invite has already been used. Please log in instead.")
    now ← gets (λ w. w.now)
    throw_if (ltb i.expires_at now) (http 400 "This invite has expired. Please ask for a new one.")
    when (not (is_some i.clicked_at)) (
        modify (λ w. record w {
          invites =
              x.invites.update (has_invite_id i.id) (λ j. record j { clicked_at = some now })
                w.invites;
        }))
    pure (record { recipient_email = i.recipient_email; expires_at = i.expires_at })

  unfoldable pub record_invite_click : String → App x InviteLookup
  unfolding click
  record_invite_click token = do
    found ← gets (λ w. x.invites.find_one (has_token (x.crypto.sha256 token)) w.invites)
    i ← require found (http 400 "This invite link is invalid.")
    click i

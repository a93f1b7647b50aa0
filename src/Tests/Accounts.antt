-- ===== src/Tests/Accounts.antt =====
-- Accounts and invites at concrete rows.
use open_profile_be.Entities.{Invite}
use open_profile_be.Exec.{err, ok}
use open_profile_be.Invites.Claims.{
  Claimable, claim_invite-Claimable, claim_invite_once, invite_rows,
}
use open_profile_be.Prelude.{[], map_where, none, refl, ◌∷◌, ◌≡◌}
use open_profile_be.Samples.{empty_world, sample}
use open_profile_be.Tests.Guard.{ann_only}
use open_profile_be.Users.{change_email, update_email, update_row_unique}
use open_profile_be.World.{World, invite_claimed}
use open_profile_be.Invites
use open_profile_be.Users

-- The address that no account has is given to the account.
moves_ann : (update_email sample "1" "ann@y.org" ann_only).0 ≡ ok "ann@y.org"
unfolding update_email change_email update_row_unique Users.find_one Users.find_by_email
moves_ann = refl

abbrev invitation : Invite
invitation = record {
  id = "i";
  inviter_user_id = "1";
  recipient_email = "bob@x.org";
  token = "st";
  expires_at = 2000000;
  clicked_at = none;
  claimed_at = none;
  claimed_by_user_id = none;
  created_at = 0;
}

abbrev invited : World sample
invited = record empty_world { invites = invitation ∷ [] }

claim_invite_once_example :
    (Invites.claim_invite sample "t" "3" "bob@x.org"
      (record (Invites.claim_invite sample "t" "2" "bob@x.org" invited).1 { now = 1500000 })).0
    ≡ err Invites.invalid_claim
unfolding Invites.claim_invite Invites.is_claimable
claim_invite_once_example =
    claim_invite_once sample "t" "2" "bob@x.org" "3" "bob@x.org" 1500000 invited refl refl

claim_invite-Claimable_example :
    (i : Invite) × Claimable sample "t" "2" "bob@x.org" invited i
    × ((Invites.claim_invite sample "t" "2" "bob@x.org" invited).1.events
        ≡ invite_claimed i.id i.inviter_user_id "2" ∷ [])
    × (invite_rows sample (Invites.claim_invite sample "t" "2" "bob@x.org" invited).1
        ≡ map_where
            (Invites.is_claimable "2" "st" "bob@x.org" 1000000)
            (Invites.claimed_by "2" 1000000)
            (invitation ∷ []))
unfolding Invites.claim_invite Invites.is_claimable
claim_invite-Claimable_example = claim_invite-Claimable sample "t" "2" "bob@x.org" invited refl

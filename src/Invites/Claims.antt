-- ===== src/Invites/Claims.antt =====
-- Who can claim an invite, and how often.
use open_profile_be.Entities.{Invite}
use open_profile_be.Exec.{err, ok}
use open_profile_be.Invites.{claim_invite, claimed_by, invalid_claim, is_claimable}
use open_profile_be.Prelude.{
  Bool, List, Option-cases, String, [], any, ap, arith, eq_iff, false, first, first-passes, inl,
  inr, map_where, none, refl, some, sym, true, ℕ, ◌<◌, ◌==◌, ◌∙◌, ◌∷◌, ◌≡◌, ◌≢◌,
}
use open_profile_be.Services.{Services}
use open_profile_be.Services.Database.{all_apart}
use open_profile_be.World.{World, invite_claimed}

module _ (x : Services) where
  abbrev pub invite_rows : World x → List Invite
  invite_rows w = x.invites.rows w.invites

  -- An invite that a claimant had the right to claim.
  pub record Claimable (token claimant address : String) (w : World x) (i : Invite) : Type 0 where
    pub listed :
        first (is_claimable claimant (x.crypto.sha256 token) address w.now) (invite_rows w) ≡ some i
    pub hash : i.token ≡ x.crypto.sha256 token
    pub unclaimed : i.claimed_at ≡ none
    pub in_time : w.now < i.expires_at
    pub other : i.inviter_user_id ≢ claimant
    pub addressed : i.recipient_email ≡ address

  is_claimable-Claimable :
      (token claimant address : String) (w : World x) (i : Invite)
      → first (is_claimable claimant (x.crypto.sha256 token) address w.now) (invite_rows w) ≡ some i
      → Claimable token claimant address w i
  unfolding is_claimable
  is_claimable-Claimable token claimant address w i e =
      let hash = x.crypto.sha256 token in
      let passes = first-passes (is_claimable claimant hash address w.now) (invite_rows w) i e in
      record {
        listed = e;
        hash = ground (arith, passes, eq_iff i.token hash);
        unclaimed = ground (arith, passes);
        in_time = ground (arith, passes);
        other = ground (arith, passes, eq_iff i.inviter_user_id claimant);
        addressed = ground (arith, passes, eq_iff i.recipient_email address);
      }

  -- A claim goes through only for an invite with the token's hash that nobody claimed, in time, for
  -- the address that it was sent to, and not by its inviter; then it says who claimed which invite,
  -- and has claimed the rows that its clause selects.
  pub claim_invite-Claimable :
      (token claimant address : String) (w : World x)
      → (claim_invite x token claimant address w).0 ≡ ok tt
      → (i : Invite) × Claimable token claimant address w i
        × ((claim_invite x token claimant address w).1.events
            ≡ invite_claimed i.id i.inviter_user_id claimant ∷ w.events)
        × (invite_rows (claim_invite x token claimant address w).1
            ≡ map_where
                (is_claimable claimant (x.crypto.sha256 token) address w.now)
                (claimed_by claimant w.now)
                (invite_rows w))
  unfolding claim_invite
  claim_invite-Claimable token claimant address w e =
      let test = is_claimable claimant (x.crypto.sha256 token) address w.now in
      elim (Option-cases (x.invites.find_one test w.invites)) [
        | inl missing ↦ absurd (ground arith)
        | inr (i, found) ↦ (
          i,
          is_claimable-Claimable token claimant address w i
              (sym (x.invites.find_one_lem test w.invites) ∙ found),
          rw found,
          rw found (x.invites.rows-update test (claimed_by claimant w.now) w.invites),
        )
      ]

abbrev pub same_token : Invite → Invite → Bool
same_token a b = a.token == b.token

-- Where no row has the token, none is claimable with it.
first-claimable_other :
    (q : Invite → Bool) (by claimant hash address : String) (then_ now : ℕ) (r : Invite)
    (rows : List Invite)
    → r.token ≡ hash
    → any (same_token r) rows ≡ false
    → first (is_claimable claimant hash address now) (map_where q (claimed_by by then_) rows) ≡ none
unfolding is_claimable
first-claimable_other q by claimant hash address then_ now r [] e h = refl
first-claimable_other q by claimant hash address then_ now r (i ∷ rows) e h = ground (
  arith,
  first-claimable_other q by claimant hash address then_ now r rows e,
  eq_iff r.token i.token,
  eq_iff i.token hash,
)

any-same_token :
    (by hash address : String) (then_ : ℕ) (r i : Invite) (rows : List Invite)
    → first (is_claimable by hash address then_) rows ≡ some i
    → r.token ≡ hash
    → any (same_token r) rows ≡ true
unfolding is_claimable
any-same_token by hash address then_ r i [] f e = cc
any-same_token by hash address then_ r i (j ∷ rows) f e = ground (
  arith,
  any-same_token by hash address then_ r i rows,
  eq_iff r.token j.token,
  eq_iff j.token hash,
)

-- Once the only row of a token is claimed, no row is claimable with the token.
first-claimable_again :
    (by address : String) (then_ : ℕ) (claimant hash later_address : String) (now : ℕ) (i : Invite)
    (rows : List Invite)
    → all_apart same_token rows ≡ true
    → first (is_claimable by hash address then_) rows ≡ some i
    → first
        (is_claimable claimant hash later_address now)
        (map_where (is_claimable by hash address then_) (claimed_by by then_) rows)
      ≡ none
unfolding is_claimable
first-claimable_again by address then_ claimant hash later_address now i [] u f = cc
first-claimable_again by address then_ claimant hash later_address now i (r ∷ rows) u f = ground (
  arith,
  first-claimable_again by address then_ claimant hash later_address now i rows,
  first-claimable_other (is_claimable by hash address then_) by claimant hash later_address then_
      now r rows,
  any-same_token by hash address then_ r i rows,
  eq_iff r.token hash,
)

-- A token is good for one claim: where tokens are unique, every later claim with it is refused,
-- whoever makes it, for any address and at any time.
pub claim_invite_once :
    (x : Services) (token by address : String) (claimant later_address : String) (later : ℕ)
    (w : World x)
    → all_apart same_token (invite_rows x w) ≡ true
    → (claim_invite x token by address w).0 ≡ ok tt
    → (claim_invite x token claimant later_address
        (record (claim_invite x token by address w).1 { now = later })).0
      ≡ err invalid_claim
unfolding claim_invite
claim_invite_once x token by address claimant later_address later w unique e =
    let (i, able, event, rows) = claim_invite-Claimable x token by address w e in
    let hash = x.crypto.sha256 token in
    let test = is_claimable claimant hash later_address later in
    let w' = (claim_invite x token by address w).1 in
    let none_left : x.invites.find_one test w'.invites ≡ none =
      x.invites.find_one_lem test w'.invites
      ∙ ap (first test) rows
      ∙ first-claimable_again by address w.now claimant hash later_address later i (invite_rows x w)
          unique able.listed in
    rw none_left

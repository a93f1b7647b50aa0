-- ===== src/Admin/AccountStatus/Trail.antt =====
-- The audit trail replays to the current states, whatever the administrators do.
use open_profile_be.Admin.AccountStatus.{AdminCall, apply, arrive, history_row, serve, with_status}
use open_profile_be.Admin.AccountStatus.Branches.{apply_cases, changed_world, found, target}
use open_profile_be.Admin.Transitions.{
  Edge, UserStatusAction, allows-Edge, status_eq, status_eq_refl,
}
use open_profile_be.Auth.UserStatusCache.{has_id}
use open_profile_be.Entities.{User, UserStatus, UserStatusHistory}
use open_profile_be.Prelude.{
  All, All-append, List, Option, String, [], arith, eq_iff, first, if◌then◌else◌, is_some,
  map_where, none, refl, some, ◌&&◌, ◌++◌, ◌==◌, ◌∷◌, ◌≡◌,
}
use open_profile_be.Services.{Services}
use open_profile_be.Services.Database.{rows_of_insert}
use open_profile_be.World.{World}

abbrev pub status_of : String → List User → Option UserStatus
status_of user_id us = elim (first (has_id user_id) us) [ none ↦ none | some u ↦ some u.status ]

-- One row of the trail, as it moves the account `user_id`.
pub replay_row : String → Option UserStatus → UserStatusHistory → Option UserStatus
replay_row user_id none h = none
replay_row user_id (some s) h =
    if h.user_id == user_id
    then (if status_eq h.from_status s then some h.to_status else none)
    else some s

-- The state that the trail leads to from a first state; `none` where a row does not continue the
-- one before it.
unfoldable pub replay : String → Option UserStatus → List UserStatusHistory → Option UserStatus
replay user_id s [] = s
replay user_id s (h ∷ hs) = replay user_id (replay_row user_id s h) hs

replay-append :
    (user_id : String) (s : Option UserStatus) (hs : List UserStatusHistory) (h : UserStatusHistory)
    → replay user_id s (hs ++ h ∷ []) ≡ replay_row user_id (replay user_id s hs) h
unfolding replay
replay-append user_id s [] h = refl
replay-append user_id s (g ∷ hs) h = replay-append user_id (replay_row user_id s g) hs h

status_of-update :
    (user_id changed : String) (t : UserStatus) (us : List User)
    → status_of user_id (map_where (has_id changed) (with_status t) us) ≡ (
        if is_some (status_of user_id us) && changed == user_id
        then some t
        else status_of user_id us)
status_of-update user_id changed t [] = refl
status_of-update user_id changed t (u ∷ us) = ground (
  arith,
  status_of-update user_id changed t us,
  eq_iff u.id changed,
  eq_iff u.id user_id,
  eq_iff changed user_id,
)

module _ (x : Services) where
  -- A world whose trail, from the first states `start`, leads every account to its state.
  abbrev pub HasTrail : (String → UserStatus) → World x → Type 0
  HasTrail start w =
      (user_id : String) (s : UserStatus)
      → status_of user_id (x.users.rows w.users) ≡ some s
      → replay user_id (some (start user_id)) (x.status_history.rows w.status_history) ≡ some s

  module _ (user_id admin_id : String) (action : UserStatusAction) where
    HasTrail-changed_world :
        (start : String → UserStatus) (w : World x) (u : User) (t : x.status_history.Table)
        → found x user_id admin_id action w ≡ some u
        → x.status_history.insert
            (history_row x user_id u.status (target x user_id admin_id action) admin_id w)
            w.status_history
          ≡ some t
        → HasTrail start w
        → HasTrail start (changed_world x user_id admin_id action w t)
    unfolding replay_row
    HasTrail-changed_world start w u t e stored_row trail j s has =
        let us = x.users.rows w.users in
        let hs = x.status_history.rows w.status_history in
        let to = target x user_id admin_id action in
        let row = history_row x user_id u.status to admin_id w in
        ground (
          arith,
          rows_of_insert x.status_history row w.status_history t stored_row,
          replay-append j (some (start j)) hs row,
          x.users.rows-update (has_id user_id) (with_status to) w.users,
          status_of-update j user_id to us,
          x.users.find_one_lem (has_id user_id) w.users,
          trail j s,
          trail j u.status,
          eq_iff user_id j,
          status_eq_refl u.status,
        )

    -- Whatever `apply` answers, by an exception too, the trail still leads to the states.
    pub apply-HasTrail :
        (start : String → UserStatus) (w : World x)
        → HasTrail start w
        → HasTrail start (apply x user_id action admin_id w).1
    apply-HasTrail start w trail =
        apply_cases x user_id admin_id action
          (λ us hs.
            (j : String) (s : UserStatus)
            → status_of j (x.users.rows us) ≡ some s
            → replay j (some (start j)) (x.status_history.rows hs) ≡ some s)
          w trail (λ u t e allowed went. HasTrail-changed_world start w u t e went trail)

  -- After any requests of administrators, in any order, the trail leads every account to its
  -- state, if it did before.
  pub serve-HasTrail :
      (start : String → UserStatus) (cs : List AdminCall) (w : World x)
      → HasTrail start w
      → HasTrail start (serve x cs w)
  unfolding serve
  serve-HasTrail start [] w trail = trail
  serve-HasTrail start (c ∷ cs) w trail =
      serve-HasTrail start cs (apply x c.account c.action c.admin (arrive x c w)).1
        (apply-HasTrail c.account c.admin c.action start (arrive x c w) trail)

  -- Every row of the trail goes along an edge of the graph of account states.
  abbrev pub FollowsGraph : World x → Type 0
  FollowsGraph w =
      All (λ h. Edge h.from_status h.to_status) (x.status_history.rows w.status_history)

  apply-FollowsGraph :
      (user_id admin_id : String) (action : UserStatusAction) (w : World x)
      → FollowsGraph w
      → FollowsGraph (apply x user_id action admin_id w).1
  apply-FollowsGraph user_id admin_id action w h =
      apply_cases x user_id admin_id action
        (λ us hs. All (λ r. Edge r.from_status r.to_status) (x.status_history.rows hs)) w h
        (λ u t e allowed went. rw (rows_of_insert x.status_history _ w.status_history t went) (
          All-append _ (x.status_history.rows w.status_history) _ h
            (allows-Edge action u.status allowed)))

  -- Where every row of the trail goes along an edge of the graph of account states, as in an empty
  -- trail, this is still so after any requests of administrators.
  pub serve-FollowsGraph :
      (cs : List AdminCall) (w : World x) → FollowsGraph w → FollowsGraph (serve x cs w)
  unfolding serve
  serve-FollowsGraph [] w h = h
  serve-FollowsGraph (c ∷ cs) w h =
      serve-FollowsGraph cs (apply x c.account c.action c.admin (arrive x c w)).1
        (apply-FollowsGraph c.account c.admin c.action (arrive x c w) h)

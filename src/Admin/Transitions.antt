-- ===== src/Admin/Transitions.antt =====
-- The actions of an administrator on an account (modules/admin/constants/status-transitions.ts).
use open_profile_be.Entities.{
  UserStatus, active, blocked, deactivated, flagged_for_review, suspended,
}
use open_profile_be.Prelude.{
  Bool, List, [], any, arith, false, refl, subst, true, ◌↔◌, ◌∷◌, ◌≡◌, ◌≢◌,
}

pub data UserStatusAction : Type 0 where
  block suspend deactivate reactivate flag_for_review : UserStatusAction

-- `===` on account states
unfoldable pub status_eq : UserStatus → UserStatus → Bool
status_eq active active = true
status_eq blocked blocked = true
status_eq suspended suspended = true
status_eq deactivated deactivated = true
status_eq flagged_for_review flagged_for_review = true
status_eq _ _ = false

pub record StatusTransition : Type 0 where
  pub target : UserStatus
  pub allowed_from : List UserStatus

unfoldable pub status_transitions : UserStatusAction → StatusTransition
status_transitions block = record {
  target = blocked;
  allowed_from = active ∷ suspended ∷ flagged_for_review ∷ [];
}
status_transitions suspend = record {
  target = suspended;
  allowed_from = active ∷ flagged_for_review ∷ [];
}
status_transitions deactivate = record {
  target = deactivated;
  allowed_from = active ∷ blocked ∷ suspended ∷ flagged_for_review ∷ [];
}
status_transitions reactivate = record {
  target = active;
  allowed_from = blocked ∷ suspended ∷ deactivated ∷ flagged_for_review ∷ [];
}
status_transitions flag_for_review = record {
  target = flagged_for_review;
  allowed_from = active ∷ suspended ∷ [];
}

-- `allowedFrom.includes(status)`
unfoldable pub allows : StatusTransition → UserStatus → Bool
allows tr status = any (λ s. status_eq s status) tr.allowed_from

pub status_eq_refl : (s : UserStatus) → status_eq s s ≡ true
unfolding status_eq
status_eq_refl s = ground arith

pub status_eq→eq : (s t : UserStatus) → status_eq s t ≡ true → s ≡ t
unfolding status_eq
status_eq→eq s t h = ground arith

-- The graph of account states, as a picture of it would have it.
pub data Edge : UserStatus → UserStatus → Type 0 where
  to_blocked_from_active : Edge active blocked
  to_blocked_from_suspended : Edge suspended blocked
  to_blocked_from_flagged : Edge flagged_for_review blocked
  to_suspended_from_active : Edge active suspended
  to_suspended_from_flagged : Edge flagged_for_review suspended
  to_deactivated : {s : UserStatus} → s ≢ deactivated → Edge s deactivated
  to_active : {s : UserStatus} → s ≢ active → Edge s active
  to_flagged_from_active : Edge active flagged_for_review
  to_flagged_from_suspended : Edge suspended flagged_for_review

-- An action is let through from a state exactly where the graph has its edge.
pub allows-Edge :
    (a : UserStatusAction) (s : UserStatus)
    → allows (status_transitions a) s ≡ true
    → Edge s (status_transitions a).target
unfolding allows status_transitions status_eq
allows-Edge block active h = to_blocked_from_active
allows-Edge block suspended h = to_blocked_from_suspended
allows-Edge block flagged_for_review h = to_blocked_from_flagged
allows-Edge suspend active h = to_suspended_from_active
allows-Edge suspend flagged_for_review h = to_suspended_from_flagged
allows-Edge deactivate s h = to_deactivated (λ e. ground arith)
allows-Edge reactivate s h = to_active (λ e. ground arith)
allows-Edge flag_for_review active h = to_flagged_from_active
allows-Edge flag_for_review suspended h = to_flagged_from_suspended
allows-Edge _ _ h = cc

-- The action that takes an account along an edge.
pub action_to : UserStatus → UserStatusAction
action_to active = reactivate
action_to blocked = block
action_to suspended = suspend
action_to deactivated = deactivate
action_to flagged_for_review = flag_for_review

action_to-target : (t : UserStatus) → (status_transitions (action_to t)).target ≡ t
unfolding action_to status_transitions
action_to-target t = ground arith

Edge-allows : {s t : UserStatus} → Edge s t → allows (status_transitions (action_to t)) s ≡ true
unfolding allows status_transitions status_eq action_to
Edge-allows to_blocked_from_active = refl
Edge-allows to_blocked_from_suspended = refl
Edge-allows to_blocked_from_flagged = refl
Edge-allows to_suspended_from_active = refl
Edge-allows to_suspended_from_flagged = refl
Edge-allows (to_deactivated {s} n) = ground arith
Edge-allows (to_active {s} n) = ground arith
Edge-allows to_flagged_from_active = refl
Edge-allows to_flagged_from_suspended = refl

-- An account may move from one state to another by some action of an administrator exactly where
-- the graph has that edge.
transitions_iff :
    (s t : UserStatus)
    → Edge s t ↔ (
        (a : UserStatusAction) × ((status_transitions a).target ≡ t)
        × (allows (status_transitions a) s ≡ true))
transitions_iff s t = (
  λ e. (action_to t, action_to-target t, Edge-allows e),
  λ (a, target, allowed). subst (Edge s) target (allows-Edge a s allowed),
)

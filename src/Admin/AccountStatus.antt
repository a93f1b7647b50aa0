-- ===== src/Admin/AccountStatus.antt =====
-- AccountStatusService (modules/admin/services/account-status.service.ts).
pub mod Branches
pub mod Trail
pub mod Effect
use open_profile_be.Admin.Transitions.{
  UserStatusAction, allows, block, deactivate, flag_for_review, reactivate, status_eq,
  status_transitions, suspend,
}
use open_profile_be.Auth.UserStatusCache.{has_id, user_status_cache_key}
use open_profile_be.Entities.{User, UserStatus, UserStatusHistory, admin}
use open_profile_be.Exec.{gets, http, modify, pure, require, throw_if, transaction, ◌>>=◌, ◌>>◌}
use open_profile_be.Prelude.{
  Bool, List, String, [], false, if◌then◌else◌, not, some, suc, true, ℕ, ◌∷◌,
}
use open_profile_be.Services.{Services}
use open_profile_be.World.{App, World, stored}
use open_profile_be.Redis

pub record StatusChangeResult : Type 0 where
  pub from : UserStatus
  pub to : UserStatus
  pub changed : Bool

-- A request of an administrator, at its time; Redis may be down.
pub record AdminCall : Type 0 where
  pub time : ℕ
  pub redis_answers : Bool
  pub account : String
  pub action : UserStatusAction
  pub admin : String

abbrev pub with_status : UserStatus → User → User
with_status s u = record u { status = s }

module _ (x : Services) where
  -- The row that the transaction inserts; its id and its date are the database's defaults.
  abbrev pub history_row : String → UserStatus → UserStatus → String → World x → UserStatusHistory
  history_row user_id from to admin_id w = record {
    id = x.crypto.uuid w.drawn;
    user_id = user_id;
    from_status = from;
    to_status = to;
    changed_by = some admin_id;
    changed_at = w.now;
  }

  abbrev pub put_history : World x → x.status_history.Table → World x
  put_history w t = record w { status_history = t; drawn = suc w.drawn }

  insert_history : String → UserStatus → UserStatus → String → App x (Unit {0})
  insert_history user_id from to admin_id w =
      stored x put_history
        (x.status_history.insert (history_row user_id from to admin_id w) w.status_history) w

  update_status : String → UserStatus → App x (Unit {0})
  update_status user_id status =
      modify λ w. record w { users = x.users.update (has_id user_id) (with_status status) w.users }

  -- What `apply` does for a user that was found.
  change : String → UserStatusAction → String → UserStatus → App x StatusChangeResult
  unfolding insert_history update_status
  change user_id action admin_id status =
      let target = (status_transitions action).target in
      if status_eq status target
      then pure (record { from = status; to = target; changed = false })
      else (do
        throw_if (not (allows (status_transitions action) status)) (http 409 "Conflict")
        transaction (do update_status user_id target; insert_history user_id status target admin_id)
        Redis.del x (user_status_cache_key user_id)
        pure (record { from = status; to = target; changed = true }))

  unfoldable pub apply : String → UserStatusAction → String → App x StatusChangeResult
  unfolding change
  apply user_id action admin_id = do
    found ← gets (λ w. x.users.find_one (has_id user_id) w.users)
    account ← require found (http 404 "User not found")
    change user_id action admin_id account.status

  pub block_user : String → String → App x StatusChangeResult
  block_user user_id admin_id = apply user_id block admin_id

  pub suspend_user : String → String → App x StatusChangeResult
  suspend_user user_id admin_id = apply user_id suspend admin_id

  pub deactivate_user : String → String → App x StatusChangeResult
  deactivate_user user_id admin_id = apply user_id deactivate admin_id

  pub reactivate_user : String → String → App x StatusChangeResult
  reactivate_user user_id admin_id = apply user_id reactivate admin_id

  pub flag_user_for_review : String → String → App x StatusChangeResult
  flag_user_for_review user_id admin_id = apply user_id flag_for_review admin_id

  abbrev pub arrive : AdminCall → World x → World x
  arrive c w = record w { now = c.time; redis_up = c.redis_answers }

  -- Requests one after the other; an exception ends only its own request.
  pub serve : List AdminCall → World x → World x
  serve [] w = w
  serve (c ∷ cs) w = serve cs (apply c.account c.action c.admin (arrive c w)).1

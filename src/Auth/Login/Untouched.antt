-- ===== src/Auth/Login/Untouched.antt =====
-- A check of a password (modules/auth/auth.service.ts) changes no account.
use open_profile_be.Auth.Login.{
  attempts_key, check_password, count_wrong_password, lock_account, password_checked,
}
use open_profile_be.Entities.{User}
use open_profile_be.Exec.Keeps.{Keeps, keeps_rules}
use open_profile_be.Prelude.{Bool, String, arith, false, true, ◌≡◌}
use open_profile_be.Queue.{add_job, add_job_detached}
use open_profile_be.Redis.Frame.{del-Keeps, get-Keeps, increment-Keeps, set-Keeps}
use open_profile_be.Services.{Services}
use open_profile_be.World.{Job, World}

module _ (x : Services) (u : User) where
  -- The users stay as they are.
  abbrev pub HasUsers : x.users.Table → World x → Type 0
  HasUsers t w = w.users ≡ t

  module _ (t : x.users.Table) where
    frame : (w : World x) (s : x.redis.Store) → HasUsers t w → HasUsers t (record w { redis = s })
    frame w s h = h

    add_job_detached-HasUsers : (job : Job) → Keeps (HasUsers t) (add_job_detached x job)
    unfolding add_job_detached add_job
    add_job_detached-HasUsers job = record { at = λ w h. ground arith }

    lock_account-HasUsers : Keeps (HasUsers t) (lock_account x u)
    unfolding lock_account
    lock_account-HasUsers =
        search (keeps_rules, set-Keeps x frame, del-Keeps x frame, add_job_detached-HasUsers) depth
          12

    password_checked-HasUsers : (b : Bool) → Keeps (HasUsers t) (password_checked x b u)
    unfolding password_checked count_wrong_password
    password_checked-HasUsers true = del-Keeps x frame (attempts_key u.email)
    password_checked-HasUsers false =
        search (keeps_rules, increment-Keeps x frame, lock_account-HasUsers) depth 12

    pub check_password-HasUsers : (p : String) → Keeps (HasUsers t) (check_password x u p)
    unfolding check_password
    check_password-HasUsers p =
        search (keeps_rules, get-Keeps x frame, password_checked-HasUsers) depth 12

-- ===== src/Queue.antt =====
-- QueueService (modules/queue/queue.service.ts): a job is added, or the error of the queue goes on.
use open_profile_be.Exec.{catch, err, infrastructure, ok, pure}
use open_profile_be.Prelude.{if◌then◌else◌, ◌∷◌}
use open_profile_be.Services.{Services}
use open_profile_be.World.{App, Job}

module _ (x : Services) where
  unfoldable pub add_job : Job → App x (Unit {0})
  add_job job w =
      if w.queue_up
      then (ok tt, record w { jobs = job ∷ w.jobs })
      else (err (infrastructure "queue unavailable"), w)

  -- `void addJob(…)`: nobody waits for it, so its error reaches nobody.
  unfoldable pub add_job_detached : Job → App x (Unit {0})
  unfolding add_job
  add_job_detached job = catch (add_job job) (λ _. pure tt)

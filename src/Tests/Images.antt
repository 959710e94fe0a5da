-- ===== src/Tests/Images.antt =====
-- The queue of image tasks, at concrete inputs.
use evernight_ai.Prelude.{
  ◌≤◌, ℕ, String, ◌≡◌, refl, ◌⊎◌, none, some, List, [], ◌∷◌, arith, nat_eq, string_eq, option_eq,
  pair_eq,
}
use evernight_ai.Dict.{Dict, lookup, insert}
use evernight_ai.ImageTask.{
  max_active_image_tasks, ImageTask, ImageTaskStatus-discrete, status_eq, queued, succeeded,
  interrupted, create, created, created_store, same_submission, recover_expired, is_lost, interrupt,
  active_of, is_active, claimed, claim, StoreCall, creates, claims, finishes, recovers, step, run,
  task_item, held_by,
}
use evernight_ai.ImageTask.Queue.{Least, waiting, claim_exact}
use evernight_ai.ImageTask.Limit.{run-IsLimited}
use evernight_ai.ImageTask.Refinement.{ended, phase, phase_of, Moves, run_refines}
use evernight_ai.ImageTask.Lifecycle.{touches, step-unchanged}

abbrev task_of : String → ℕ → ImageTask String
task_of k created = record {
  task_id = k;
  provider_id = "p";
  request = "a cat";
  session_id = none;
  owner_id = some "ann";
  status = queued;
  record_id = none;
  error_type = none;
  error_message = none;
  created_at = created;
  updated_at = created;
  worker_id = none;
  lease_expires_at = none;
}

abbrev two_tasks : Dict String (ImageTask String)
two_tasks = ("a", task_of "a" 7) ∷ ("b", task_of "b" 3) ∷ []

claim_exact_example :
    (waiting two_tasks ≡ [] × (claim two_tasks "w" 60 10 ≡ (two_tasks, none)))
    ⊎ ((t : ImageTask String) × (lookup t.task_id two_tasks ≡ some t)
        × (t.status ≡ queued)
        × Least t (waiting two_tasks)
        × (claim two_tasks "w" 60 10
            ≡ (insert t.task_id (claimed "w" 60 10 t) two_tasks, some (claimed "w" 60 10 t))))
claim_exact_example = claim_exact two_tasks "w" 60 10 (refl, (refl, tt), (refl, tt, tt))

-- A run: the older task is claimed.
claims_oldest : (claim two_tasks "w" 60 10).1 ≡ some (claimed "w" 60 10 (task_of "b" 3))
unfolding claim ImageTaskStatus-discrete
claims_oldest = refl

abbrev morning : List (StoreCall String)
morning = creates (task_of "a" 7) ∷ claims "w" 60 10 ∷ recovers 70 ∷ []

run-IsLimited_example : active_of (some "ann") (run morning []) ≤ max_active_image_tasks
unfolding active_of
run-IsLimited_example =
    run-IsLimited morning [] (tt, (tt, (tt, tt))) tt (λ owner. omega arith) (some "ann")

abbrev running_task : ImageTask String
running_task = claimed "w" 60 10 (task_of "b" 3)

abbrev one_running : Dict String (ImageTask String)
one_running = ("b", running_task) ∷ []

step-unchanged_example :
    lookup "b" (step (finishes (record running_task { status = succeeded }) "thief") one_running)
    ≡ some running_task
unfolding lookup touches held_by claimed ImageTaskStatus-discrete
step-unchanged_example =
    step-unchanged (finishes (record running_task { status = succeeded }) "thief") one_running "b"
      running_task (refl, tt, tt) refl refl refl

run_refines_example :
    Moves "a"
      (finishes (record (task_of "a" 7) { status = succeeded }) "w")
      (phase_of (lookup "a" (run morning [])))
      (phase_of (
        lookup "a"
          (step (finishes (record (task_of "a" 7) { status = succeeded }) "w") (run morning []))))
unfolding is_active ImageTaskStatus-discrete
run_refines_example =
    run_refines "a" morning (finishes (record (task_of "a" 7) { status = succeeded }) "w") refl

-- A run: the lease of the task is lost.
morning_loses : phase_of (lookup "a" (run morning [])) ≡ ended interrupted
unfolding phase_of phase lookup run step create created created_store active_of same_submission
    insert claim claimed recover_expired is_lost interrupt ImageTaskStatus-discrete
morning_loses = refl

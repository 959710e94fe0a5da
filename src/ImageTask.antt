-- ===== src/ImageTask.antt =====
-- core/domain/image_task.py and core/schema/image_task.py: the queue of image tasks that workers
-- claim, under leases. Times are instants; the current time is an argument.
pub mod Limit
pub mod Lifecycle
pub mod Queue
pub mod Refinement
use evernight_ai.Prelude.{
  ℕ, zero, suc, ◌+◌, ◌-◌, ◌*◌, ◌/◌, ◌≤◌, ◌<◌, max, String, ◌≡◌, refl, sym, ap, ◌∙◌, ◌≢◌, ◌↔◌, ◌⊎◌,
  inl, inr, Bool, true, false, not, ◌&&◌, ◌||◌, Option, none, some, List, [], ◌∷◌, ◌++◌, map,
  reverse, arith, eq_iff, ltb, leb, eqb, if◌then◌else◌, text_ltb, Eq, ◌==◌, nat_eq, nat_beq_iff,
  string_eq, option_eq, pair_eq, discrete_eq, Bool-cases, Option-cases, is_some, or_else, when,
  text_ltb_asym, text_le_trans, length, keep, any, all, take, drop, get_elem?, All, length-append,
  length-keep-le, length-take, All-append, All-behind, All-keep, All-take, keep_sound, keep-append,
  keep_none, length-drop-le, All-keep_both, All-map, Result, ok, err, Error, ◌>>=◌, ◌>>◌, require,
  >>=-eq-ok, Result-cases, ok-injective,
}
use evernight_ai.Dict.{Dict, lookup, insert, erase, values}
use evernight_ai.Auth.{PrincipalScope, scope_permits}
use evernight_ai.Registry.{Item}

-- `ImageTaskStatus`
pub data ImageTaskStatus : Type 0 where
  queued running succeeded failed interrupted : ImageTaskStatus

unfoldable pub ImageTaskStatus-discrete : Discrete ImageTaskStatus
ImageTaskStatus-discrete = hlevel

instance abbrev pub status_eq : Eq ImageTaskStatus
status_eq = discrete_eq ImageTaskStatus-discrete

-- `ImageTask`. The requests are only compared; `R` is their type.
pub record ImageTask (R : Type 0) : Type 0 where
  pub task_id : String
  pub provider_id : String
  pub request : R
  pub session_id : Option String
  pub owner_id : Option String
  pub status : ImageTaskStatus
  pub record_id : Option String
  pub error_type : Option String
  pub error_message : Option String
  pub created_at : ℕ
  pub updated_at : ℕ
  pub worker_id : Option String
  pub lease_expires_at : Option ℕ

-- `ImageHistoryCursor`
pub record ImageHistoryCursor : Type 0 where
  pub created_at : ℕ
  pub record_id : String

-- `MAX_ACTIVE_IMAGE_TASKS`
abbrev pub max_active_image_tasks : ℕ
max_active_image_tasks = 10

-- `(t1, id1) < (t2, id2)`
unfoldable pub pair_ltb : ℕ → String → ℕ → String → Bool
pair_ltb t1 id1 t2 id2 = ltb t1 t2 || (eqb t1 t2 && text_ltb id1 id2)

-- `lease_expires_at is None or lease_expires_at <= now`
expired : ℕ → Option ℕ → Bool
expired now none = true
expired now (some lease) = leb lease now

module _ {R : Type 0} where
  instance abbrev pub task_item : Item (ImageTask R)
  task_item = record {
    item_id = λ t. t.task_id;
    owner_of = λ t. t.owner_id;
    missing = Error.image_task_not_found;
  }

  -- `task.status in ("queued", "running")`
  unfoldable pub is_active : ImageTask R → Bool
  is_active t = (t.status == queued) || (t.status == running)

  -- `interrupted`
  unfoldable pub interrupt : ℕ → ImageTask R → ImageTask R
  interrupt now t = record t {
    status = interrupted;
    updated_at = now;
    error_type = some "ImageTaskInterrupted";
    worker_id = none;
    lease_expires_at = none;
    error_message = some "服务中断，未自动重新生成。请先检查历史图片，再决定是否提交新任务。";
  }

  -- `ImageTaskStore.has_active`
  unfoldable pub has_active : Dict String (ImageTask R) → Bool
  unfolding is_active
  has_active d = any is_active (values d)

  -- `ImageTaskStore.delete_for_record`
  unfoldable pub delete_for_record : Dict String (ImageTask R) → String → Dict String (ImageTask R)
  unfolding erase
  delete_for_record d record_id = erase record_id d

  unfoldable pub permitted : Option PrincipalScope → Option (ImageTask R) → Result (ImageTask R)
  unfolding scope_permits
  permitted scope none = err Error.image_task_not_found
  permitted scope (some t) =
      if scope_permits scope t.owner_id then ok t else err Error.image_task_not_found

  -- `ImageTaskStore.get`
  unfoldable pub get :
      Dict String (ImageTask R) → String → Option PrincipalScope → Result (ImageTask R)
  unfolding permitted lookup
  get d k scope = permitted scope (lookup k d)

  -- `ImageTaskStore.delete`
  unfoldable pub delete :
      Dict String (ImageTask R)
      → String
      → Option PrincipalScope
      → Result (Dict String (ImageTask R))
  unfolding get is_active erase
  delete d k scope =
      get d k scope >>= λ t. if is_active t then err Error.image_task_conflict else ok (erase k d)

  -- The owner's tasks that are queued or running.
  unfoldable pub active_of : Option String → Dict String (ImageTask R) → ℕ
  unfolding is_active
  active_of owner [] = 0
  active_of owner ((k, t) ∷ d) =
      let rest = active_of owner d in
      if (t.owner_id == owner) && is_active t then suc rest else rest

  -- A task is before another in a sorted list.
  insert_by :
      (ImageTask R → ImageTask R → Bool) → ImageTask R → List (ImageTask R) → List (ImageTask R)
  insert_by before t [] = t ∷ []
  insert_by before t (u ∷ us) =
      let rest = insert_by before t us in if before u t then u ∷ rest else t ∷ u ∷ us

  unfoldable pub sort_by :
      (ImageTask R → ImageTask R → Bool) → List (ImageTask R) → List (ImageTask R)
  unfolding insert_by
  sort_by before [] = []
  sort_by before (t ∷ ts) = insert_by before t (sort_by before ts)

  -- `key=lambda task: (task.created_at, task.task_id)`
  unfoldable pub earlier : ImageTask R → ImageTask R → Bool
  unfolding pair_ltb
  earlier t u = pair_ltb t.created_at t.task_id u.created_at u.task_id

  in_session : Option String → ImageTask R → Bool
  in_session none t = true
  in_session (some s) t = t.session_id == some s

  before_cursor : Option ImageHistoryCursor → ImageTask R → Bool
  unfolding pair_ltb
  before_cursor none t = true
  before_cursor (some c) t = pair_ltb t.created_at t.task_id c.created_at c.record_id

  -- `ImageTaskStore.list_tasks`, before each task is cut down to its summary.
  unfoldable pub list_tasks :
      Dict String (ImageTask R)
      → ℕ
      → Option ImageHistoryCursor
      → Option String
      → Option PrincipalScope
      → List (ImageTask R)
  unfolding sort_by earlier scope_permits in_session before_cursor
  list_tasks d limit cursor session_id scope = take limit (
      sort_by (λ t u. earlier u t)
        (keep
          (λ t.
            scope_permits scope t.owner_id && (in_session session_id t && before_cursor cursor t))
          (values d)))

  -- The task as the worker has it.
  unfoldable pub claimed : String → ℕ → ℕ → ImageTask R → ImageTask R
  claimed worker lease now t = record t {
    status = running;
    worker_id = some worker;
    lease_expires_at = some lease;
    updated_at = now;
  }

  -- `ImageTaskStore.claim`: the store, and the task that the worker has.
  unfoldable pub claim :
      Dict String (ImageTask R) → String → ℕ → ℕ → Dict String (ImageTask R) × Option (ImageTask R)
  unfolding sort_by earlier insert claimed
  claim d worker lease now = elim (sort_by earlier (keep (λ t. t.status == queued) (values d))) [
    | [] ↦ (d, none)
    | t ∷ ts ↦ (insert t.task_id (claimed worker lease now t) d, some (claimed worker lease now t))
  ]

  -- `task.status != "running" or task.worker_id != worker_id`, negated, of a task that is there.
  unfoldable pub held_by : String → Option (ImageTask R) → Bool
  held_by worker none = false
  held_by worker (some t) = (t.status == running) && (t.worker_id == some worker)

  unfoldable pub renewed :
      String → ℕ → Option (ImageTask R) → Dict String (ImageTask R) → Dict String (ImageTask R)
  unfolding insert
  renewed k lease none d = d
  renewed k lease (some t) d = insert k (record t { lease_expires_at = some lease }) d

  -- `ImageTaskStore.renew`: the store, and whether the worker holds the task.
  unfoldable pub renew :
      Dict String (ImageTask R) → String → String → ℕ → Dict String (ImageTask R) × Bool
  unfolding lookup held_by renewed
  renew d k worker lease =
      if held_by worker (lookup k d) then (renewed k lease (lookup k d) d, true) else (d, false)

  -- `ImageTaskStore.finish`
  unfoldable pub finish :
      Dict String (ImageTask R) → ImageTask R → String → Dict String (ImageTask R) × Bool
  unfolding lookup held_by insert
  finish d t worker =
      if held_by worker (lookup t.task_id d)
      then (insert t.task_id (record t { worker_id = none; lease_expires_at = none }) d, true)
      else (d, false)

  -- The test of `recover_expired`.
  unfoldable pub is_lost : ℕ → ImageTask R → Bool
  unfolding expired
  is_lost now t = (t.status == running) && expired now t.lease_expires_at

  -- `ImageTaskStore.recover_expired`: every task is replaced in its place.
  unfoldable pub recover_expired : ℕ → Dict String (ImageTask R) → Dict String (ImageTask R)
  unfolding is_lost interrupt
  recover_expired now [] = []
  recover_expired now ((k, t) ∷ d) =
      let rest = recover_expired now d in
      if is_lost now t then (k, interrupt now t) ∷ rest else (k, t) ∷ rest

-- The calls that change the store.
pub data StoreCall (R : Type 0) : Type 0 where
  creates : ImageTask R → StoreCall R
  claims : String → ℕ → ℕ → StoreCall R
  renews : String → String → ℕ → StoreCall R
  finishes : ImageTask R → String → StoreCall R
  recovers : ℕ → StoreCall R
  deletes : String → Option PrincipalScope → StoreCall R
  deletes_for_record : String → StoreCall R

module _ {R : Type 0} ⦃request_eq : Eq R⦄ where
  -- `same_submission`
  unfoldable pub same_submission : ImageTask R → ImageTask R → Bool
  same_submission t u =
      (t.owner_id == u.owner_id)
      && ((t.provider_id == u.provider_id)
          && ((t.request == u.request) && (t.session_id == u.session_id)))

  -- `create`, once the stored task of the same id is known.
  unfoldable pub created :
      Dict String (ImageTask R)
      → ImageTask R
      → Option (ImageTask R)
      → Result (Dict String (ImageTask R) × Bool)
  unfolding same_submission active_of insert
  created d t (some previous) =
      if not (previous.owner_id == t.owner_id)
      then err Error.image_task_not_found
      else if not (same_submission previous t)
      then err Error.image_task_conflict
      else ok (d, false)
  created d t none =
      if leb max_active_image_tasks (active_of t.owner_id d)
      then err Error.image_task_limit
      else ok (insert t.task_id t d, true)

  -- `ImageTaskStore.create`: the store, and whether the task is new.
  unfoldable pub create :
      Dict String (ImageTask R) → ImageTask R → Result (Dict String (ImageTask R) × Bool)
  unfolding created lookup
  create d t = created d t (lookup t.task_id d)

  unfoldable pub created_store :
      Dict String (ImageTask R)
      → Result (Dict String (ImageTask R) × Bool)
      → Dict String (ImageTask R)
  created_store d (ok (d', _)) = d'
  created_store d (err e) = d

  unfoldable pub deleted_store :
      Dict String (ImageTask R) → Result (Dict String (ImageTask R)) → Dict String (ImageTask R)
  deleted_store d (ok d') = d'
  deleted_store d (err e) = d

  -- The store after a call; a call that raises leaves it.
  unfoldable pub step : StoreCall R → Dict String (ImageTask R) → Dict String (ImageTask R)
  unfolding create claim renew finish recover_expired delete delete_for_record created_store
      deleted_store
  step (creates t) d = created_store d (create d t)
  step (claims worker lease now) d = (claim d worker lease now).0
  step (renews k worker lease) d = (renew d k worker lease).0
  step (finishes t worker) d = (finish d t worker).0
  step (recovers now) d = recover_expired now d
  step (deletes k scope) d = deleted_store d (delete d k scope)
  step (deletes_for_record k) d = delete_for_record d k

  unfoldable pub run : List (StoreCall R) → Dict String (ImageTask R) → Dict String (ImageTask R)
  unfolding step
  run [] d = d
  run (c ∷ cs) d = run cs (step c d)

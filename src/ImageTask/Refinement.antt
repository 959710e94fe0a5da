-- ===== src/ImageTask/Refinement.antt =====
-- What a task goes through, without the store: the life of one task, which the store refines.
use evernight_ai.Prelude.{
  option_beq_iff, ℕ, String, ◌≡◌, refl, sym, ap, ◌∙◌, inl, inr, Bool, true, false, not, ◌&&◌, ◌||◌,
  Option, none, some, List, [], ◌∷◌, arith, eq_iff, leb, if◌then◌else◌, Eq, ◌==◌, nat_eq, string_eq,
  option_eq, pair_eq, Bool-cases, Option-cases, option_beq_iff,
}
use evernight_ai.Dict.{Dict, lookup, insert, erase}
use evernight_ai.Auth.{PrincipalScope, scope_permits}
use evernight_ai.Dict.Laws.{lookup-insert, lookup-erase}
use evernight_ai.ImageTask.{
  ImageTask, ImageTaskStatus, ImageTaskStatus-discrete, status_eq, queued, running, succeeded,
  failed, interrupted, is_active, active_of, max_active_image_tasks, claimed, claim, held_by,
  renewed, renew, finish, is_lost, interrupt, recover_expired, delete, delete_for_record, created,
  created_store, deleted_store, permitted, get, create, task_item, StoreCall, creates, claims,
  renews, finishes, recovers, deletes, deletes_for_record, step, run,
}
use evernight_ai.ImageTask.Queue.{claim_exact}
use evernight_ai.ImageTask.Limit.{step-IsKeyed}
use evernight_ai.Registry.Listing.{IsKeyed}

-- A task is not there, waits, is held by a worker, or has ended.
pub data Phase : Type 0 where
  absent waiting : Phase
  held : Option String → Phase
  ended : ImageTaskStatus → Phase

unfoldable pub phase : ImageTaskStatus → Option String → Phase
phase queued w = waiting
phase running w = held w
phase succeeded w = ended succeeded
phase failed w = ended failed
phase interrupted w = ended interrupted

unfoldable pub phase_of : {R : Type 0} → Option (ImageTask R) → Phase
unfolding phase
phase_of none = absent
phase_of (some t) = phase t.status t.worker_id

-- The worker has the task in this phase.
abbrev pub is_held_by : String → Phase → Bool
is_held_by w (held v) = v == some w
is_held_by w p = false

-- The call may leave a task `k` in this phase as it is: an end by the worker that has the task and
-- the deletion of its record may not.
abbrev pub may_stay : {R : Type 0} → String → StoreCall R → Phase → Bool
may_stay k (finishes t w) p = not ((t.task_id == k) && is_held_by w p)
may_stay k (deletes_for_record j) absent = true
may_stay k (deletes_for_record j) p = not (j == k)
may_stay k c p = true

-- What one call does to the task `k`. A task is taken by one worker and only that worker ends it,
-- or its lease is lost; only an ended task is deleted, but with the record of its image any task is.
pub data Moves {R : Type 0} (k : String) : StoreCall R → Phase → Phase → Type 0 where
  stays : {c : StoreCall R} {p : Phase} → may_stay k c p ≡ true → Moves k c p p
  submitted : {t : ImageTask R} → t.task_id ≡ k → Moves k (creates t) absent waiting
  taken : {w : String} {lease now : ℕ} → Moves k (claims w lease now) waiting (held (some w))
  finished :
      {t : ImageTask R} {w : String}
      → t.task_id ≡ k
      → Moves k (finishes t w) (held (some w)) (ended t.status)
  lost : {now : ℕ} {w : Option String} → Moves k (recovers now) (held w) (ended interrupted)
  deleted :
      {scope : Option PrincipalScope} {s : ImageTaskStatus}
      → Moves k (deletes k scope) (ended s) absent
  forgotten : {p : Phase} → Moves k (deletes_for_record k) p absent

-- The calls as the submission and the workers make them: a task is submitted as queued, and is
-- finished with a status that ends it.
abbrev pub IsProper : {R : Type 0} → StoreCall R → Type 0
IsProper (creates t) = t.status ≡ queued
IsProper (finishes t worker) = is_active t ≡ false
IsProper c = Unit {0}

phase-ended :
    (s : ImageTaskStatus) (w : Option String)
    → ((s == queued) || (s == running)) ≡ false
    → phase s w ≡ ended s
unfolding phase ImageTaskStatus-discrete
phase-ended queued w h = ground (arith, h)
phase-ended running w h = ground (arith, h)
phase-ended succeeded w h = refl
phase-ended failed w h = refl
phase-ended interrupted w h = refl

phase-running :
    (s : ImageTaskStatus) (w : Option String) → (s == running) ≡ true → phase s w ≡ held w
unfolding phase ImageTaskStatus-discrete
phase-running queued w h = ground (arith, h)
phase-running running w h = refl
phase-running succeeded w h = ground (arith, h)
phase-running failed w h = ground (arith, h)
phase-running interrupted w h = ground (arith, h)

phase-is_held_by :
    (worker : String) (s : ImageTaskStatus) (w : Option String)
    → is_held_by worker (phase s w) ≡ (s == running) && (w == some worker)
unfolding phase ImageTaskStatus-discrete
phase-is_held_by worker queued w = refl
phase-is_held_by worker running w = refl
phase-is_held_by worker succeeded w = refl
phase-is_held_by worker failed w = refl
phase-is_held_by worker interrupted w = refl

may_stay-forget :
    (R : Type 0) (k j : String) (p : Phase)
    → (j == k) ≡ false
    → may_stay {R = R} k (deletes_for_record j) p ≡ true
may_stay-forget R k j absent other = refl
may_stay-forget R k j waiting other = rw other refl
may_stay-forget R k j (held w) other = rw other refl
may_stay-forget R k j (ended s) other = rw other refl

module _ {R : Type 0} ⦃request_eq : Eq R⦄ where
  -- From one store to another, the task moves.
  abbrev Moved :
      String → StoreCall R → Dict String (ImageTask R) → Dict String (ImageTask R) → Type 0
  Moved k c d d' = Moves k c (phase_of (lookup k d)) (phase_of (lookup k d'))

  Moved-insert :
      (k j : String) (c : StoreCall R) (t : ImageTask R) (d : Dict String (ImageTask R))
      → (j ≡ k → Moves k c (phase_of (lookup k d)) (phase_of (some t)))
      → ((j == k) ≡ false → may_stay k c (phase_of (lookup k d)) ≡ true)
      → Moved k c d (insert j t d)
  Moved-insert k j c t d h free = elim (Bool-cases (j == k)) [
    | inl b ↦ rw (lookup-insert j k t d, b) (h ((eq_iff j k).0 b))
    | inr b ↦ rw (lookup-insert j k t d, b) (stays (free b))
  ]

  Moved-erase :
      (k j : String) (c : StoreCall R) (d : Dict String (ImageTask R))
      → (j ≡ k → Moves k c (phase_of (lookup k d)) absent)
      → ((j == k) ≡ false → may_stay k c (phase_of (lookup k d)) ≡ true)
      → Moved k c d (erase j d)
  unfolding phase_of
  Moved-erase k j c d h free = elim (Bool-cases (j == k)) [
    | inl b ↦ rw (lookup-erase j k d, b) (h ((eq_iff j k).0 b))
    | inr b ↦ rw (lookup-erase j k d, b) (stays (free b))
  ]

  create-Moves :
      (k : String) (t : ImageTask R) (d : Dict String (ImageTask R))
      → t.status ≡ queued
      → Moved k (creates t) d (step (creates t) d)
  unfolding step create created created_store
  create-Moves k t d q = elim (Option-cases (lookup t.task_id d)) [
    | inl e ↦ elim (Bool-cases (leb max_active_image_tasks (active_of t.owner_id d))) [
      | inl b ↦ rw (e, b) (stays refl)
      | inr b ↦
          let new : (t.task_id ≡ k)
              → Moves k (creates t) (phase_of (lookup k d)) (phase_of (some t)) =
            λ same. unfold phase_of phase in rw (sym same, e, q) (submitted refl) in
          rw (e, b) (Moved-insert k t.task_id (creates t) t d new (λ other. refl))
    ]
    | inr (u, e) ↦
        let kept : created_store d (create d t) ≡ d =
          unfold create created created_store in ground (arith, e) in
        rw kept (stays refl)
  ]

  claim-Moves :
      (k worker : String) (lease now : ℕ) (d : Dict String (ImageTask R))
      → IsKeyed d
      → Moved k (claims worker lease now) d (claim d worker lease now).0
  claim-Moves k worker lease now d i = elim (claim_exact d worker lease now i) [
    | inl (w, e) ↦ rw e (stays refl)
    | inr (u, l, p, m, e) ↦
        let new : (u.task_id ≡ k)
            → Moves {R = R} k (claims worker lease now) (phase_of (lookup k d))
                (phase_of (some (claimed worker lease now u))) =
          λ same. unfold phase_of phase claimed in rw (sym same, l, p) taken in
        rw e (
          Moved-insert k u.task_id (claims worker lease now) (claimed worker lease now u) d new
            (λ other. refl))
  ]

  renew-Moves :
      (k j worker : String) (lease : ℕ) (d : Dict String (ImageTask R))
      → Moved k (renews j worker lease) d (renew d j worker lease).0
  unfolding renew renewed
  renew-Moves k j worker lease d = elim (Option-cases (lookup j d)) [
    | inl e ↦ rw e (stays refl)
    | inr (u, e) ↦ elim (Bool-cases (held_by worker (some u))) [
      | inl b ↦
          let u' : ImageTask R = record u { lease_expires_at = some lease } in
          let new : (j ≡ k)
              → Moves {R = R} k (renews j worker lease) (phase_of (lookup k d))
                  (phase_of (some u')) =
            λ same. unfold phase_of in rw (sym same, e) (stays refl) in
          rw (e, b) (Moved-insert k j (renews j worker lease) u' d new (λ other. refl))
      | inr b ↦ rw (e, b) (stays refl)
    ]
  ]

  phase_of-is_held_by :
      (worker : String) (o : Option (ImageTask R))
      → is_held_by worker (phase_of o) ≡ held_by worker o
  unfolding phase_of held_by
  phase_of-is_held_by worker none = refl
  phase_of-is_held_by worker (some u) = phase-is_held_by worker u.status u.worker_id

  phase-held :
      (worker : String) (o : Option (ImageTask R))
      → held_by worker o ≡ true
      → phase_of o ≡ held (some worker)
  unfolding phase_of held_by
  phase-held worker none h = ground (arith, h)
  phase-held worker (some u) h =
      let busy : (u.status == running) ≡ true = ground (arith, h) in
      let by : (u.worker_id == some worker) ≡ true = ground (arith, h) in
      phase-running u.status u.worker_id busy
      ∙ ap held ((option_beq_iff u.worker_id (some worker)).0 by)

  -- Where the worker does not have the task, its end of the task changes nothing.
  not_held-may_stay :
      (k worker : String) (t : ImageTask R) (d : Dict String (ImageTask R))
      → held_by worker (lookup t.task_id d) ≡ false
      → may_stay k (finishes t worker) (phase_of (lookup k d)) ≡ true
  not_held-may_stay k worker t d h = elim (Bool-cases (t.task_id == k)) [
    | inl b ↦
        let same : t.task_id ≡ k = (eq_iff t.task_id k).0 b in
        rw (b, sym same, phase_of-is_held_by worker (lookup t.task_id d), h) refl
    | inr b ↦ rw b refl
  ]

  finish-Moves :
      (k worker : String) (t : ImageTask R) (d : Dict String (ImageTask R))
      → is_active t ≡ false
      → Moved k (finishes t worker) d (finish d t worker).0
  unfolding finish
  finish-Moves k worker t d a = elim (Bool-cases (held_by worker (lookup t.task_id d))) [
    | inl b ↦
        let t' : ImageTask R = record t { worker_id = none; lease_expires_at = none } in
        let new : (t.task_id ≡ k)
            → Moves k (finishes t worker) (phase_of (lookup k d)) (phase_of (some t')) =
          λ same.
            let busy = phase-held worker (lookup t.task_id d) b in
            unfold phase_of is_active in
            rw (sym same, busy, phase-ended t.status none a) (finished refl) in
        rw b (Moved-insert k t.task_id (finishes t worker) t' d new (λ other. rw other refl))
    | inr b ↦ rw b (stays (not_held-may_stay k worker t d b))
  ]

  recover_expired_of : ℕ → Option (ImageTask R) → Option (ImageTask R)
  recover_expired_of now none = none
  recover_expired_of now (some t) = if is_lost now t then some (interrupt now t) else some t

  lookup-recover_expired :
      (now : ℕ) (k : String) (d : Dict String (ImageTask R))
      → lookup k (recover_expired now d) ≡ recover_expired_of now (lookup k d)
  unfolding recover_expired lookup recover_expired_of
  lookup-recover_expired now k [] = refl
  lookup-recover_expired now k ((j, u) ∷ d) = ground (arith, lookup-recover_expired now k d)

  recover-Moves :
      (k : String) (now : ℕ) (o : Option (ImageTask R))
      → Moves {R = R} k (recovers now) (phase_of o) (phase_of (recover_expired_of now o))
  unfolding recover_expired_of is_lost interrupt phase_of
  recover-Moves k now none = stays refl
  recover-Moves k now (some t) = elim (Bool-cases (is_lost now t)) [
    | inl b ↦
        let busy : (t.status == running) ≡ true = ground (arith, b) in
        rw (b, phase-running t.status t.worker_id busy) lost
    | inr b ↦ rw b (stays refl)
  ]

  delete-Moves :
      (k j : String) (scope : Option PrincipalScope) (d : Dict String (ImageTask R))
      → Moved k (deletes j scope) d (deleted_store d (delete d j scope))
  delete-Moves k j scope d = elim (Option-cases (lookup j d)) [
    | inl e ↦
        let kept : deleted_store d (delete d j scope) ≡ d =
          unfold deleted_store delete get permitted in ground (arith, e) in
        rw kept (stays refl)
    | inr (u, e) ↦ elim (Bool-cases (scope_permits scope u.owner_id && not (is_active u))) [
      | inl b ↦
          let idle : is_active u ≡ false = ground (arith, b) in
          let gone : deleted_store d (delete d j scope) ≡ erase j d =
            unfold deleted_store delete get permitted in ground (arith, e, b) in
          let old : (j ≡ k) → Moves {R = R} k (deletes j scope) (phase_of (lookup k d)) absent =
            λ same.
              unfold phase_of is_active in
              rw (same, sym same, e, phase-ended u.status u.worker_id idle) deleted in
          rw gone (Moved-erase k j (deletes j scope) d old (λ other. refl))
      | inr b ↦
          let kept : deleted_store d (delete d j scope) ≡ d =
            unfold deleted_store delete get permitted in ground (arith, e, b) in
          rw kept (stays refl)
    ]
  ]

  step_refines :
      (k : String) (c : StoreCall R) (d : Dict String (ImageTask R))
      → IsKeyed d
      → IsProper c
      → Moved k c d (step c d)
  unfolding step delete_for_record
  step_refines k (creates t) d i p = create-Moves k t d p
  step_refines k (claims worker lease now) d i p = claim-Moves k worker lease now d i
  step_refines k (renews j worker lease) d i p = renew-Moves k j worker lease d
  step_refines k (finishes t worker) d i p = finish-Moves k worker t d p
  step_refines k (recovers now) d i p =
      rw (lookup-recover_expired now k d) (recover-Moves k now (lookup k d))
  step_refines k (deletes j scope) d i p = delete-Moves k j scope d
  step_refines k (deletes_for_record j) d i p =
      Moved-erase k j (deletes_for_record j) d (λ same. rw same forgotten)
        (λ other. may_stay-forget R k j (phase_of (lookup k d)) other)

  run-IsKeyed :
      (cs : List (StoreCall R)) (d : Dict String (ImageTask R)) → IsKeyed d → IsKeyed (run cs d)
  unfolding run
  run-IsKeyed [] d i = i
  run-IsKeyed (c ∷ cs) d i = run-IsKeyed cs (step c d) (step-IsKeyed c d i)

  -- The store refines the life of each task: after any calls on a store that was empty at first,
  -- every further call takes the task of every id only from the phase that the store has it in to
  -- a phase to which `Moves` lets this call take it, provided that the call submits its task as
  -- queued, if it submits one, and finishes it with a status that ends it, if it finishes one.
  pub run_refines :
      (k : String) (cs : List (StoreCall R)) (c : StoreCall R)
      → IsProper c
      → Moves k c (phase_of (lookup k (run cs []))) (phase_of (lookup k (step c (run cs []))))
  run_refines k cs c p = step_refines k c (run cs []) (run-IsKeyed cs [] tt) p

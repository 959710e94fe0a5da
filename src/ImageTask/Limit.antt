-- ===== src/ImageTask/Limit.antt =====
-- No owner has more than ten tasks that wait or run.
use evernight_ai.Prelude.{
  option_beq_iff, ℕ, ◌+◌, ◌≤◌, String, ◌≡◌, refl, sym, ap, inl, inr, false, ◌&&◌, Option, none,
  some, List, [], ◌∷◌, arith, if◌then◌else◌, Eq, ◌==◌, nat_eq, string_eq, option_eq, pair_eq,
  Option-cases, All,
}
use mathlib.Core.Path.{subst}
use evernight_ai.Dict.{Dict, lookup, insert, erase, values}
use evernight_ai.ImageTask.{
  ImageTask, status_eq, max_active_image_tasks, is_active, interrupt, active_of, claimed, claim,
  held_by, renewed, renew, task_item, finish, is_lost, recover_expired, delete, delete_for_record,
  created, created_store, deleted_store, permitted, create, StoreCall, creates, claims, renews,
  finishes, recovers, deletes, deletes_for_record, step, run, get,
}
use evernight_ai.ImageTask.Queue.{claim_exact}
use evernight_ai.Registry.Listing.{IsKeyed, IsKeyed-lookup, Fresh, insert-IsKeyed, erase-IsKeyed}

module _ {R : Type 0} where
  -- What a task counts for an owner.
  abbrev pub weight : Option String → Option (ImageTask R) → ℕ
  weight owner none = 0
  weight owner (some t) = if (t.owner_id == owner) && is_active t then 1 else 0

  active-insert :
      (owner : Option String) (k : String) (t : ImageTask R) (d : Dict String (ImageTask R))
      → active_of owner (insert k t d) + weight owner (lookup k d)
        ≡ active_of owner d + weight owner (some t)
  unfolding active_of insert lookup
  active-insert owner k t [] = ground arith
  active-insert owner k t ((j, u) ∷ d) = ground (arith, active-insert owner k t d)

  active-erase :
      (owner : Option String) (k : String) (d : Dict String (ImageTask R))
      → active_of owner (erase k d) ≤ active_of owner d
  unfolding active_of erase
  active-erase owner k [] = omega arith
  active-erase owner k ((j, u) ∷ d) = ground (arith, active-erase owner k d)

  active-recover_expired :
      (owner : Option String) (now : ℕ) (d : Dict String (ImageTask R))
      → active_of owner (recover_expired now d) ≤ active_of owner d
  unfolding active_of recover_expired is_active interrupt is_lost
  active-recover_expired owner now [] = omega arith
  active-recover_expired owner now ((j, u) ∷ d) = ground (arith, active-recover_expired owner now d)

  claim-active :
      (owner : Option String) (d : Dict String (ImageTask R)) (worker : String) (lease now : ℕ)
      → IsKeyed d
      → active_of owner (claim d worker lease now).0 ≡ active_of owner d
  claim-active owner d worker lease now k = elim (claim_exact d worker lease now k) [
    | inl (w, e) ↦ rw e refl
    | inr (t, l, q, m, e) ↦
        let new = claimed worker lease now t in
        unfold claimed is_active in ground (arith, e, q, l, active-insert owner t.task_id new d)
  ]

  renew-active :
      (owner : Option String) (d : Dict String (ImageTask R)) (k worker : String) (lease : ℕ)
      → active_of owner (renew d k worker lease).0 ≡ active_of owner d
  unfolding renew renewed held_by is_active
  renew-active owner d k worker lease = elim (Option-cases (lookup k d)) [
    | inl e ↦ rw (renew, e) refl
    | inr (t, e) ↦
        ground (arith, e, active-insert owner k (record t { lease_expires_at = some lease }) d)
  ]

  finish-active :
      (owner : Option String) (d : Dict String (ImageTask R)) (t : ImageTask R) (worker : String)
      → is_active t ≡ false
      → active_of owner (finish d t worker).0 ≤ active_of owner d
  unfolding finish is_active
  finish-active owner d t worker a = ground (
    arith,
    a,
    active-insert owner t.task_id (record t { worker_id = none; lease_expires_at = none }) d,
  )

-- The calls as the workers and the submission make them: a task is finished with a status that ends
-- it.
abbrev pub EndsTask : {R : Type 0} → StoreCall R → Type 0
EndsTask (finishes t worker) = is_active t ≡ false
EndsTask c = Unit {0}

module _ {R : Type 0} ⦃request_eq : Eq R⦄ where
  -- No owner has more than ten.
  abbrev pub IsLimited : Dict String (ImageTask R) → Type 0
  IsLimited d = (owner : Option String) → active_of owner d ≤ max_active_image_tasks

  create-IsLimited :
      (d : Dict String (ImageTask R)) (t : ImageTask R)
      → IsLimited d
      → IsLimited (step (creates t) d)
  unfolding step create created created_store is_active
  create-IsLimited d t h owner = elim (Option-cases (lookup t.task_id d)) [
    | inl e ↦ ground (
      arith,
      e,
      h owner,
      h t.owner_id,
      option_beq_iff t.owner_id owner,
      active-insert owner t.task_id t d,
    )
    | inr (u, e) ↦ ground (arith, e, h owner)
  ]

  renew-IsKeyed :
      (d : Dict String (ImageTask R)) (k worker : String) (lease : ℕ)
      → IsKeyed d
      → IsKeyed (renew d k worker lease).0
  unfolding renew renewed held_by
  renew-IsKeyed d k worker lease i = elim (Option-cases (lookup k d)) [
    | inl e ↦ rw (renew, e) i
    | inr (t, e) ↦
        let new = record t { lease_expires_at = some lease } in
        ground (arith, e, i, IsKeyed-lookup k t d i e, insert-IsKeyed new d i)
  ]

  Fresh-recover_expired :
      (k : String) (now : ℕ) (d : Dict String (ImageTask R))
      → Fresh k (values d)
      → Fresh k (values (recover_expired now d))
  unfolding recover_expired interrupt
  Fresh-recover_expired k now [] f = tt
  Fresh-recover_expired k now ((j, t) ∷ d) f = ground (arith, f, Fresh-recover_expired k now d f.1)

  recover_expired-IsKeyed :
      (now : ℕ) (d : Dict String (ImageTask R)) → IsKeyed d → IsKeyed (recover_expired now d)
  unfolding recover_expired interrupt
  recover_expired-IsKeyed now [] i = tt
  recover_expired-IsKeyed now ((k, t) ∷ d) i =
      ground (arith, i, recover_expired-IsKeyed now d i.2, Fresh-recover_expired k now d i.1)

  -- Every task is stored under its own id, and no id is stored twice, after every call.
  pub step-IsKeyed :
      (c : StoreCall R) (d : Dict String (ImageTask R)) → IsKeyed d → IsKeyed (step c d)
  unfolding step create created created_store deleted_store delete get permitted finish
      delete_for_record
  step-IsKeyed (creates t) d i = elim (Option-cases (lookup t.task_id d)) [
    | inl e ↦ ground (arith, e, i, insert-IsKeyed t d i)
    | inr (u, e) ↦ ground (arith, e, i)
  ]
  step-IsKeyed (claims worker lease now) d i = elim (claim_exact d worker lease now i) [
    | inl (w, e) ↦ subst IsKeyed (sym (ap (λ p. p.0) e)) i
    | inr (t, l, q, m, e) ↦
        subst IsKeyed (sym (ap (λ p. p.0) e))
          (unfold claimed in insert-IsKeyed (claimed worker lease now t) d i)
  ]
  step-IsKeyed (renews k worker lease) d i = renew-IsKeyed d k worker lease i
  step-IsKeyed (finishes t worker) d i =
      ground (arith, i, insert-IsKeyed (record t { worker_id = none; lease_expires_at = none }) d i)
  step-IsKeyed (recovers now) d i = recover_expired-IsKeyed now d i
  step-IsKeyed (deletes k scope) d i = elim (Option-cases (lookup k d)) [
    | inl e ↦ ground (arith, e, i)
    | inr (u, e) ↦ ground (arith, e, i, erase-IsKeyed k d i)
  ]
  step-IsKeyed (deletes_for_record k) d i = erase-IsKeyed k d i

  -- No call lets an owner have more than ten tasks that wait or run, if a task that is finished is
  -- given a status that neither waits nor runs.
  pub step-IsLimited :
      (c : StoreCall R) (d : Dict String (ImageTask R))
      → EndsTask c
      → IsKeyed d
      → IsLimited d
      → IsLimited (step c d)
  unfolding step deleted_store delete get permitted delete_for_record
  step-IsLimited (creates t) d v i h owner = create-IsLimited d t h owner
  step-IsLimited (claims worker lease now) d v i h owner =
      omega (arith, claim-active owner d worker lease now i, h owner)
  step-IsLimited (renews k worker lease) d v i h owner =
      omega (arith, renew-active owner d k worker lease, h owner)
  step-IsLimited (finishes t worker) d v i h owner =
      omega (arith, finish-active owner d t worker v, h owner)
  step-IsLimited (recovers now) d v i h owner =
      omega (arith, active-recover_expired owner now d, h owner)
  step-IsLimited (deletes k scope) d v i h owner = elim (Option-cases (lookup k d)) [
    | inl e ↦ ground (arith, e, h owner)
    | inr (u, e) ↦ ground (arith, e, h owner, active-erase owner k d)
  ]
  step-IsLimited (deletes_for_record k) d v i h owner =
      omega (arith, active-erase owner k d, h owner)

  -- From a store that keeps each task under its own id and in which each owner has at most ten
  -- tasks that wait or run, no sequence of calls lets an owner have more, if the tasks that are
  -- finished are given a status that neither waits nor runs.
  pub run-IsLimited :
      (cs : List (StoreCall R)) (d : Dict String (ImageTask R))
      → All EndsTask cs
      → IsKeyed d
      → IsLimited d
      → IsLimited (run cs d)
  unfolding run
  run-IsLimited [] d v i h = h
  run-IsLimited (c ∷ cs) d v i h =
      run-IsLimited cs (step c d) v.1 (step-IsKeyed c d i) (step-IsLimited c d v.0 i h)

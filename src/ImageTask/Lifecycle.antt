-- ===== src/ImageTask/Lifecycle.antt =====
-- Who may change a task that a worker has or had.
use evernight_ai.Prelude.{
  beq_refl, ℕ, String, ◌≡◌, refl, sym, ap, ◌∙◌, inl, inr, Bool, false, not, ◌&&◌, none, some, [],
  ◌∷◌, arith, eq_iff, Eq, ◌==◌, nat_eq, string_eq, option_eq, pair_eq, Option-cases, ok,
}
use mathlib.Core.Path.{subst}
use evernight_ai.Dict.{Dict, lookup, insert}
use evernight_ai.Dict.Laws.{lookup-insert, lookup-erase}
use evernight_ai.ImageTask.{
  ImageTask, status_eq, queued, is_active, claimed, claim, held_by, renewed, renew, finish, is_lost,
  recover_expired, delete, delete_for_record, created, created_store, deleted_store, permitted, get,
  create, same_submission, task_item, StoreCall, creates, claims, renews, finishes, recovers,
  deletes, deletes_for_record, step,
}
use evernight_ai.ImageTask.Queue.{claim_exact}
use evernight_ai.Registry.Listing.{IsKeyed}

-- The calls that may change the task `t`, stored under `k`, once it has left the queue: the worker
-- that has it renews or finishes it, its lease is recovered, it is deleted when it has ended, or its
-- record is deleted.
unfoldable pub touches : {R : Type 0} → String → ImageTask R → StoreCall R → Bool
touches k t (creates u) = false
touches k t (claims worker lease now) = false
touches k t (renews j worker lease) = (j == k) && held_by worker (some t)
touches k t (finishes u worker) = (u.task_id == k) && held_by worker (some t)
touches k t (recovers now) = is_lost now t
touches k t (deletes j scope) = (j == k) && not (is_active t)
touches k t (deletes_for_record j) = j == k

module _ {R : Type 0} ⦃request_eq : Eq R⦄ where
  recover_expired-lookup :
      (now : ℕ) (k : String) (t : ImageTask R) (d : Dict String (ImageTask R))
      → lookup k d ≡ some t
      → is_lost now t ≡ false
      → lookup k (recover_expired now d) ≡ some t
  unfolding recover_expired lookup
  recover_expired-lookup now k t [] h e = h
  recover_expired-lookup now k t ((j, u) ∷ d) h e =
      ground (arith, h, e, recover_expired-lookup now k t d)

  claim-unchanged :
      (d : Dict String (ImageTask R)) (worker : String) (lease now : ℕ) (k : String)
      (t : ImageTask R)
      → IsKeyed d
      → lookup k d ≡ some t
      → (t.status == queued) ≡ false
      → lookup k (claim d worker lease now).0 ≡ some t
  claim-unchanged d worker lease now k t i h q = elim (claim_exact d worker lease now i) [
    | inl (w, e) ↦ ground (arith, e, h)
    | inr (u, l, p, m, e) ↦ ground (
      arith,
      e,
      h,
      l,
      p,
      q,
      eq_iff u.task_id k,
      lookup-insert u.task_id k (claimed worker lease now u) d,
    )
  ]

  -- In a store that keeps each task under its own id, a task that has left the queue is only
  -- changed by a renewal or an end from the worker that has it, by the recovery of a lease that
  -- has expired, by its deletion once it has ended, and by the deletion of its record: every other
  -- call leaves it as it is.
  pub step-unchanged :
      (c : StoreCall R) (d : Dict String (ImageTask R)) (k : String) (t : ImageTask R)
      → IsKeyed d
      → lookup k d ≡ some t
      → (t.status == queued) ≡ false
      → touches k t c ≡ false
      → lookup k (step c d) ≡ some t
  unfolding step touches create created created_store renew renewed finish held_by deleted_store
      delete get permitted delete_for_record
  step-unchanged (creates u) d k t i h q n =
      ground (arith, h, eq_iff u.task_id k, lookup-insert u.task_id k u d)
  step-unchanged (claims worker lease now) d k t i h q n =
      claim-unchanged d worker lease now k t i h q
  step-unchanged (renews j worker lease) d k t i h q n = elim (Option-cases (lookup j d)) [
    | inl e ↦ ground (arith, e, h)
    | inr (u, e) ↦ ground (
      arith,
      e,
      h,
      n,
      eq_iff j k,
      lookup-insert j k (record u { lease_expires_at = some lease }) d,
    )
  ]
  step-unchanged (finishes u worker) d k t i h q n =
      let ended = record u { worker_id = none; lease_expires_at = none } in
      ground (arith, h, n, eq_iff u.task_id k, lookup-insert u.task_id k ended d)
  step-unchanged (recovers now) d k t i h q n = recover_expired-lookup now k t d h n
  step-unchanged (deletes j scope) d k t i h q n = elim (Option-cases (lookup j d)) [
    | inl e ↦ ground (arith, e, h)
    | inr (u, e) ↦ ground (arith, e, h, n, eq_iff j k, lookup-erase j k d)
  ]
  step-unchanged (deletes_for_record j) d k t i h q n = ground (arith, h, n, lookup-erase j k d)

  -- A submission that succeeded can be sent again: the second call reports that the task is not
  -- new and leaves the store as it is.
  pub create_again :
      (d d' : Dict String (ImageTask R)) (t : ImageTask R) (is_new : Bool)
      → create d t ≡ ok (d', is_new)
      → create d' t ≡ ok (d', false)
  unfolding create created same_submission
  create_again d d' t is_new h = elim (Option-cases (lookup t.task_id d)) [
    | inl e ↦
        let stored : insert t.task_id t d ≡ d' = ground (arith, h, e) in
        let there : lookup t.task_id d' ≡ some t =
          ap (lookup t.task_id) (sym stored)
          ∙ lookup-insert t.task_id t.task_id t d
          ∙ rw (beq_refl t.task_id) refl in
        rw
          (
            create,
            there,
            beq_refl t.owner_id,
            beq_refl t.provider_id,
            beq_refl t.request,
            beq_refl t.session_id,
          )
          refl
    | inr (u, e) ↦
        let same_store : d ≡ d' = ground (arith, h, e) in
        let kept : create d t ≡ ok (d, false) = ground (arith, h, e) in
        subst (λ x. create x t ≡ ok (x, false)) same_store kept
  ]

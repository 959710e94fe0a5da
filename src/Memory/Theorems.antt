-- ===== src/Memory/Theorems.antt =====
-- What the memory manager promises.
use evernight_ai.Prelude.{
  ℕ, ◌≡◌, refl, Bool, true, false, ◌||◌, Option, List, [], ◌∷◌, arith, nat_eq, string_eq, option_eq,
  pair_eq, ok,
}
use evernight_ai.Auth.{PrincipalScope}
use evernight_ai.Registry
use evernight_ai.Registry.{register}
use evernight_ai.Registry.Laws.{
  kept_induction, kept_state_induction, SameOutside, SameOutside-trans, takes_over, has-takes_over,
  register-SameOutside, unregister-SameOutside,
}
use evernight_ai.Registry.Listing.{IsKeyed, register-IsKeyed, unregister-IsKeyed}
use evernight_ai.Registry.Clearing.{clear-IsKeyed, clear-SameOutside}
use evernight_ai.Memory.{
  Memories, MemoryItem, MemoryCall, creates, replaces, deletes, clears, memory_item, create,
  replace, delete, clear, step, run,
}

create_writes :
    (d d' : Memories) (c t : MemoryItem) (scope : Option PrincipalScope)
    → create d c scope ≡ ok (d', t)
    → register d c scope ≡ ok d'
unfolding create
create_writes d d' c t scope h = ground arith

replace_writes :
    (d d' : Memories) (c t : MemoryItem) (now : ℕ) (scope : Option PrincipalScope)
    → replace d c now scope ≡ ok (d', t)
    → (Registry.has d c.memory_id scope ≡ true)
      × (register d (record c { updated_at = now }) scope ≡ ok d')
unfolding replace
replace_writes d d' c t now scope h = ground arith

-- The call creates a memory under an id that a memory outside the scope has.
unfoldable pub usurps : Option PrincipalScope → Memories → MemoryCall → Bool
usurps scope d (creates c) = takes_over d scope c.memory_id
usurps scope d _ = false

-- Every call, failing or not, keeps each memory under its own id and no id twice.
step-IsKeyed :
    (scope : Option PrincipalScope) (d : Memories) (c : MemoryCall)
    → IsKeyed d
    → IsKeyed (step scope d c)
unfolding step delete clear
step-IsKeyed scope d (creates c) h =
    kept_induction (λ u. IsKeyed u) d _ h
      (λ d' t e. register-IsKeyed d d' c scope h (create_writes d d' c t scope e))
step-IsKeyed scope d (replaces c now) h =
    kept_induction (λ u. IsKeyed u) d _ h
      (λ d' t e. register-IsKeyed d d' _ scope h (replace_writes d d' c t now scope e).1)
step-IsKeyed scope d (deletes k) h =
    kept_state_induction (λ u. IsKeyed u) d (delete d k scope) h
      (λ d' e. unregister-IsKeyed d d' k scope h e)
step-IsKeyed scope d clears h =
    kept_state_induction (λ u. IsKeyed u) d (clear d scope) h (λ d' e. clear-IsKeyed d d' scope h e)

step-SameOutside :
    (scope : Option PrincipalScope) (d : Memories) (c : MemoryCall)
    → IsKeyed d
    → usurps scope d c ≡ false
    → SameOutside scope d (step scope d c)
unfolding step usurps delete clear
step-SameOutside scope d (creates c) h u =
    kept_induction (λ u. SameOutside scope d u) d _ (λ k. refl)
      (λ d' t e. register-SameOutside d d' c scope u (create_writes d d' c t scope e))
step-SameOutside scope d (replaces c now) h u =
    kept_induction (λ u. SameOutside scope d u) d _ (λ k. refl)
      (λ d' t e.
        let (seen, wrote) = replace_writes d d' c t now scope e in
        register-SameOutside d d' (record c { updated_at = now }) scope
          (has-takes_over d c.memory_id scope seen) wrote)
step-SameOutside scope d (deletes k) h u =
    kept_state_induction (λ u. SameOutside scope d u) d (delete d k scope) (λ k. refl)
      (λ d' e. unregister-SameOutside d d' k scope e)
step-SameOutside scope d clears h u =
    kept_state_induction (λ u. SameOutside scope d u) d (clear d scope) (λ k. refl)
      (λ d' e. clear-SameOutside d d' scope h e)

-- Whether some call of the sequence usurps, in the state in which it is made.
unfoldable pub any_usurps : Option PrincipalScope → Memories → List MemoryCall → Bool
unfolding usurps
any_usurps scope d [] = false
any_usurps scope d (c ∷ cs) = usurps scope d c || any_usurps scope (step scope d c) cs

-- From a register that keeps each memory under its own id, any calls under a scope, failing or
-- not, none of which creates a memory over a hidden one, leave the memories that the scope does
-- not permit as they were, and add none.
pub memories_run-SameOutside :
    (scope : Option PrincipalScope) (d : Memories) (cs : List MemoryCall)
    → IsKeyed d
    → any_usurps scope d cs ≡ false
    → SameOutside scope d (run scope d cs)
unfolding run any_usurps
memories_run-SameOutside scope d [] h u = λ k. refl
memories_run-SameOutside scope d (c ∷ cs) h u =
    SameOutside-trans scope d (step scope d c) _ (step-SameOutside scope d c h (ground arith))
      (memories_run-SameOutside scope (step scope d c) cs (step-IsKeyed scope d c h) (ground arith))

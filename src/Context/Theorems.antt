-- ===== src/Context/Theorems.antt =====
-- What the context manager promises.
use evernight_ai.Prelude.{
  ℕ, ◌+◌, String, ◌≡◌, refl, Bool, true, false, ◌&&◌, ◌||◌, Option, some, List, [], ◌∷◌, ◌++◌,
  arith, eq_iff, if◌then◌else◌, ◌==◌, nat_eq, string_eq, option_eq, pair_eq, ok, err, Error,
  require, >>=-eq-ok,
}
use evernight_ai.Dict.{lookup}
use evernight_ai.Dict.Laws.{lookup-insert}
use evernight_ai.Auth.{PrincipalScope}
use evernight_ai.Content.{Content, Context}
use evernight_ai.Registry
use evernight_ai.Registry.{register}
use evernight_ai.Registry.Laws.{
  kept_induction, kept_state_induction, SameOutside, SameOutside-trans, takes_over, has-takes_over,
  get-takes_over, get_found, register-SameOutside, unregister-SameOutside,
}
use evernight_ai.Registry.Listing.{IsKeyed, IsKeyed-lookup, register-IsKeyed, unregister-IsKeyed}
use evernight_ai.Registry.Clearing.{clear-IsKeyed, clear-SameOutside}
use evernight_ai.Context.{
  Contexts, ContextCall, creates, replaces, appends, deletes, clears, context_item, create, replace,
  append_message, revision_matches, delete, clear, step, run,
}

create_writes :
    (d d' : Contexts) (c t : Context) (scope : Option PrincipalScope)
    → create d c scope ≡ ok (d', t)
    → register d c scope ≡ ok d'
unfolding create
create_writes d d' c t scope h = ground arith

replace_writes :
    (d d' : Contexts) (c t : Context) (scope : Option PrincipalScope)
    → replace d c scope ≡ ok (d', t)
    → (Registry.has d c.context_id scope ≡ true) × (register d c scope ≡ ok d')
unfolding replace
replace_writes d d' c t scope h = ground arith

-- The context with one more message and the next revision.
abbrev pub appended : Content → Context → Context
appended m c = record c { messages = c.messages ++ m ∷ []; revision = c.revision + 1 }

append_writes :
    (d d' : Contexts) (k : String) (m : Content) (expected : Option ℕ) (t : Context)
    (scope : Option PrincipalScope)
    → append_message d k m expected scope ≡ ok (d', t)
    → (c : Context) × (Registry.get d k scope ≡ ok c)
      × (revision_matches expected c.revision ≡ true)
      × (register d (appended m c) scope ≡ ok d')
      × (t ≡ appended m c)
unfolding append_message
append_writes d d' k m expected t scope h =
    let (c, read, rest) = >>=-eq-ok (Registry.get d k scope) _ h in
    let (u, checked, later) =
      >>=-eq-ok (require (revision_matches expected c.revision) Error.context_state) _ rest in
    let (w, wrote, e) = >>=-eq-ok (register d (appended m c) scope) _ later in
    (c, read, ground arith, ground arith, ground arith)

-- The call creates a context under an id that a context outside the scope has.
unfoldable pub usurps : Option PrincipalScope → Contexts → ContextCall → Bool
usurps scope d (creates c) = takes_over d scope c.context_id
usurps scope d _ = false

-- Every call, failing or not, keeps each context under its own id and no id twice.
step-IsKeyed :
    (scope : Option PrincipalScope) (d : Contexts) (c : ContextCall)
    → IsKeyed d
    → IsKeyed (step scope d c)
unfolding step delete clear
step-IsKeyed scope d (creates c) h =
    kept_induction (λ u. IsKeyed u) d _ h
      (λ d' t e. register-IsKeyed d d' c scope h (create_writes d d' c t scope e))
step-IsKeyed scope d (replaces c) h =
    kept_induction (λ u. IsKeyed u) d _ h
      (λ d' t e. register-IsKeyed d d' _ scope h (replace_writes d d' c t scope e).1)
step-IsKeyed scope d (appends k m expected) h =
    kept_induction (λ u. IsKeyed u) d _ h
      (λ d' t e.
        let w = append_writes d d' k m expected t scope e in
        register-IsKeyed d d' (appended m w.0) scope h w.3)
step-IsKeyed scope d (deletes k) h =
    kept_state_induction (λ u. IsKeyed u) d (delete d k scope) h
      (λ d' e. unregister-IsKeyed d d' k scope h e)
step-IsKeyed scope d clears h =
    kept_state_induction (λ u. IsKeyed u) d (clear d scope) h (λ d' e. clear-IsKeyed d d' scope h e)

step-SameOutside :
    (scope : Option PrincipalScope) (d : Contexts) (c : ContextCall)
    → IsKeyed d
    → usurps scope d c ≡ false
    → SameOutside scope d (step scope d c)
unfolding step usurps delete clear
step-SameOutside scope d (creates c) h u =
    kept_induction (λ u. SameOutside scope d u) d _ (λ k. refl)
      (λ d' t e. register-SameOutside d d' c scope u (create_writes d d' c t scope e))
step-SameOutside scope d (replaces c) h u =
    kept_induction (λ u. SameOutside scope d u) d _ (λ k. refl)
      (λ d' t e.
        let (seen, wrote) = replace_writes d d' c t scope e in
        register-SameOutside d d' c scope (has-takes_over d c.context_id scope seen) wrote)
step-SameOutside scope d (appends k m expected) h u =
    kept_induction (λ u. SameOutside scope d u) d _ (λ k. refl)
      (λ d' t e.
        let (c, read, checked, wrote, same) = append_writes d d' k m expected t scope e in
        register-SameOutside d d' (appended m c) scope
          (get-takes_over d k c scope (IsKeyed-lookup k c d h (get_found d k scope c read).0) read)
          wrote)
step-SameOutside scope d (deletes k) h u =
    kept_state_induction (λ u. SameOutside scope d u) d (delete d k scope) (λ k. refl)
      (λ d' e. unregister-SameOutside d d' k scope e)
step-SameOutside scope d clears h u =
    kept_state_induction (λ u. SameOutside scope d u) d (clear d scope) (λ k. refl)
      (λ d' e. clear-SameOutside d d' scope h e)

-- Whether some call of the sequence usurps, in the state in which it is made.
unfoldable pub any_usurps : Option PrincipalScope → Contexts → List ContextCall → Bool
unfolding usurps
any_usurps scope d [] = false
any_usurps scope d (c ∷ cs) = usurps scope d c || any_usurps scope (step scope d c) cs

-- From a register that keeps each context under its own id, any calls under a scope, failing or
-- not, none of which creates a context over a hidden one, leave the contexts that the scope does
-- not permit as they were, and add none.
pub contexts_run-SameOutside :
    (scope : Option PrincipalScope) (d : Contexts) (cs : List ContextCall)
    → IsKeyed d
    → any_usurps scope d cs ≡ false
    → SameOutside scope d (run scope d cs)
unfolding run any_usurps
contexts_run-SameOutside scope d [] h u = λ k. refl
contexts_run-SameOutside scope d (c ∷ cs) h u =
    SameOutside-trans scope d (step scope d c) _ (step-SameOutside scope d c h (ground arith))
      (contexts_run-SameOutside scope (step scope d c) cs (step-IsKeyed scope d c h) (ground arith))

-- In a register that keeps each context under its own id, a message is appended to the context
-- that the scope can see under the id, exactly when the revision is the expected one; the revision
-- then grows by one, and no other context changes.
pub append_exact :
    (scope : Option PrincipalScope) (d : Contexts) (k j : String) (m : Content)
    (expected : Option ℕ) (c : Context)
    → IsKeyed d
    → Registry.get d k scope ≡ ok c
    → lookup j (step scope d (appends k m expected)) ≡ (
        if (k == j) && revision_matches expected c.revision
        then some (appended m c)
        else lookup j d)
unfolding step append_message register
append_exact scope d k j m expected c h e = ground (
  arith,
  e,
  get_found d k scope c e,
  lookup-insert c.context_id j (appended m c) d,
  IsKeyed-lookup k c d h,
  eq_iff k j,
  eq_iff c.context_id j,
)

-- In a register that keeps each context under its own id, after an append that expects a revision
-- has succeeded, a second append to the same context that expects that revision raises a state
-- error.
pub append_twice :
    (scope : Option PrincipalScope) (d d' : Contexts) (k : String) (m n : Content) (r : ℕ)
    (c : Context)
    → IsKeyed d
    → append_message d k m (some r) scope ≡ ok (d', c)
    → append_message d' k n (some r) scope ≡ err Error.context_state
unfolding append_message register Registry.get
append_twice scope d d' k m n r c h e =
    let (b, read, checked, wrote, same) = append_writes d d' k m (some r) c scope e in
    ground (
      arith,
      get_found d k scope b read,
      IsKeyed-lookup k b d h,
      wrote,
      checked,
      lookup-insert b.context_id k (appended m b) d,
      eq_iff b.context_id k,
      lookup-insert k k (appended m b) d,
    )

-- ===== src/Session/Theorems.antt =====
-- What the session manager promises.
use evernight_ai.Prelude.{
  ℕ, String, ◌≡◌, refl, inl, inr, Bool, true, false, ◌&&◌, ◌||◌, Option, some, List, [], ◌∷◌, arith,
  eq_iff, if◌then◌else◌, ◌==◌, nat_eq, string_eq, option_eq, pair_eq, Option-cases, ok, >>=-eq-ok,
}
use mathlib.Core.Option
use evernight_ai.Dict.{lookup}
use evernight_ai.Dict.Laws.{lookup-insert}
use evernight_ai.Auth.{PrincipalScope, scope_permits}
use evernight_ai.Registry
use evernight_ai.Registry.{Item, register, unregister}
use evernight_ai.Registry.Laws.{
  kept_induction, kept_state_induction, SameOutside, SameOutside-trans, takes_over, has-takes_over,
  register-SameOutside, unregister-SameOutside, get_found, get-takes_over,
}
use evernight_ai.Registry.Listing.{IsKeyed, IsKeyed-lookup, register-IsKeyed, unregister-IsKeyed}
use evernight_ai.Registry.Clearing.{clear-IsKeyed, clear-SameOutside}
use evernight_ai.Session.{
  Session, Sessions, SessionCall, creates, replaces, archives, deletes, clears, session_item,
  create, replace, archive, delete, clear, archived, step, run,
}

-- What a call that changes a session does: it reads the session in its scope and writes it back.
replace_writes :
    (d d' : Sessions) (s t : Session) (now : ℕ) (scope : Option PrincipalScope)
    → replace d s now scope ≡ ok (d', t)
    → (Registry.has d s.session_id scope ≡ true)
      × (register d (record s { updated_at = now }) scope ≡ ok d')
unfolding replace
replace_writes d d' s t now scope h = ground arith

abbrev pub archived_at : ℕ → Session → Session
archived_at now s = record s { status = archived; updated_at = now }

archive_writes :
    (d d' : Sessions) (k : String) (t : Session) (now : ℕ) (scope : Option PrincipalScope)
    → archive d k now scope ≡ ok (d', t)
    → (s : Session) × (Registry.get d k scope ≡ ok s)
      × (register d (archived_at now s) scope ≡ ok d')
      × (t ≡ archived_at now s)
unfolding archive
archive_writes d d' k t now scope h =
    let (s, read, wrote) = >>=-eq-ok (Registry.get d k scope) _ h in
    let (u, written, e) = >>=-eq-ok (register d (archived_at now s) scope) _ wrote in
    (s, read, ground arith, ground arith)

create_writes :
    (d d' : Sessions) (s t : Session) (scope : Option PrincipalScope)
    → create d s scope ≡ ok (d', t)
    → register d s scope ≡ ok d'
unfolding create
create_writes d d' s t scope h = ground arith

-- The call creates a session under an id that a session outside the scope has.
unfoldable pub usurps : Option PrincipalScope → Sessions → SessionCall → Bool
usurps scope d (creates s) = takes_over d scope s.session_id
usurps scope d _ = false

-- Every call, failing or not, keeps each session under its own id and no id twice.
step-IsKeyed :
    (scope : Option PrincipalScope) (d : Sessions) (c : SessionCall)
    → IsKeyed d
    → IsKeyed (step scope d c)
unfolding step delete clear
step-IsKeyed scope d (creates s) h =
    kept_induction (λ u. IsKeyed u) d _ h
      (λ d' t e. register-IsKeyed d d' s scope h (create_writes d d' s t scope e))
step-IsKeyed scope d (replaces s now) h =
    kept_induction (λ u. IsKeyed u) d _ h
      (λ d' t e. register-IsKeyed d d' _ scope h (replace_writes d d' s t now scope e).1)
step-IsKeyed scope d (archives k now) h =
    kept_induction (λ u. IsKeyed u) d _ h
      (λ d' t e. let w = archive_writes d d' k t now scope e in register-IsKeyed d d' _ scope h w.2)
step-IsKeyed scope d (deletes k) h =
    kept_state_induction (λ u. IsKeyed u) d (delete d k scope) h
      (λ d' e. unregister-IsKeyed d d' k scope h e)
step-IsKeyed scope d clears h =
    kept_state_induction (λ u. IsKeyed u) d (clear d scope) h (λ d' e. clear-IsKeyed d d' scope h e)

-- A call under a scope that creates no session over a hidden one changes nothing outside the scope.
step-SameOutside :
    (scope : Option PrincipalScope) (d : Sessions) (c : SessionCall)
    → IsKeyed d
    → usurps scope d c ≡ false
    → SameOutside scope d (step scope d c)
unfolding step usurps delete clear
step-SameOutside scope d (creates s) h u =
    kept_induction (λ u. SameOutside scope d u) d _ (λ k. refl)
      (λ d' t e. register-SameOutside d d' s scope u (create_writes d d' s t scope e))
step-SameOutside scope d (replaces s now) h u =
    kept_induction (λ u. SameOutside scope d u) d _ (λ k. refl)
      (λ d' t e.
        let (seen, wrote) = replace_writes d d' s t now scope e in
        register-SameOutside d d' _ scope (has-takes_over d s.session_id scope seen) wrote)
step-SameOutside scope d (archives k now) h u =
    kept_induction (λ u. SameOutside scope d u) d _ (λ k. refl)
      (λ d' t e.
        let (s, read, wrote, same) = archive_writes d d' k t now scope e in
        register-SameOutside d d' (archived_at now s) scope
          (get-takes_over d k s scope (IsKeyed-lookup k s d h (get_found d k scope s read).0) read)
          wrote)
step-SameOutside scope d (deletes k) h u =
    kept_state_induction (λ u. SameOutside scope d u) d (delete d k scope) (λ k. refl)
      (λ d' e. unregister-SameOutside d d' k scope e)
step-SameOutside scope d clears h u =
    kept_state_induction (λ u. SameOutside scope d u) d (clear d scope) (λ k. refl)
      (λ d' e. clear-SameOutside d d' scope h e)

-- Whether some call of the sequence usurps, in the state in which it is made.
unfoldable pub any_usurps : Option PrincipalScope → Sessions → List SessionCall → Bool
unfolding usurps
any_usurps scope d [] = false
any_usurps scope d (c ∷ cs) = usurps scope d c || any_usurps scope (step scope d c) cs

-- From a register that keeps each session under its own id, any calls under a scope, failing or
-- not, none of which creates a session over a hidden one, leave the sessions that the scope does
-- not permit as they were, and add none.
pub sessions_run-SameOutside :
    (scope : Option PrincipalScope) (d : Sessions) (cs : List SessionCall)
    → IsKeyed d
    → any_usurps scope d cs ≡ false
    → SameOutside scope d (run scope d cs)
unfolding run any_usurps
sessions_run-SameOutside scope d [] h u = λ k. refl
sessions_run-SameOutside scope d (c ∷ cs) h u =
    SameOutside-trans scope d (step scope d c) _ (step-SameOutside scope d c h (ground arith))
      (sessions_run-SameOutside scope (step scope d c) cs (step-IsKeyed scope d c h) (ground arith))

-- Any calls, failing or not, keep each session under its own id and no id twice.
pub run-IsKeyed :
    (scope : Option PrincipalScope) (d : Sessions) (cs : List SessionCall)
    → IsKeyed d
    → IsKeyed (run scope d cs)
unfolding run
run-IsKeyed scope d [] h = h
run-IsKeyed scope d (c ∷ cs) h = run-IsKeyed scope (step scope d c) cs (step-IsKeyed scope d c h)

-- Where a session of another owner is stored under an id, creating a session of one's own under
-- that id succeeds and replaces it.
pub create_usurps :
    (scope : Option PrincipalScope) (d : Sessions) (s t : Session)
    → lookup s.session_id d ≡ some t
    → scope_permits scope t.owner_id ≡ false
    → scope_permits scope s.owner_id ≡ true
    → lookup s.session_id (step scope d (creates s)) ≡ some s
unfolding step create register Registry.get
create_usurps scope d s t h p q =
    ground (arith, lookup-insert s.session_id s.session_id s d, eq_iff s.session_id s.session_id)

-- In a register that keeps each session under its own id, `archive` of a session that the scope
-- can see marks it archived at the given time, and changes no other session; of any other id it
-- changes nothing.
pub archive_exact :
    (scope : Option PrincipalScope) (d : Sessions) (k j : String) (now : ℕ)
    → IsKeyed d
    → lookup j (step scope d (archives k now)) ≡ (
        if (k == j) && Registry.has d k scope
        then Option.map (archived_at now) (lookup j d)
        else lookup j d)
unfolding step archive register Registry.get
archive_exact scope d k j now h = elim (Option-cases (lookup k d)) [
  | inl e ↦ ground (arith, e)
  | inr (s, e) ↦ ground (
    arith,
    e,
    lookup-insert s.session_id j (archived_at now s) d,
    IsKeyed-lookup k s d h e,
    eq_iff k j,
    eq_iff s.session_id j,
  )
]

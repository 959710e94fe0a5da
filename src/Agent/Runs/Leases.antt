-- ===== src/Agent/Runs/Leases.antt =====
-- An executor whose lease was taken over changes nothing any more.
use evernight_ai.Prelude.{
  ℕ, suc, ◌≤◌, ◌<◌, String, ◌≡◌, refl, ◌∙◌, inl, inr, Bool, true, false, ◌&&◌, ◌||◌, Option, none,
  some, List, [], ◌∷◌, arith, eq_iff, ◌==◌, nat_eq, string_eq, option_eq, pair_eq, beq_refl,
  Bool-cases, Option-cases, when, any, is_some, Result, ok, err, Error, Result-cases,
}
use mathlib.Core.Path.{subst}
use evernight_ai.Dict.{lookup, insert}
use evernight_ai.Dict.Laws.{lookup-insert, lookup-erase}
use evernight_ai.Auth.{PrincipalScope, scope_permits}
use evernight_ai.Agent.{AgentRunState}
use evernight_ai.Agent.Runs.{
  Runs, RunRow, HeldAgentRunLease, RunCall, creates, deletes, saves, acquires, heartbeats, releases,
  clears, row_of, require_scope, holds, is_free, leased, save_state, acquire_lease, heartbeat_lease,
  release_lease, clear_execution_lease, create_state, delete_state, step, run, kept, kept_first,
  save_held, save_free, new_row, with_payload, unleased,
}

-- The generation of a run's lease, with that of a run that is not there.
generation_of : Option RunRow → ℕ
generation_of none = 0
generation_of (some r) = r.lease_generation

unfoldable pub generation : Runs → String → ℕ
unfolding generation_of
generation runs k = generation_of (lookup k runs)

-- Rewriting a row without lowering its generation.
generation-insert :
    (runs : Runs) (j k : String) (r : RunRow)
    → generation runs j ≤ r.lease_generation
    → generation runs k ≤ generation (insert j r runs) k
unfolding generation generation_of
generation-insert runs j k r h = ground (arith, h, lookup-insert j k r runs, eq_iff j k)

-- The generation in a row that a statement found.
found_generation :
    (runs : Runs) (j : String) (p : RunRow → Bool) (r : RunRow)
    → when p (lookup j runs) ≡ some r
    → generation runs j ≡ r.lease_generation
unfolding generation generation_of
found_generation runs j p r h = elim (Option-cases (lookup j runs)) [
  | inl e ↦ ground (arith, h, e)
  | inr (q, e) ↦ ground (arith, h, e)
]

seen_generation :
    (runs : Runs) (j : String) (scope : Option PrincipalScope) (p : RunRow → Bool) (r : RunRow)
    → when p (row_of runs j scope) ≡ some r
    → generation runs j ≡ r.lease_generation
unfolding row_of
seen_generation runs j scope p r h =
    elim (Option-cases (when (λ q. scope_permits scope q.payload.owner_id) (lookup j runs))) [
      | inl e ↦ ground (arith, h, e)
      | inr (q, e) ↦
          found_generation runs j (λ q. scope_permits scope q.payload.owner_id) q e
          ∙ ground (arith, h, e)
    ]

save_free_le :
    (runs : Runs) (state : AgentRunState) (now : ℕ) (k : String)
    → generation runs k ≤ generation (save_free runs state now) k
unfolding save_free
save_free_le runs state now k = elim (Option-cases (lookup state.run_id runs)) [
  | inl p ↦
      rw (save_free, p)
        (generation-insert runs state.run_id k (new_row state now)
          (unfold generation generation_of in rw p (omega arith)))
  | inr (r, p) ↦
      rw (save_free, p)
        (generation-insert runs state.run_id k (with_payload state r)
          (unfold generation generation_of in rw p (omega arith)))
]

save_held_le :
    (runs : Runs) (lease : HeldAgentRunLease) (state : AgentRunState) (k : String)
    → generation runs k ≤ generation (kept runs (save_held runs lease state)) k
unfolding save_held kept
save_held_le runs lease state k =
    elim (Option-cases (when (holds lease.owner lease.generation) (lookup state.run_id runs))) [
      | inl p ↦ rw (save_held, p) (omega arith)
      | inr (r, p) ↦
          rw (save_held, p)
            (generation-insert runs state.run_id k (with_payload state r) (
              omega (
                arith,
                found_generation runs state.run_id (holds lease.owner lease.generation) r p,
              )))
    ]

save_le :
    (runs : Runs) (held : Option HeldAgentRunLease) (state : AgentRunState) (now : ℕ)
    (scope : Option PrincipalScope) (k : String)
    → generation runs k ≤ generation (kept runs (save_state runs held state now scope)) k
unfolding save_state kept require_scope
save_le runs held state now scope k = elim (Bool-cases (scope_permits scope state.owner_id)) [
  | inl a ↦ elim (Option-cases (when (λ lease. lease.run_id == state.run_id) held)) [
    | inl p ↦ rw (save_state, a, p) (save_free_le runs state now k)
    | inr (lease, p) ↦ rw (save_state, a, p) (save_held_le runs lease state k)
  ]
  | inr a ↦ rw (save_state, a) (omega arith)
]

acquire_le :
    (runs : Runs) (j owner : String) (ttl now : ℕ) (scope : Option PrincipalScope) (k : String)
    → generation runs k ≤ generation (kept_first runs (acquire_lease runs j owner ttl now scope)) k
unfolding acquire_lease kept_first
acquire_le runs j owner ttl now scope k =
    elim (Option-cases (when (is_free owner now) (row_of runs j scope))) [
      | inl p ↦ rw (acquire_lease, p) (omega arith)
      | inr (r, p) ↦
          rw (acquire_lease, p)
            (generation-insert runs j k (leased owner ttl now r)
              (omega (arith, seen_generation runs j scope (is_free owner now) r p)))
    ]

heartbeat_le :
    (runs : Runs) (j owner : String) (g ttl now : ℕ) (scope : Option PrincipalScope) (k : String)
    → generation runs k ≤ generation (heartbeat_lease runs j owner g ttl now scope).0 k
unfolding heartbeat_lease
heartbeat_le runs j owner g ttl now scope k =
    elim (Option-cases (when (holds owner g) (row_of runs j scope))) [
      | inl p ↦ rw (heartbeat_lease, p) (omega arith)
      | inr (r, p) ↦
          rw (heartbeat_lease, p)
            (generation-insert runs j k _
              (omega (arith, seen_generation runs j scope (holds owner g) r p)))
    ]

release_le :
    (runs : Runs) (j owner : String) (g : ℕ) (scope : Option PrincipalScope) (k : String)
    → generation runs k ≤ generation (release_lease runs j owner g scope) k
unfolding release_lease
release_le runs j owner g scope k =
    elim (Option-cases (when (holds owner g) (row_of runs j scope))) [
      | inl p ↦ rw (release_lease, p) (omega arith)
      | inr (r, p) ↦
          rw (release_lease, p)
            (generation-insert runs j k (unleased r)
              (omega (arith, seen_generation runs j scope (holds owner g) r p)))
    ]

clear_le :
    (runs : Runs) (j : String) (scope : Option PrincipalScope) (k : String)
    → generation runs k ≤ generation (kept runs (clear_execution_lease runs j scope)) k
unfolding clear_execution_lease kept row_of
clear_le runs j scope k =
    elim (Option-cases (when (λ q. scope_permits scope q.payload.owner_id) (lookup j runs))) [
      | inl p ↦ rw (clear_execution_lease, p) (omega arith)
      | inr (r, p) ↦
          rw (clear_execution_lease, p)
            (generation-insert runs j k (unleased r) (omega (arith, found_generation runs j _ r p)))
    ]

create_le :
    (runs : Runs) (state : AgentRunState) (now : ℕ) (scope : Option PrincipalScope) (k : String)
    → generation runs k ≤ generation (kept runs (create_state runs state now scope)) k
unfolding create_state kept require_scope
create_le runs state now scope k = elim (Bool-cases (scope_permits scope state.owner_id)) [
  | inl a ↦ elim (Option-cases (lookup state.run_id runs)) [
    | inl p ↦
        rw (create_state, a, p)
          (generation-insert runs state.run_id k (new_row state now)
            (unfold generation generation_of in rw p (omega arith)))
    | inr (r, p) ↦ rw (create_state, a, p) (omega arith)
  ]
  | inr a ↦ rw (create_state, a) (omega arith)
]

delete_le :
    (runs : Runs) (j : String) (scope : Option PrincipalScope) (k : String)
    → (j == k) ≡ false
    → generation runs k ≤ generation (kept runs (delete_state runs j scope)) k
unfolding delete_state kept generation
delete_le runs j scope k other = elim (Bool-cases (is_some (row_of runs j scope))) [
  | inl p ↦ rw (delete_state, p, lookup-erase j k runs, other) (omega arith)
  | inr p ↦ rw (delete_state, p) (omega arith)
]

-- The call deletes the run, or tries to.
abbrev pub deletes_run : String → RunCall → Bool
deletes_run k (deletes j) = j == k
deletes_run k _ = false

-- Some call of the sequence does.
abbrev pub any_deletes : String → List (Option PrincipalScope × RunCall) → Bool
any_deletes k calls = any (λ c. deletes_run k c.1) calls

step_le :
    (scope : Option PrincipalScope) (runs : Runs) (c : RunCall) (k : String)
    → deletes_run k c ≡ false
    → generation runs k ≤ generation (step scope runs c) k
unfolding step
step_le scope runs (creates state now) k n = create_le runs state now scope k
step_le scope runs (saves held state now) k n = save_le runs held state now scope k
step_le scope runs (acquires j owner ttl now) k n = acquire_le runs j owner ttl now scope k
step_le scope runs (heartbeats j owner g ttl now) k n = heartbeat_le runs j owner g ttl now scope k
step_le scope runs (releases j owner g) k n = release_le runs j owner g scope k
step_le scope runs (clears j) k n = clear_le runs j scope k
step_le scope runs (deletes j) k n = delete_le runs j scope k n

run_le :
    (runs : Runs) (calls : List (Option PrincipalScope × RunCall)) (k : String)
    → any_deletes k calls ≡ false
    → generation runs k ≤ generation (run runs calls) k
unfolding run
run_le runs [] k n = omega arith
run_le runs ((scope, c) ∷ calls) k n = omega (
  arith,
  step_le scope runs c k (ground (arith, n)),
  run_le (step scope runs c) calls k (ground (arith, n)),
)

returns : Result (Runs × ℕ) → Bool
returns (err x) = false
returns (ok p) = true

-- The call acquires the lease of the run.
unfoldable pub acquires_run : Option PrincipalScope → Runs → RunCall → String → Bool
unfolding returns
acquires_run scope runs (acquires j owner ttl now) k =
    (j == k) && returns (acquire_lease runs j owner ttl now scope)
acquires_run scope runs _ k = false

acquired_generation :
    (runs runs' : Runs) (k owner : String) (ttl now g : ℕ) (scope : Option PrincipalScope)
    → acquire_lease runs k owner ttl now scope ≡ ok (runs', g)
    → (generation runs' k ≡ g) × (g ≡ suc (generation runs k))
unfolding acquire_lease generation generation_of
acquired_generation runs runs' k owner ttl now g scope h =
    elim (Option-cases (when (is_free owner now) (row_of runs k scope))) [
      | inl p ↦ ground (arith, h, p)
      | inr (r, p) ↦ ground (
        arith,
        h,
        p,
        seen_generation runs k scope (is_free owner now) r p,
        lookup-insert k k (leased owner ttl now r) runs,
        eq_iff k k,
      )
    ]

acquires_step :
    (scope : Option PrincipalScope) (runs : Runs) (c : RunCall) (k : String)
    → acquires_run scope runs c k ≡ true
    → generation runs k < generation (step scope runs c) k
unfolding step acquires_run returns kept_first
acquires_step scope runs (acquires j owner ttl now) k h =
    elim (Result-cases (acquire_lease runs j owner ttl now scope)) [
      | inl (q, p) ↦
          let (new, above) = acquired_generation runs q.0 j owner ttl now q.1 scope p in
          let same : j ≡ k = ground (arith, h, p, eq_iff j k) in
          rw p (subst (λ i. generation runs i < generation q.0 i) same (omega (arith, new, above)))
      | inr (x, p) ↦ ground (arith, h, p)
    ]
acquires_step scope runs (saves held state now) k h = ground arith
acquires_step scope runs (heartbeats j owner g ttl now) k h = ground arith
acquires_step scope runs (releases j owner g) k h = ground arith
acquires_step scope runs (clears j) k h = ground arith
acquires_step scope runs (creates state now) k h = ground arith
acquires_step scope runs (deletes j) k h = ground arith

-- Some call of the sequence acquires the lease of the run.
unfoldable pub any_acquires : Runs → List (Option PrincipalScope × RunCall) → String → Bool
unfolding acquires_run
any_acquires runs [] k = false
any_acquires runs ((scope, c) ∷ calls) k =
    acquires_run scope runs c k || any_acquires (step scope runs c) calls k

any_acquires-run :
    (runs : Runs) (calls : List (Option PrincipalScope × RunCall)) (k : String)
    → any_deletes k calls ≡ false
    → any_acquires runs calls k ≡ true
    → generation runs k < generation (run runs calls) k
unfolding run any_acquires
any_acquires-run runs [] k n h = ground arith
any_acquires-run runs ((scope, c) ∷ calls) k n h =
    let here : deletes_run k c ≡ false = ground (arith, n) in
    let later : any_deletes k calls ≡ false = ground (arith, n) in
    elim (Bool-cases (acquires_run scope runs c k)) [
      | inl e ↦
          omega (arith, acquires_step scope runs c k e, run_le (step scope runs c) calls k later)
      | inr e ↦ omega (
        arith,
        step_le scope runs c k here,
        any_acquires-run (step scope runs c) calls k later (ground (arith, h, e)),
      )
    ]

-- A row of another generation than the lease's is not found.
not_held :
    (runs : Runs) (k owner : String) (g : ℕ)
    → g < generation runs k
    → when (holds owner g) (lookup k runs) ≡ none
unfolding generation generation_of holds
not_held runs k owner g h = elim (Option-cases (lookup k runs)) [
  | inl e ↦ rw e refl
  | inr (r, e) ↦ ground (arith, h, e)
]

not_seen :
    (runs : Runs) (k owner : String) (g : ℕ) (scope : Option PrincipalScope)
    → g < generation runs k
    → when (holds owner g) (row_of runs k scope) ≡ none
unfolding row_of generation generation_of holds
not_seen runs k owner g scope h = elim (Option-cases (lookup k runs)) [
  | inl e ↦ rw e refl
  | inr (r, e) ↦ ground (arith, h, e)
]

-- The lease that an executor got for the run of a state.
abbrev pub lease_on : AgentRunState → String → ℕ → HeldAgentRunLease
lease_on state owner g = record { run_id = state.run_id; owner = owner; generation = g }

-- What an executor does with its lease once the run has a higher generation.
fenced :
    (runs : Runs) (state : AgentRunState) (owner : String) (g ttl now : ℕ)
    (scope : Option PrincipalScope)
    → g < generation runs state.run_id
    → ((x : Error) × (save_state runs (some (lease_on state owner g)) state now scope ≡ err x))
      × (heartbeat_lease runs state.run_id owner g ttl now scope ≡ (runs, false))
      × (release_lease runs state.run_id owner g scope ≡ runs)
unfolding save_state require_scope save_held heartbeat_lease release_lease
fenced runs state owner g ttl now scope h = (
  elim (Bool-cases (scope_permits scope state.owner_id)) [
    | inl e ↦ (
      Error.agent_run_lease_lost,
      rw (save_state, e, beq_refl state.run_id, save_held, not_held runs state.run_id owner g h)
          refl,
    )
    | inr e ↦ (Error.agent_state, rw (save_state, e) refl)
  ],
  rw (heartbeat_lease, not_seen runs state.run_id owner g scope h) refl,
  rw (release_lease, not_seen runs state.run_id owner g scope h) refl,
)

-- After an executor acquired the lease of a run, let any calls of the register follow, none of
-- which deletes this run and some of which acquires this lease again. Then the executor's save of the run under its lease fails, its heartbeat
-- is answered with false and changes nothing, and its release changes nothing.
pub stale_lease_fenced :
    (before runs : Runs) (calls : List (Option PrincipalScope × RunCall)) (state : AgentRunState)
    (owner : String) (g ttl past now : ℕ) (seen scope : Option PrincipalScope)
    → acquire_lease before state.run_id owner ttl past seen ≡ ok (runs, g)
    → any_deletes state.run_id calls ≡ false
    → any_acquires runs calls state.run_id ≡ true
    → ((x : Error) × (save_state (run runs calls) (some (lease_on state owner g)) state now scope
          ≡ err x))
      × (heartbeat_lease (run runs calls) state.run_id owner g ttl now scope
          ≡ (run runs calls, false))
      × (release_lease (run runs calls) state.run_id owner g scope ≡ run runs calls)
stale_lease_fenced before runs calls state owner g ttl past now seen scope h stays taken =
    fenced (run runs calls) state owner g ttl now scope (
      omega (
        arith,
        (acquired_generation before runs state.run_id owner ttl past g seen h).0,
        any_acquires-run runs calls state.run_id stays taken,
      ))

-- ===== src/Agent/Runs.antt =====
-- `SQLiteAgentRunStateRegister` of infra/adapters/agent/sqlite.py: the table of runs and the leases
-- that executors hold on them. A statement is what it does to the rows; times are instants.
pub mod Leases
use evernight_ai.Prelude.{
  ℕ, zero, suc, ◌+◌, ◌-◌, ◌*◌, ◌/◌, ◌≤◌, ◌<◌, max, String, ◌≡◌, refl, sym, ap, ◌∙◌, ◌≢◌, ◌↔◌, ◌⊎◌,
  inl, inr, Bool, true, false, not, ◌&&◌, ◌||◌, Option, none, some, List, [], ◌∷◌, ◌++◌, map,
  reverse, arith, eq_iff, ltb, leb, eqb, if◌then◌else◌, text_ltb, Eq, ◌==◌, nat_eq, nat_beq_iff,
  string_eq, option_eq, pair_eq, discrete_eq, string-discrete, nat-discrete, beq_refl, if_either,
  Bool-cases, Option-cases, is_some, or_else, when, text_ltb_asym, text_le_trans, length, keep, any,
  all, take, drop, get_elem?, All, length-append, length-keep-le, length-take, All-append,
  All-behind, All-keep, All-take, keep_sound, keep-append, keep_none, length-drop-le, All-keep_both,
  All-map, Result, ok, err, Error, ◌>>=◌, ◌>>◌, require, >>=-eq-ok, Result-cases, ok-injective,
  place_by, sorted_by, All-sorted_by, sorted_by-All,
}
use mathlib.Core.Option
use evernight_ai.Dict.{Dict, lookup, insert, erase, values}
use evernight_ai.Auth.{PrincipalScope, scope_permits}
use evernight_ai.Agent.{AgentRunState, AgentRunStatus, AgentRunLease, run_status_eq}

-- A row of agent_run_states; the other columns repeat fields of the payload.
pub record RunRow : Type 0 where
  pub payload : AgentRunState
  pub created_at : ℕ
  pub lease_owner : Option String
  pub lease_expires_at : Option ℕ
  pub heartbeat_at : Option ℕ
  pub lease_generation : ℕ

-- By run_id, the primary key.
abbrev pub Runs : Type 0
Runs = Dict String RunRow

-- `HeldAgentRunLease` of infra/adapters/agent/lease.py: the lease that the running operation holds.
pub record HeldAgentRunLease : Type 0 where
  pub run_id : String
  pub owner : String
  pub generation : ℕ

-- `_scoped_identity`, `_scope_sql`: the row of the run, if the scope lets the statement see it.
unfoldable pub row_of : Runs → String → Option PrincipalScope → Option RunRow
row_of runs run_id scope = when (λ r. scope_permits scope r.payload.owner_id) (lookup run_id runs)

-- `_require_scope`
unfoldable pub require_scope : AgentRunState → Option PrincipalScope → Result (Unit {0})
require_scope state scope = require (scope_permits scope state.owner_id) Error.agent_state

abbrev pub new_row : AgentRunState → ℕ → RunRow
new_row state now = record {
  payload = state;
  created_at = now;
  lease_owner = none;
  lease_expires_at = none;
  heartbeat_at = none;
  lease_generation = 0;
}

-- `create_state`
unfoldable pub create_state : Runs → AgentRunState → ℕ → Option PrincipalScope → Result Runs
unfolding require_scope
create_state runs state now scope = do
  require_scope state scope
  require (not (is_some (lookup state.run_id runs))) Error.agent_state
  ok (insert state.run_id (new_row state now) runs)

-- `lease_owner = ? AND lease_generation = ?`
unfoldable pub holds : String → ℕ → RunRow → Bool
holds owner generation r = (r.lease_owner == some owner) && (r.lease_generation == generation)

abbrev pub with_payload : AgentRunState → RunRow → RunRow
with_payload state r = record r { payload = state }

-- The UPDATE of a save under a lease.
unfoldable save_held : Runs → HeldAgentRunLease → AgentRunState → Result Runs
unfolding holds
save_held runs lease state =
    elim (when (holds lease.owner lease.generation) (lookup state.run_id runs)) [
      | none ↦ err Error.agent_run_lease_lost
      | some r ↦ ok (insert state.run_id (with_payload state r) runs)
    ]

-- The INSERT … ON CONFLICT of a save without one.
unfoldable pub save_free : Runs → AgentRunState → ℕ → Runs
save_free runs state now = elim (lookup state.run_id runs) [
  | none ↦ insert state.run_id (new_row state now) runs
  | some r ↦ insert state.run_id (with_payload state r) runs
]

-- `save_state`; `held` is the value of `held_agent_run_lease`.
unfoldable pub save_state :
    Runs → Option HeldAgentRunLease → AgentRunState → ℕ → Option PrincipalScope → Result Runs
unfolding require_scope save_held save_free
save_state runs held state now scope = do
  require_scope state scope
  elim (when (λ lease. lease.run_id == state.run_id) held) [
    | some lease ↦ save_held runs lease state
    | none ↦ ok (save_free runs state now)
  ]

-- `get_state`
unfoldable pub get_state : Runs → String → Option PrincipalScope → Result AgentRunState
unfolding row_of
get_state runs run_id scope = elim (row_of runs run_id scope) [
  | none ↦ err Error.agent_state
  | some r ↦ ok r.payload
]

-- `get_status`
unfoldable pub get_status : Runs → String → Option PrincipalScope → Result AgentRunStatus
unfolding row_of
get_status runs run_id scope = elim (row_of runs run_id scope) [
  | none ↦ err Error.agent_state
  | some r ↦ ok r.payload.status
]

-- The condition `column = ?`, which is left out where there is no value.
abbrev matches : Option String → Option String → Bool
matches none value = true
matches (some wanted) value = value == some wanted

abbrev of_status : Option AgentRunStatus → AgentRunState → Bool
of_status none state = true
of_status (some status) state = state.status == status

abbrev past_cursor : Option String → AgentRunState → Bool
past_cursor none state = true
past_cursor (some c) state = text_ltb c state.run_id

unfoldable pub by_run_id : AgentRunState → AgentRunState → Bool
by_run_id s t = text_ltb s.run_id t.run_id

-- A snapshot without the time when its run started gets the time when its row was written.
unfoldable pub dated : RunRow → AgentRunState
dated r = record r.payload { started_at = some (or_else r.payload.started_at r.created_at) }

abbrev up_to : Option ℕ → List AgentRunState → List AgentRunState
up_to none l = l
up_to (some n) l = take n l

-- The filters of `query_states`.
pub record RunFilter : Type 0 where
  pub cursor : Option String
  pub limit : Option ℕ
  pub owner_id : Option String
  pub status : Option AgentRunStatus
  pub context_id : Option String

unfoldable pub select_states : Runs → RunFilter → Option String → List AgentRunState
unfolding by_run_id dated
select_states runs f owner = up_to f.limit (
    sorted_by by_run_id (
      keep
        (λ s.
          past_cursor f.cursor s
          && (matches owner s.owner_id
              && (of_status f.status s && matches f.context_id (some s.request.context_id))))
        (map dated (values runs))))

-- `query_states`
unfoldable pub query_states : Runs → RunFilter → Option PrincipalScope → List AgentRunState
unfolding select_states
query_states runs f scope = elim scope [
  | none ↦ select_states runs f f.owner_id
  | some p ↦ elim p.owner_id [
    | none ↦ select_states runs f f.owner_id
    | some owner ↦
        if is_some f.owner_id && not (f.owner_id == some owner)
        then []
        else select_states runs f (some owner)
  ]
]

-- `delete_state`
unfoldable pub delete_state : Runs → String → Option PrincipalScope → Result Runs
unfolding row_of
delete_state runs run_id scope =
    if is_some (row_of runs run_id scope) then ok (erase run_id runs) else err Error.agent_state

-- `lease_expires_at <= ?`, which is not true of NULL.
is_past : ℕ → Option ℕ → Bool
is_past now none = false
is_past now (some t) = leb t now

-- The lease can be had: `lease_owner IS NULL OR lease_expires_at <= ? OR lease_owner = ?`
unfoldable pub is_free : String → ℕ → RunRow → Bool
unfolding is_past
is_free owner now r =
    not (is_some r.lease_owner) || (is_past now r.lease_expires_at || (r.lease_owner == some owner))

abbrev pub leased : String → ℕ → ℕ → RunRow → RunRow
leased owner ttl now r = record r {
  lease_owner = some owner;
  lease_expires_at = some (now + ttl);
  heartbeat_at = some now;
  lease_generation = suc r.lease_generation;
}

-- `acquire_lease`, with the new generation.
unfoldable pub acquire_lease :
    Runs → String → String → ℕ → ℕ → Option PrincipalScope → Result (Runs × ℕ)
unfolding row_of is_free
acquire_lease runs run_id owner ttl now scope =
    elim (when (is_free owner now) (row_of runs run_id scope)) [
      | none ↦ err Error.agent_state
      | some r ↦ ok (insert run_id (leased owner ttl now r) runs, suc r.lease_generation)
    ]

-- `heartbeat_lease`, with its answer.
unfoldable pub heartbeat_lease :
    Runs → String → String → ℕ → ℕ → ℕ → Option PrincipalScope → Runs × Bool
unfolding row_of holds
heartbeat_lease runs run_id owner generation ttl now scope =
    elim (when (holds owner generation) (row_of runs run_id scope)) [
      | none ↦ (runs, false)
      | some r ↦ (
        insert run_id (record r { heartbeat_at = some now; lease_expires_at = some (now + ttl) })
            runs,
        true,
      )
    ]

abbrev pub unleased : RunRow → RunRow
unleased r = record r { lease_owner = none; lease_expires_at = none; heartbeat_at = none }

-- `release_lease`
unfoldable pub release_lease : Runs → String → String → ℕ → Option PrincipalScope → Runs
unfolding row_of holds
release_lease runs run_id owner generation scope =
    elim (when (holds owner generation) (row_of runs run_id scope)) [
      | none ↦ runs
      | some r ↦ insert run_id (unleased r) runs
    ]

unfoldable pub lease_of : RunRow → Option AgentRunLease
lease_of r = elim r.lease_owner [
  | none ↦ none
  | some owner ↦ some (record {
    owner = owner;
    expires_at = r.lease_expires_at;
    heartbeat_at = r.heartbeat_at;
    generation = r.lease_generation;
  })
]

-- `get_execution_lease`
unfoldable pub get_execution_lease :
    Runs → String → Option PrincipalScope → Result (Option AgentRunLease)
unfolding row_of lease_of
get_execution_lease runs run_id scope = elim (row_of runs run_id scope) [
  | none ↦ err Error.agent_state
  | some r ↦ ok (lease_of r)
]

-- `clear_execution_lease`
unfoldable pub clear_execution_lease : Runs → String → Option PrincipalScope → Result Runs
unfolding row_of
clear_execution_lease runs run_id scope = elim (row_of runs run_id scope) [
  | none ↦ err Error.agent_state
  | some r ↦ ok (insert run_id (unleased r) runs)
]

-- The calls that change the table.
pub data RunCall : Type 0 where
  creates : AgentRunState → ℕ → RunCall
  saves : Option HeldAgentRunLease → AgentRunState → ℕ → RunCall
  acquires : String → String → ℕ → ℕ → RunCall
  heartbeats : String → String → ℕ → ℕ → ℕ → RunCall
  releases : String → String → ℕ → RunCall
  clears deletes : String → RunCall

kept : Runs → Result Runs → Runs
kept runs (err x) = runs
kept runs (ok runs') = runs'

kept_first : Runs → Result (Runs × ℕ) → Runs
kept_first runs (err x) = runs
kept_first runs (ok p) = p.0

-- A statement that raises is rolled back.
unfoldable pub step : Option PrincipalScope → Runs → RunCall → Runs
unfolding create_state save_state acquire_lease heartbeat_lease release_lease clear_execution_lease
    delete_state kept kept_first
step scope runs (creates state now) = kept runs (create_state runs state now scope)
step scope runs (saves held state now) = kept runs (save_state runs held state now scope)
step scope runs (acquires k owner ttl now) =
    kept_first runs (acquire_lease runs k owner ttl now scope)
step scope runs (heartbeats k owner generation ttl now) =
    (heartbeat_lease runs k owner generation ttl now scope).0
step scope runs (releases k owner generation) = release_lease runs k owner generation scope
step scope runs (clears k) = kept runs (clear_execution_lease runs k scope)
step scope runs (deletes k) = kept runs (delete_state runs k scope)

-- Each call with the scope that it is made under.
unfoldable pub run : Runs → List (Option PrincipalScope × RunCall) → Runs
unfolding step
run runs [] = runs
run runs ((scope, c) ∷ calls) = run (step scope runs c) calls

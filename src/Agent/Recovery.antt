-- ===== src/Agent/Recovery.antt =====
-- application/agent_recovery.py: pausing the runs whose process is gone; and
-- `_pause_running_states` of application/agent_lifecycle.py, which does so at a shutdown.
pub mod Rows
pub mod Settled
pub mod Returns
pub mod Readable
use evernight_ai.Prelude.{
  ℕ, zero, suc, ◌+◌, ◌-◌, ◌*◌, ◌/◌, ◌≤◌, ◌<◌, max, String, ◌≡◌, refl, sym, ap, ◌∙◌, ◌≢◌, ◌↔◌, ◌⊎◌,
  inl, inr, Bool, true, false, not, ◌&&◌, ◌||◌, Option, none, some, List, [], ◌∷◌, ◌++◌, map,
  reverse, arith, eq_iff, ltb, leb, eqb, if◌then◌else◌, text_ltb, Eq, ◌==◌, nat_eq, nat_beq_iff,
  string_eq, option_eq, pair_eq, discrete_eq, string-discrete, nat-discrete, beq_refl, if_either,
  Bool-cases, Option-cases, is_some, or_else, when, text_ltb_asym, text_le_trans, length, keep, any,
  all, take, drop, get_elem?, All, length-append, length-keep-le, length-take, All-append,
  All-behind, All-keep, All-take, keep_sound, keep-append, keep_none, length-drop-le, All-keep_both,
  All-map, Result, ok, err, Error, ◌>>=◌, ◌>>◌, require, >>=-eq-ok, Result-cases, ok-injective,
  place_by, sorted_by, All-sorted_by, sorted_by-All,
}
use Prim.Native.String.{◌++◌ as ◌<>◌}
use evernight_ai.Dict.{Dict, lookup, values}
use evernight_ai.Value.{Value, text, bool}
use evernight_ai.Agent.{
  AgentRunState, AgentRunStatus, AgentRunLease, AgentPauseCause, AgentTraceEvent,
  ToolExecutionAttempt, running, paused, run_paused, shutdown, unclean_shutdown, lease_expired,
  source, started, run_status_eq, execution_status_eq,
}
use evernight_ai.Agent.Attempts.{Attempts, mark_unknown}
use evernight_ai.Agent.Checkpoint.{Checkpoint, inspect_agent_run_checkpoint}
use evernight_ai.Agent.Runs.{
  Runs, RunFilter, get_execution_lease, clear_execution_lease, save_state, query_states,
}
use evernight_ai.Agent.Events.{
  Traces, append_event, list_events, list_attempts, save_attempt, numbered,
}

-- The three registers; there may be none of tool executions.
pub record Stores : Type 0 where
  pub runs : Runs
  pub traces : Traces
  pub attempts : Option Attempts

-- `_active_lease_expiry`
unfoldable pub active_lease_expiry : Option AgentRunLease → ℕ → Option ℕ
active_lease_expiry none now = none
active_lease_expiry (some lease) now = when (λ t. not (leb t now)) lease.expires_at

later : Option ℕ → ℕ → Option ℕ
later none t = some t
later (some latest) t = if ltb latest t then some t else some latest

latest_of : Runs → ℕ → Option ℕ → List AgentRunState → Result (Option ℕ)
unfolding get_execution_lease active_lease_expiry later
latest_of runs now latest [] = ok latest
latest_of runs now latest (s ∷ states) = do
  lease ← get_execution_lease runs s.run_id none
  latest_of runs now
      (elim (active_lease_expiry lease now) [ none ↦ latest | some t ↦ later latest t ]) states

abbrev pub running_filter : RunFilter
running_filter = record {
  cursor = none;
  limit = none;
  owner_id = none;
  status = some running;
  context_id = none;
}

-- `latest_active_agent_run_lease`
unfoldable pub latest_active_agent_run_lease : Runs → ℕ → Result (Option ℕ)
unfolding latest_of query_states
latest_active_agent_run_lease runs now =
    latest_of runs now none (query_states runs running_filter none)

unfoldable pub save_if : Bool → Attempts → ToolExecutionAttempt → Result Attempts
unfolding save_attempt
save_if true table a = save_attempt table a none
save_if false table a = ok table

-- The loop of `_mark_started_executions_unknown`: the table, and the attempts as they are now.
unfoldable pub mark_started_executions_unknown : Attempts → Attempts → Result (Attempts × Attempts)
unfolding save_if mark_unknown
mark_started_executions_unknown table [] = ok (table, [])
mark_started_executions_unknown table (a ∷ attempts) = do
  table' ← save_if (a.status == started) table (mark_unknown a)
  (last, rest) ← mark_started_executions_unknown table' attempts
  ok (last, mark_unknown a ∷ rest)

-- The attempts of a run, those without an outcome marked; none without a register.
unfoldable pub reconcile : Option Attempts → String → Result (Option Attempts × Option Attempts)
unfolding mark_started_executions_unknown list_attempts
reconcile none run_id = ok (none, none)
reconcile (some table) run_id = do
  (last, attempts) ← mark_started_executions_unknown table (list_attempts table run_id none)
  ok (some last, some attempts)

-- The event of a pause.
unfoldable pub pause_event : String → String → Checkpoint → AgentTraceEvent
pause_event reason origin checkpoint =
    let note =
      ("reason", text reason)
      ∷ ("source", text origin)
      ∷ ("checkpoint", text checkpoint.name)
      ∷ ("recovery_eligible", bool checkpoint.eligible)
      ∷ [] in
    record {
      sequence = none;
      event_id = none;
      event_type = run_paused;
      summary = some ("Agent run paused: " <> reason);
      error_type = none;
      error_message = none;
      metadata = note;
      message = none;
      response = none;
      tool_call = none;
      tool_result = none;
      approval_request = none;
      details = [];
    }

-- The paused state, with the event that was appended.
unfoldable pub paused_state :
    AgentRunState → AgentPauseCause → Checkpoint → AgentTraceEvent → AgentRunState
paused_state state cause checkpoint e = record state {
  applied_trace_sequence = elim e.sequence [
    | none ↦ state.applied_trace_sequence
    | some n ↦ some n
  ];
  status = paused;
  stop_reason = none;
  trace = state.trace ++ (e ∷ []);
  pause = some (record {
    cause = cause;
    checkpoint = checkpoint.name;
    resumable = checkpoint.eligible;
    reason = none;
  });
}

-- The state to save after the inspection, with the trace.
unfoldable pub settle :
    Traces → AgentRunState → AgentPauseCause → String → Checkpoint → Traces × AgentRunState
unfolding pause_event paused_state append_event
settle traces state cause origin checkpoint =
    if not (state.status == running)
    then (traces, state)
    else (let e = pause_event (source cause) origin checkpoint in
        let (traces', n) = append_event traces state.run_id e in
        (traces', paused_state state cause checkpoint (numbered n e)))

-- A run that another process works on, or that has just started.
unfoldable pub is_protected : Option AgentRunLease → ℕ → ℕ → AgentRunState → Bool
unfolding active_lease_expiry
is_protected lease now grace state =
    is_some (active_lease_expiry lease now)
    || (not (is_some lease)
        && elim state.started_at [ none ↦ false | some t ↦ ltb now (t + grace) ])

-- Saving the state that the inspection and the pause left, and dropping the lease.
unfoldable pub write_back :
    Stores → Option Attempts → String → Bool → ℕ → Traces × AgentRunState → Result Stores
unfolding save_state clear_execution_lease
write_back stores attempts run_id leased now (traces, settled) = do
  runs ← save_state stores.runs none settled now none
  cleared ← (if leased then clear_execution_lease runs run_id none else ok runs)
  ok (record { runs = cleared; traces = traces; attempts = attempts })

unfoldable pub cause_of : Option AgentRunLease → AgentPauseCause
cause_of lease = if is_some lease then lease_expired else unclean_shutdown

-- The loop's body for a run that is not protected.
unfoldable pub recover_run : Stores → AgentRunState → Option AgentRunLease → ℕ → Result Stores
unfolding reconcile inspect_agent_run_checkpoint settle write_back cause_of list_events
recover_run stores state lease now = do
  (attempts, executions) ← reconcile stores.attempts state.run_id
  let events = list_events stores.traces state.run_id 0 none
  let (restored, inspection) = inspect_agent_run_checkpoint state (some events) executions
  checkpoint ← inspection
  write_back stores attempts state.run_id (is_some lease) now
      (settle stores.traces restored (cause_of lease) "startup_recovery" checkpoint)

unfoldable pub recover_unless : Bool → Stores → Result Stores → Result (Stores × ℕ)
recover_unless true stores recovered = ok (stores, 0)
recover_unless false stores recovered = do next ← recovered; ok (next, 1)

-- The loop's body, with the number of recovered runs.
unfoldable pub recover_one : Stores → ℕ → ℕ → AgentRunState → Result (Stores × ℕ)
unfolding recover_run is_protected get_execution_lease recover_unless
recover_one stores now grace state = do
  lease ← get_execution_lease stores.runs state.run_id none
  recover_unless (is_protected lease now grace state) stores (recover_run stores state lease now)

unfoldable pub recover_all : Stores → ℕ → ℕ → List AgentRunState → Result (Stores × ℕ)
unfolding recover_one
recover_all stores now grace [] = ok (stores, 0)
recover_all stores now grace (s ∷ states) = do
  (next, n) ← recover_one stores now grace s
  (last, recovered) ← recover_all next now grace states
  ok (last, n + recovered)

-- `recover_interrupted_agent_runs`: one transaction.
unfoldable pub recover_interrupted_agent_runs : Stores → ℕ → ℕ → Result (Stores × ℕ)
unfolding recover_all query_states
recover_interrupted_agent_runs stores now grace =
    recover_all stores now grace (query_states stores.runs running_filter none)

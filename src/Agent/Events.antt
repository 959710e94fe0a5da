-- ===== src/Agent/Events.antt =====
-- `SQLiteAgentTraceRegister` and `SQLiteToolExecutionRegister` of infra/adapters/agent/sqlite.py: the
-- table of trace events and the table of the attempts to run a tool call.
use evernight_ai.Prelude.{
  ℕ, suc, String, Bool, not, ◌&&◌, ◌||◌, Option, none, some, List, [], ◌∷◌, ◌++◌, map, ltb,
  if◌then◌else◌, text_ltb, ◌==◌, nat_eq, string_eq, option_eq, pair_eq, or_else, keep, any, take,
  Result, ok, err, Error, ◌>>◌, require, sorted_by,
}
use evernight_ai.Dict.{Dict, lookup, insert, erase}
use evernight_ai.Auth.{PrincipalScope, scope_permits}
use evernight_ai.Agent.{AgentTraceEvent, ToolExecutionAttempt}
use evernight_ai.Agent.Attempts.{Attempts}
use evernight_ai.Agent.Trace.{is_ahead, last_sequence}
use evernight_ai.Agent.Runs.{Runs, row_of}

-- The events of each run in the order of their numbers.
abbrev pub Traces : Type 0
Traces = Dict String (List AgentTraceEvent)

unfoldable pub events_of : Traces → String → List AgentTraceEvent
events_of traces run_id = or_else (lookup run_id traces) []

abbrev pub numbered : ℕ → AgentTraceEvent → AgentTraceEvent
numbered n e = record e { sequence = some n }

-- `SELECT COALESCE(MAX(sequence), 0) + 1`
unfoldable pub next_sequence : List AgentTraceEvent → ℕ
next_sequence events = suc (or_else (last_sequence events) 0)

-- `append_event`, with the number that it returns.
unfoldable pub append_event : Traces → String → AgentTraceEvent → Traces × ℕ
unfolding events_of next_sequence
append_event traces run_id e =
    let events = events_of traces run_id in
    let n = next_sequence events in (insert run_id (events ++ (numbered n e ∷ [])) traces, n)

up_to : Option ℕ → List AgentTraceEvent → List AgentTraceEvent
up_to none l = l
up_to (some n) l = take n l

-- `list_events`
unfoldable pub list_events : Traces → String → ℕ → Option ℕ → List AgentTraceEvent
unfolding events_of up_to is_ahead
list_events traces run_id after_sequence limit =
    up_to limit (keep (is_ahead after_sequence) (events_of traces run_id))

-- `clear_events`
unfoldable pub clear_events : Traces → String → Traces
clear_events traces run_id = erase run_id traces

-- `_attempt_identity` without its scope: the primary key.
unfoldable pub same_attempt : ToolExecutionAttempt → ToolExecutionAttempt → Bool
same_attempt a b =
    (a.run_id == b.run_id) && (a.tool_call_id == b.tool_call_id) && (a.attempt == b.attempt)

-- `_require_run`
require_run : Runs → ToolExecutionAttempt → Option PrincipalScope → Result (Unit {0})
unfolding row_of
require_run runs a scope = elim (row_of runs a.run_id scope) [
  | none ↦ err Error.agent_state
  | some r ↦ require (r.payload.owner_id == a.owner_id) Error.agent_state
]

-- `create_attempt`
unfoldable pub create_attempt :
    Attempts → Runs → ToolExecutionAttempt → Option PrincipalScope → Result Attempts
unfolding require_run same_attempt
create_attempt table runs a scope = do
  require (scope_permits scope a.owner_id) Error.agent_state
  require_run runs a scope
  require (not (any (same_attempt a) table)) Error.agent_state
  ok (table ++ (a ∷ []))

unfoldable pub is_target :
    Option PrincipalScope → ToolExecutionAttempt → ToolExecutionAttempt → Bool
unfolding same_attempt
is_target scope a b = same_attempt a b && scope_permits scope b.owner_id

-- `save_attempt`
unfoldable pub save_attempt :
    Attempts → ToolExecutionAttempt → Option PrincipalScope → Result Attempts
unfolding is_target
save_attempt table a scope = do
  require (scope_permits scope a.owner_id) Error.agent_state
  require (any (is_target scope a) table) Error.agent_state
  ok (map (λ b. if is_target scope a b then a else b) table)

-- `ORDER BY tool_call_id, attempt`
unfoldable pub attempt_before : ToolExecutionAttempt → ToolExecutionAttempt → Bool
attempt_before a b =
    text_ltb a.tool_call_id b.tool_call_id
    || ((a.tool_call_id == b.tool_call_id) && ltb a.attempt b.attempt)

-- `list_attempts`
unfoldable pub list_attempts : Attempts → String → Option PrincipalScope → Attempts
unfolding attempt_before
list_attempts table run_id scope =
    sorted_by attempt_before
      (keep (λ a. (a.run_id == run_id) && scope_permits scope a.owner_id) table)

-- `get_attempt`
unfoldable pub get_attempt :
    Attempts → String → String → ℕ → Option PrincipalScope → Result ToolExecutionAttempt
get_attempt [] run_id tool_call_id attempt scope = err Error.agent_state
get_attempt (a ∷ table) run_id tool_call_id attempt scope =
    let rest = get_attempt table run_id tool_call_id attempt scope in
    if (a.run_id == run_id)
      && ((a.tool_call_id == tool_call_id) && (a.attempt == attempt))
      && scope_permits scope a.owner_id
    then ok a
    else rest

-- ===== src/Agent/Checkpoint.antt =====
-- `inspect_agent_run_checkpoint` of application/agent_recovery.py: may an interrupted run go on?
pub mod Safety
use evernight_ai.Prelude.{
  ℕ, zero, suc, ◌+◌, ◌-◌, ◌*◌, ◌/◌, ◌≤◌, ◌<◌, max, String, ◌≡◌, refl, sym, ap, ◌∙◌, ◌≢◌, ◌↔◌, ◌⊎◌,
  inl, inr, Bool, true, false, not, ◌&&◌, ◌||◌, Option, none, some, List, [], ◌∷◌, ◌++◌, map,
  reverse, arith, eq_iff, ltb, leb, eqb, if◌then◌else◌, text_ltb, Eq, ◌==◌, nat_eq, nat_beq_iff,
  string_eq, option_eq, pair_eq, discrete_eq, string-discrete, nat-discrete, beq_refl, if_either,
  Bool-cases, Option-cases, is_some, or_else, when, text_ltb_asym, text_le_trans, length, keep, any,
  all, take, drop, get_elem?, All, length-append, length-keep-le, length-take, All-append,
  All-behind, All-keep, All-take, keep_sound, keep-append, keep_none, length-drop-le, All-keep_both,
  All-map, Result, ok, err, Error, ◌>>=◌, ◌>>◌, require, >>=-eq-ok, Result-cases, ok-injective,
}
use evernight_ai.Dict.{Dict, lookup}
use evernight_ai.Content.{Content, tool_calls_of}
use evernight_ai.Tool.{ToolCall}
use evernight_ai.Agent.{
  AgentStepType, AgentStep, AgentTraceEvent, AgentRunState, AgentRunStatus, ChatResponse,
  ToolExecutionAttempt, start, stop, memory_write, finished, failed, canceled, step_type_eq,
  run_status_eq,
}
use evernight_ai.Agent.State.{is_stopped, current_tool_round, current_round_completed_tool_call_ids}
use evernight_ai.Agent.Attempts.{
  Attempts, latest_tool_execution_attempts, round_tool_execution_attempts,
  has_unscoped_tool_execution, tool_call_can_resume,
}
use evernight_ai.Agent.Replay.{Restored, restored, broken, restore_checkpoint_data}

-- `AgentRunRecoveryCheckpoint`, without the text that explains it.
pub record Checkpoint : Type 0 where
  pub eligible : Bool
  pub name : String

abbrev eligible_at : String → Checkpoint
eligible_at name = record { eligible = true; name = name }

abbrev blocked_at : String → Checkpoint
blocked_at name = record { eligible = false; name = name }

abbrev pub is_final : AgentStep → Bool
is_final s = (s.step_type == stop) || (s.step_type == memory_write)

unfoldable pub incomplete_tool_calls : AgentRunState → ChatResponse → List ToolCall
incomplete_tool_calls state r =
    let completed = current_round_completed_tool_call_ids state in
    keep (λ c. not (any (λ k. c.tool_call_id == k) completed)) (tool_calls_of r.message)

-- Every call waits for an approval.
unfoldable pub approvals_pending : AgentRunState → List ToolCall → Bool
approvals_pending state calls =
    let ids = map (λ q. q.tool_call_id) state.pending_approval_requests in
    not (length ids == 0) && all (λ c. any (λ k. c.tool_call_id == k) ids) calls

-- The test of one call against the recorded attempts.
unfoldable pub call_replays : AgentRunState → Attempts → ToolCall → Bool
call_replays state attempts c =
    not (has_unscoped_tool_execution attempts c.tool_call_id)
    && tool_call_can_resume c.tool_call_id (
        latest_tool_execution_attempts
          (round_tool_execution_attempts attempts (current_tool_round state)))

unfoldable pub all_replay : AgentRunState → Option Attempts → List ToolCall → Bool
unfolding call_replays
all_replay state none calls = false
all_replay state (some attempts) calls = all (call_replays state attempts) calls

-- The branches for a run with a response that made these calls, some of them incomplete.
unfoldable judge : AgentRunState → Option Attempts → List ToolCall → List ToolCall → Checkpoint
unfolding approvals_pending all_replay
judge state executions calls incomplete =
    if length incomplete == 0
    then eligible_at (if length calls == 0 then "chat_completed" else "tool_round_completed")
    else if approvals_pending state incomplete
    then eligible_at "approval_pending"
    else if all_replay state executions incomplete
    then eligible_at "tool_replay_ready"
    else blocked_at "tool_execution_incomplete"

unfoldable inspect_calls : AgentRunState → Option Attempts → ChatResponse → Checkpoint
unfolding judge incomplete_tool_calls
inspect_calls state executions r =
    judge state executions (tool_calls_of r.message) (incomplete_tool_calls state r)

-- The rest of the function, on the restored state.
unfoldable pub classify : AgentRunState → Option Attempts → Checkpoint
unfolding is_stopped inspect_calls
classify state executions =
    if is_stopped state
    then blocked_at "run_stopped"
    else if any is_final state.steps
    then blocked_at "finalization_incomplete"
    else elim state.response [
      | none ↦
          if any (λ s. not (s.step_type == start)) state.steps
          then blocked_at "incomplete_trace"
          else eligible_at "run_started"
      | some r ↦ inspect_calls state executions r
    ]

-- `except AgentStateError`
unfoldable pub on_error : Error → Result Checkpoint
on_error Error.agent_state = ok (blocked_at "incomplete_trace")
on_error x = err x

-- `inspect_agent_run_checkpoint`, with the state that it leaves.
unfoldable pub inspect_agent_run_checkpoint :
    AgentRunState
    → Option (List AgentTraceEvent)
    → Option Attempts
    → AgentRunState × Result Checkpoint
unfolding classify on_error
inspect_agent_run_checkpoint state trace_events executions =
    elim (restore_checkpoint_data state (or_else trace_events state.trace)) [
      | broken x s ↦ (s, on_error x)
      | restored s ↦ (s, ok (classify s executions))
    ]

-- ===== src/Agent/Replay.antt =====
-- `_restore_checkpoint_data` of application/agent_recovery.py: the run state after its trace.
pub mod Steps
pub mod Once
use evernight_ai.Prelude.{
  minus, ℕ, zero, suc, ◌+◌, ◌-◌, ◌*◌, ◌/◌, ◌≤◌, ◌<◌, max, String, ◌≡◌, refl, sym, ap, ◌∙◌, ◌≢◌, ◌↔◌,
  ◌⊎◌, inl, inr, Bool, true, false, not, ◌&&◌, ◌||◌, Option, none, some, List, [], ◌∷◌, ◌++◌, map,
  reverse, arith, eq_iff, ltb, leb, eqb, if◌then◌else◌, text_ltb, Eq, ◌==◌, nat_eq, nat_beq_iff,
  string_eq, option_eq, pair_eq, discrete_eq, string-discrete, nat-discrete, beq_refl, if_either,
  Bool-cases, Option-cases, is_some, or_else, when, text_ltb_asym, text_le_trans, length, keep, any,
  all, take, drop, get_elem?, All, length-append, length-keep-le, length-take, All-append,
  All-behind, All-keep, All-take, keep_sound, keep-append, keep_none, length-drop-le, All-keep_both,
  All-map, Result, ok, err, Error, ◌>>=◌, ◌>>◌, require, >>=-eq-ok, Result-cases, ok-injective,
}
use mathlib.Core.Option
use evernight_ai.Dict.{Dict, lookup}
use evernight_ai.Value.{Value, Fields, int, text, dict, from_entries, as_text, is_unhashable}
use evernight_ai.Content.{Content, tool_calls_of}
use evernight_ai.Tool.{ToolCall}
use evernight_ai.Agent.{
  AgentStepType, AgentStep, AgentTraceEventType, AgentTraceEvent, AgentRunState, AgentRunStatus,
  AgentStopReason, ChatResponse, chat, tool, tool_error, memory_write, stop, chat_completed,
  tool_completed, tool_failed, tool_approval_requested, memory_written, run_stopped, step_type_eq,
  event_type_eq, same_event,
}
use evernight_ai.Agent.State.{is_chat, aggregate_run_usage}
use evernight_ai.Agent.Trace.{checkpoint_trace_tail}

-- A step with nothing but its type and the event that it comes from.
abbrev bare_step : AgentStepType → AgentTraceEvent → AgentStep
bare_step t e = record {
  step_type = t;
  trace_event_id = e.event_id;
  response = none;
  message = none;
  tool_call = none;
  tool_result = none;
  error_type = none;
  error_message = none;
  metadata = [];
}

abbrev pub with_step : AgentStep → AgentRunState → AgentRunState
with_step s state = record state { steps = state.steps ++ (s ∷ []) }

-- The tool rounds that are left after a chat: as its event says, or counted.
unfoldable pub rounds_after_chat : AgentRunState → AgentTraceEvent → ℕ
rounds_after_chat state e =
    let counted = state.request.max_tool_rounds - length (keep is_chat state.steps) in
    elim (lookup "remaining_tool_rounds" e.metadata) [
      | none ↦ counted
      | some v ↦ elim v [
        | int n ↦ if leb n state.request.max_tool_rounds then n else counted
        | _ ↦ counted
      ]
    ]

unfoldable pub apply_chat : AgentRunState → AgentTraceEvent → Result AgentRunState
unfolding rounds_after_chat
apply_chat state e = elim e.response [
  | none ↦ err Error.agent_state
  | some r ↦
      let step = record (bare_step chat e) {
        response = some r;
        message = some (or_else e.message r.message);
      } in
      ok (
        with_step step (record state {
          remaining_tool_rounds = rounds_after_chat state e;
          response = some r;
          pending_tool_calls = [];
          pending_approval_requests = [];
        }))
]

unfoldable pub apply_tool : AgentStepType → AgentRunState → AgentTraceEvent → Result AgentRunState
apply_tool t state e = elim e.tool_call [
  | none ↦ err Error.agent_state
  | some call ↦ ok (
      with_step
        (record (bare_step t e) {
          message = e.message;
          tool_call = some call;
          tool_result = e.tool_result;
          error_type = e.error_type;
          error_message = e.error_message;
        })
        state)
]

unfoldable apply_approval : AgentRunState → AgentTraceEvent → AgentRunState
apply_approval state e = elim e.approval_request [
  | none ↦ state
  | some request ↦ record state {
    pending_approval_requests = state.pending_approval_requests ++ (request ∷ []);
    pending_tool_calls = elim state.response [ none ↦ [] | some r ↦ tool_calls_of r.message ];
  }
]

unfoldable apply_memory : AgentRunState → AgentTraceEvent → AgentRunState
apply_memory state e = with_step (record (bare_step memory_write e) { metadata = e.metadata }) state

abbrev pub is_stop : AgentStep → Bool
is_stop s = s.step_type == stop

-- The run ended for a reason of `AgentStopReason`.
unfoldable ended :
    AgentStopReason → AgentRunStatus → String → AgentTraceEvent → AgentRunState → AgentRunState
ended stop_reason status reason e state =
    let stopped = record state { stop_reason = some stop_reason; status = status } in
    if any is_stop state.steps
    then stopped
    else (let why = ("reason", text reason) ∷ [] in
        with_step (record (bare_step stop e) { metadata = why }) stopped)

abbrev dropped : AgentRunState → AgentRunState
dropped state = record state { pending_tool_calls = []; pending_approval_requests = [] }

unfoldable pub stop_reason_of : AgentTraceEvent → Option String
unfolding as_text
stop_reason_of e = elim (lookup "reason" e.metadata) [ none ↦ none | some v ↦ as_text v ]

-- The metadata has a reason for which `reason in {...}` raises a TypeError.
unfoldable pub has_unhashable_reason : AgentTraceEvent → Bool
unfolding is_unhashable
has_unhashable_reason e = elim (lookup "reason" e.metadata) [
  | none ↦ false
  | some v ↦ is_unhashable v
]

-- The branches of a stop by its reason.
unfoldable pub apply_reason : AgentRunState → AgentTraceEvent → Result AgentRunState
unfolding ended stop_reason_of
apply_reason state e =
    let reason = stop_reason_of e in
    if reason == some "finished"
    then ok (dropped (ended AgentStopReason.finished AgentRunStatus.finished "finished" e state))
    else if reason == some "tool_rounds_exhausted"
    then ok (
        dropped (
          ended AgentStopReason.tool_rounds_exhausted AgentRunStatus.failed "tool_rounds_exhausted"
            e state))
    else if reason == some "tool_error"
    then ok (dropped (ended AgentStopReason.tool_error AgentRunStatus.failed "tool_error" e state))
    else if reason == some "failed"
    then ok (dropped (record state { status = AgentRunStatus.failed; stop_reason = none }))
    else if reason == some "canceled"
    then ok (dropped (record state { status = AgentRunStatus.canceled; stop_reason = none }))
    else err Error.agent_state

unfoldable pub apply_stop : AgentRunState → AgentTraceEvent → Result AgentRunState
unfolding apply_reason has_unhashable_reason
apply_stop state e =
    let next = apply_reason state e in
    if has_unhashable_reason e then err Error.type_error else next

-- What an event that has not been applied does, by its type; an error leaves the state as it was.
unfoldable pub apply_type :
    AgentTraceEventType → AgentRunState → AgentTraceEvent → Result AgentRunState
unfolding apply_chat apply_tool apply_approval apply_memory apply_stop
apply_type chat_completed state e = apply_chat state e
apply_type tool_completed state e = apply_tool tool state e
apply_type tool_failed state e = apply_tool tool_error state e
apply_type tool_approval_requested state e = ok (apply_approval state e)
apply_type memory_written state e = ok (apply_memory state e)
apply_type run_stopped state e = apply_stop state e
apply_type _ state e = ok state

unfoldable pub apply_event : AgentRunState → AgentTraceEvent → Result AgentRunState
unfolding apply_type
apply_event state e = apply_type e.event_type state e

abbrev pub at_sequence : AgentTraceEvent → AgentRunState → AgentRunState
at_sequence e state = elim e.sequence [
  | none ↦ state
  | some n ↦ record state { applied_trace_sequence = some n }
]

-- `if event not in state.trace: state.trace.append(event)`
unfoldable pub with_event : AgentTraceEvent → AgentRunState → AgentRunState
with_event e state =
    if any (same_event e) state.trace
    then state
    else record state { trace = state.trace ++ (e ∷ []) }

-- `event.event_id in applied_ids`, for an event with an id.
unfoldable pub is_applied : List String → AgentTraceEvent → Bool
is_applied applied_ids e = elim e.event_id [ none ↦ false | some k ↦ any (λ j. k == j) applied_ids ]

abbrev pub add_id : Option String → List String → List String
add_id none ids = ids
add_id (some k) ids = k ∷ ids

-- The loop's body: the state and the ids that are applied.
unfoldable pub replay_event :
    AgentRunState × List String → AgentTraceEvent → Result (AgentRunState × List String)
unfolding apply_event with_event is_applied
replay_event (state, ids) e = if is_applied ids e then ok (at_sequence e state, ids) else (do
  next ← apply_event state e
  ok (with_event e (at_sequence e next), add_id e.event_id ids))

-- The code changes the state in place: an error in the loop leaves it half restored, and passes.
pub data Restored : Type 0 where
  restored : AgentRunState → Restored
  broken : Error → AgentRunState → Restored

pub Restored-cases :
    (r : Restored)
    → ((s : AgentRunState) × (r ≡ restored s))
      ⊎ ((x : Error) × (s : AgentRunState) × (r ≡ broken x s))
Restored-cases (restored s) = inl (s, refl)
Restored-cases (broken x s) = inr (x, s, refl)

abbrev pub state_of : Restored → AgentRunState
state_of (restored s) = s
state_of (broken x s) = s

unfoldable pub finish : AgentRunState → AgentRunState
unfolding aggregate_run_usage
finish state = record state {
  tool_rounds_used = minus state.request.max_tool_rounds state.remaining_tool_rounds;
  usage = aggregate_run_usage state;
}

unfoldable pub replay : AgentRunState × List String → List AgentTraceEvent → Restored
unfolding replay_event finish
replay (state, ids) [] = restored (finish state)
replay (state, ids) (e ∷ events) = elim (replay_event (state, ids) e) [
  | err x ↦ broken x state
  | ok next ↦ replay next events
]

-- `applied_ids`: the ids of the steps; an empty text is no id.
unfoldable pub step_ids : List AgentStep → List String
step_ids [] = []
step_ids (s ∷ steps) =
    let rest = step_ids steps in
    elim s.trace_event_id [ none ↦ rest | some k ↦ if k == "" then rest else k ∷ rest ]

-- `_restore_checkpoint_data`
unfoldable pub restore_checkpoint_data : AgentRunState → List AgentTraceEvent → Restored
unfolding replay step_ids
restore_checkpoint_data state events = elim (checkpoint_trace_tail state events) [
  | err x ↦ broken x state
  | ok tail ↦ replay (state, step_ids state.steps) tail
]

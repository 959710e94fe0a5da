-- ===== src/Tests/Agents.antt =====
-- Agent runs at concrete inputs.
use evernight_ai.Prelude.{
  pos, ℕ, ◌≡◌, refl, inr, true, false, ◌&&◌, none, some, [], ◌∷◌, leb, nat_eq, string_eq, option_eq,
  pair_eq, length, keep, All,
}
use evernight_ai.Dict.{lookup, insert}
use evernight_ai.Value.{int}
use evernight_ai.Content.{Content, assistant, tool_calls_of}
use evernight_ai.Tool.{ToolCall, non_replayable}
use evernight_ai.Agent.{
  AgentStepType-discrete, AgentTraceEvent, AgentRunState, AgentRunStatus-discrete, AgentRunRequest,
  ChatResponse, ToolExecutionAttempt, ToolExecutionStatus, ToolExecutionResolution-discrete,
  chat_completed, running, finished, started, unknown, step_type_eq, run_status_eq, event_type_eq,
}
use evernight_ai.Agent.State.{is_stopped, current_tool_round, current_round_completed_tool_call_ids}
use evernight_ai.Agent.Attempts.{
  Attempts, latest_tool_execution_attempts, next_tool_execution_attempt,
  round_tool_execution_attempts,
}
use evernight_ai.Agent.Attempts.Latest.{
  IsLatest, of_call, latest_tool_execution_attempts-IsLatest, next_tool_execution_attempt_fresh,
}
use evernight_ai.Agent.Trace.{watermark_of, checkpoint_trace_tail, is_ahead}
use evernight_ai.Agent.Trace.Contiguous.{numbers, upfrom, checkpoint_trace_tail_exact}
use evernight_ai.Agent.Replay.{restore_checkpoint_data, step_ids, state_of}
use evernight_ai.Agent.Replay.Once.{NoRepeat, restore_checkpoint_data-NoRepeat}
use evernight_ai.Agent.Checkpoint.{incomplete_tool_calls, inspect_agent_run_checkpoint}
use evernight_ai.Agent.Checkpoint.Safety.{
  is_eligible, inspected, unsafe_call_blocks, stopped_run_blocks,
}

abbrev call_1 : ToolCall
call_1 = record { tool_call_id = "c1"; tool_call = []; approval = none; metadata = [] }

abbrev asks : Content
asks = record {
  address = 1;
  role = assistant;
  content = none;
  status = none;
  tool_call_id = none;
  tool_calls = some (call_1 ∷ []);
}

abbrev answer : ChatResponse
answer = record { message = asks; usage = none; details = [] }

abbrev request_1 : AgentRunRequest
request_1 = record { owner_id = some "ann"; context_id = "x"; max_tool_rounds = 2; metadata = [] }

abbrev pub run_1 : AgentRunState
run_1 = record {
  run_id = "r1";
  owner_id = some "ann";
  request = request_1;
  status = running;
  response = none;
  usage = none;
  stop_reason = none;
  steps = [];
  trace = [];
  applied_trace_sequence = some 0;
  remaining_tool_rounds = 2;
  tool_rounds_used = pos 0;
  pending_tool_calls = [];
  pending_approval_requests = [];
  pause = none;
  started_at = some 5;
}

abbrev chat_event : AgentTraceEvent
chat_event = record {
  sequence = some 1;
  event_id = some "e1";
  event_type = chat_completed;
  summary = none;
  error_type = none;
  error_message = none;
  metadata = ("remaining_tool_rounds", int 1) ∷ [];
  message = none;
  response = some answer;
  tool_call = none;
  tool_result = none;
  approval_request = none;
  details = [];
}

abbrev attempt_of : ℕ → ToolExecutionStatus → ToolExecutionAttempt
attempt_of n status = record {
  run_id = "r1";
  owner_id = some "ann";
  tool_call_id = "c1";
  attempt = n;
  tool_round = some 1;
  tool_name = "mail";
  status = status;
  replay_policy = non_replayable;
  idempotency_key = "k";
  tool_call = call_1;
  result = none;
  error_type = none;
  error_message = none;
  resolution = none;
  resolution_reason = none;
  created_at = 5;
  started_at = none;
  finished_at = none;
  resolved_at = none;
}

abbrev two_attempts : Attempts
two_attempts = attempt_of 1 started ∷ attempt_of 2 unknown ∷ []

latest_tool_execution_attempts-IsLatest_example :
    IsLatest "c1" two_attempts (lookup "c1" (latest_tool_execution_attempts two_attempts))
latest_tool_execution_attempts-IsLatest_example =
    latest_tool_execution_attempts-IsLatest two_attempts "c1"

next_tool_execution_attempt_fresh_example :
    All
      (λ a. of_call "c1" a && leb (next_tool_execution_attempt two_attempts "c1") a.attempt ≡ false)
      two_attempts
next_tool_execution_attempt_fresh_example = next_tool_execution_attempt_fresh two_attempts "c1"

-- A run: the third attempt is next.
next_is_third : next_tool_execution_attempt two_attempts "c1" ≡ 3
unfolding next_tool_execution_attempt
next_is_third = refl

checkpoint_trace_tail_exact_example :
    (chat_event ∷ [] ≡ keep (is_ahead 0) (chat_event ∷ []))
    × (numbers (chat_event ∷ []) ≡ upfrom 1 (length (numbers (chat_event ∷ []))))
unfolding watermark_of checkpoint_trace_tail lookup
checkpoint_trace_tail_exact_example =
    checkpoint_trace_tail_exact run_1 (chat_event ∷ []) (chat_event ∷ []) 0 refl refl

restore_checkpoint_data-NoRepeat_example :
    NoRepeat
      (step_ids (state_of (restore_checkpoint_data run_1 (chat_event ∷ chat_event ∷ []))).steps)
unfolding step_ids
restore_checkpoint_data-NoRepeat_example =
    restore_checkpoint_data-NoRepeat run_1 (chat_event ∷ chat_event ∷ []) tt

-- A run: the chat becomes one step.
chat_restored : length (state_of (restore_checkpoint_data run_1 (chat_event ∷ []))).steps ≡ 1
unfolding restore_checkpoint_data checkpoint_trace_tail lookup
chat_restored = refl

unsafe_call_blocks_example :
    is_eligible (inspected run_1 (some (chat_event ∷ [])) two_attempts).1 ≡ false
unfolding inspect_agent_run_checkpoint incomplete_tool_calls AgentStepType-discrete
    latest_tool_execution_attempts round_tool_execution_attempts current_tool_round lookup
    ToolExecutionResolution-discrete restore_checkpoint_data checkpoint_trace_tail tool_calls_of
    current_round_completed_tool_call_ids insert
unsafe_call_blocks_example =
    unsafe_call_blocks run_1 (some (chat_event ∷ [])) two_attempts
      (answer, "c1", attempt_of 2 unknown, refl, refl, refl, refl, (inr refl, refl, refl))

abbrev finished_run : AgentRunState
finished_run = record run_1 { status = finished }

stopped_run_blocks_example :
    (is_stopped (inspect_agent_run_checkpoint finished_run (some (chat_event ∷ [])) none).0 ≡ true)
    × (is_eligible (inspect_agent_run_checkpoint finished_run (some (chat_event ∷ [])) none).1
        ≡ false)
unfolding is_stopped AgentRunStatus-discrete
stopped_run_blocks_example = stopped_run_blocks finished_run (some (chat_event ∷ [])) none refl

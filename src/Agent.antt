-- ===== src/Agent.antt =====
-- core/schema/agent.py and core/schema/trace.py: agent runs, their steps and their trace.
pub mod State
pub mod Attempts
pub mod Trace
pub mod Replay
pub mod Checkpoint
pub mod Runs
pub mod Events
pub mod Recovery
pub mod Lifecycle
use evernight_ai.Prelude.{
  ℤ, ℕ, zero, suc, ◌+◌, ◌-◌, ◌*◌, ◌/◌, ◌≤◌, ◌<◌, max, String, ◌≡◌, refl, sym, ap, ◌∙◌, ◌≢◌, ◌↔◌,
  ◌⊎◌, inl, inr, Bool, true, false, not, ◌&&◌, ◌||◌, Option, none, some, List, [], ◌∷◌, ◌++◌, map,
  reverse, arith, eq_iff, ltb, leb, eqb, if◌then◌else◌, text_ltb, Eq, ◌==◌, nat_eq, nat_beq_iff,
  string_eq, option_eq, pair_eq, discrete_eq, string-discrete, nat-discrete, beq_refl, if_either,
  Bool-cases, Option-cases, is_some, or_else, when, text_ltb_asym, text_le_trans, length, keep, any,
  all, take, drop, get_elem?, All, length-append, length-keep-le, length-take, All-append,
  All-behind, All-keep, All-take, keep_sound, keep-append, keep_none, length-drop-le, All-keep_both,
  All-map, Result, ok, err, Error, ◌>>=◌, ◌>>◌, require, >>=-eq-ok, Result-cases, ok-injective,
}
use mathlib.Core.Option
use evernight_ai.Dict.{Dict}
use evernight_ai.Value.{Value}
use evernight_ai.Content.{Content}
use evernight_ai.Tool.{ToolCall, ToolCallResult, ToolApprovalRequest, ToolReplayPolicy}

pub data AgentStepType : Type 0 where
  start chat tool tool_error memory_write stop : AgentStepType

unfoldable pub AgentStepType-discrete : Discrete AgentStepType
AgentStepType-discrete = hlevel

instance abbrev pub step_type_eq : Eq AgentStepType
step_type_eq = discrete_eq AgentStepType-discrete

pub data AgentTraceEventType : Type 0 where
  run_started chat_delta chat_completed : AgentTraceEventType
  tool_approval_requested tool_approval_decided : AgentTraceEventType
  tool_started tool_completed tool_failed tool_execution_resolved : AgentTraceEventType
  memory_written run_paused run_stopped : AgentTraceEventType

unfoldable pub AgentTraceEventType-discrete : Discrete AgentTraceEventType
AgentTraceEventType-discrete = hlevel

instance abbrev pub event_type_eq : Eq AgentTraceEventType
event_type_eq = discrete_eq AgentTraceEventType-discrete

pub data AgentRunStatus : Type 0 where
  running paused canceled finished failed : AgentRunStatus

unfoldable pub AgentRunStatus-discrete : Discrete AgentRunStatus
AgentRunStatus-discrete = hlevel

instance abbrev pub run_status_eq : Eq AgentRunStatus
run_status_eq = discrete_eq AgentRunStatus-discrete

-- Times are instants.
pub record AgentRunLease : Type 0 where
  pub owner : String
  pub expires_at : Option ℕ
  pub heartbeat_at : Option ℕ
  pub generation : ℕ

pub data ToolExecutionStatus : Type 0 where
  scheduled started completed failed unknown : ToolExecutionStatus

unfoldable pub ToolExecutionStatus-discrete : Discrete ToolExecutionStatus
ToolExecutionStatus-discrete = hlevel

instance abbrev pub execution_status_eq : Eq ToolExecutionStatus
execution_status_eq = discrete_eq ToolExecutionStatus-discrete

pub data ToolExecutionResolution : Type 0 where
  confirm_completed retry abandon_and_retry_run : ToolExecutionResolution

unfoldable pub ToolExecutionResolution-discrete : Discrete ToolExecutionResolution
ToolExecutionResolution-discrete = hlevel

instance abbrev pub resolution_eq : Eq ToolExecutionResolution
resolution_eq = discrete_eq ToolExecutionResolution-discrete

-- `ToolExecutionAttempt`, without its free-form metadata.
pub record ToolExecutionAttempt : Type 0 where
  pub run_id : String
  pub owner_id : Option String
  pub tool_call_id : String
  pub attempt : ℕ
  pub tool_round : Option ℕ
  pub tool_name : String
  pub status : ToolExecutionStatus
  pub replay_policy : ToolReplayPolicy
  pub idempotency_key : String
  pub tool_call : ToolCall
  pub result : Option ToolCallResult
  pub error_type : Option String
  pub error_message : Option String
  pub resolution : Option ToolExecutionResolution
  pub resolution_reason : Option String
  pub created_at : ℕ
  pub started_at : Option ℕ
  pub finished_at : Option ℕ
  pub resolved_at : Option ℕ

pub data AgentPauseCause : Type 0 where
  manual timeout shutdown unclean_shutdown lease_expired : AgentPauseCause

-- The values of the enumeration.
cause_value : AgentPauseCause → String
cause_value manual = "manual_pause"
cause_value timeout = "timeout"
cause_value shutdown = "shutdown"
cause_value unclean_shutdown = "unclean_shutdown"
cause_value lease_expired = "lease_expired"

-- `AgentPauseCause.source`
unfoldable pub source : AgentPauseCause → String
unfolding cause_value
source unclean_shutdown = cause_value shutdown
source cause = cause_value cause

pub record AgentRunPause : Type 0 where
  pub cause : AgentPauseCause
  pub checkpoint : String
  pub resumable : Bool
  pub reason : Option String

pub data AgentStopReason : Type 0 where
  finished tool_rounds_exhausted tool_error : AgentStopReason

-- `ChatUsage`, without its metadata.
pub record ChatUsage : Type 0 where
  pub prompt_tokens : Option ℕ
  pub completion_tokens : Option ℕ
  pub total_tokens : Option ℕ
  pub cached_prompt_tokens : Option ℕ
  pub cache_write_prompt_tokens : Option ℕ

-- `ChatResponse`: the fields that the run state reads; `details` are the others, with those of its
-- parts that the model leaves out. They are only compared.
pub record ChatResponse : Type 0 where
  pub message : Content
  pub usage : Option ChatUsage
  pub details : Dict String Value

-- `AgentRunRequest`: the fields that the run state and its recovery read.
pub record AgentRunRequest : Type 0 where
  pub owner_id : Option String
  pub context_id : String
  pub max_tool_rounds : ℕ
  pub metadata : Dict String Value

pub record AgentStep : Type 0 where
  pub step_type : AgentStepType
  pub trace_event_id : Option String
  pub response : Option ChatResponse
  pub message : Option Content
  pub tool_call : Option ToolCall
  pub tool_result : Option ToolCallResult
  pub error_type : Option String
  pub error_message : Option String
  pub metadata : Dict String Value

-- `AgentTraceEvent`: the fields that the recovery reads or sets; `details` are the others that do
-- not have their defaults, with those of the event's parts that the model leaves out. They are only
-- compared.
pub record AgentTraceEvent : Type 0 where
  pub sequence : Option ℕ
  pub event_id : Option String
  pub event_type : AgentTraceEventType
  pub summary : Option String
  pub error_type : Option String
  pub error_message : Option String
  pub metadata : Dict String Value
  pub message : Option Content
  pub response : Option ChatResponse
  pub tool_call : Option ToolCall
  pub tool_result : Option ToolCallResult
  pub approval_request : Option ToolApprovalRequest
  pub details : Dict String Value

-- `AgentRunState`: the fields that this code reads or sets.
pub record AgentRunState : Type 0 where
  pub run_id : String
  pub owner_id : Option String
  pub request : AgentRunRequest
  pub status : AgentRunStatus
  pub response : Option ChatResponse
  pub usage : Option ChatUsage
  pub stop_reason : Option AgentStopReason
  pub steps : List AgentStep
  pub trace : List AgentTraceEvent
  pub applied_trace_sequence : Option ℕ
  pub remaining_tool_rounds : ℕ
  pub tool_rounds_used : ℤ
  pub pending_tool_calls : List ToolCall
  pub pending_approval_requests : List ToolApprovalRequest
  pub pause : Option AgentRunPause
  pub started_at : Option ℕ

-- `==` of the schemas: all fields count, the identity of a message does not.
abbrev unnamed : Content → Content
unnamed m = record m { address = 0 }

abbrev unnamed_response : ChatResponse → ChatResponse
unnamed_response r = record r { message = unnamed r.message }

abbrev unnamed_event : AgentTraceEvent → AgentTraceEvent
unnamed_event e = record e {
  message = Option.map unnamed e.message;
  response = Option.map unnamed_response e.response;
}

unfoldable response-discrete : Discrete (Option ChatResponse)
response-discrete = hlevel (string-discrete, nat-discrete)

unfoldable event-discrete : Discrete AgentTraceEvent
event-discrete = hlevel (string-discrete, nat-discrete)

unfoldable call-discrete : Discrete (Option ToolCall)
call-discrete = hlevel (string-discrete, nat-discrete)

unfoldable pub same_response : Option ChatResponse → Option ChatResponse → Bool
unfolding response-discrete
same_response a b =
    elim (response-discrete (Option.map unnamed_response a) (Option.map unnamed_response b)) [
      | yes _ ↦ true
      | no _ ↦ false
    ]

unfoldable pub same_event : AgentTraceEvent → AgentTraceEvent → Bool
unfolding event-discrete
same_event a b = elim (event-discrete (unnamed_event a) (unnamed_event b)) [
  | yes _ ↦ true
  | no _ ↦ false
]

unfoldable pub same_call : Option ToolCall → Option ToolCall → Bool
unfolding call-discrete
same_call a b = elim (call-discrete a b) [ yes _ ↦ true | no _ ↦ false ]

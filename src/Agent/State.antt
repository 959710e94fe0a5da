-- ===== src/Agent/State.antt =====
-- application/agent_state.py: what the code reads off the state of a run.
use evernight_ai.Prelude.{
  ℕ, ◌+◌, String, Bool, true, ◌||◌, Option, none, some, List, [], ◌∷◌, reverse, if◌then◌else◌, ◌==◌,
  nat_eq, string_eq, option_eq, pair_eq, is_some, length, keep, any, Result, Error, require,
}
use mathlib.Core.Option
use evernight_ai.Dict.{Dict, lookup}
use evernight_ai.Value.{Value, text}
use evernight_ai.Auth.{PrincipalScope, scope_permits}
use evernight_ai.Agent.{
  AgentStep, AgentRunState, AgentRunRequest, ChatUsage, chat, tool, tool_error, step_type_eq,
  finished, failed, canceled, run_status_eq,
}

abbrev pub is_chat : AgentStep → Bool
is_chat s = s.step_type == chat

-- `current_tool_round`
unfoldable pub current_tool_round : AgentRunState → ℕ
current_tool_round state = length (keep is_chat state.steps)

completed_id : AgentStep → Option String
completed_id s =
    if (s.step_type == tool) || (s.step_type == tool_error)
    then Option.map (λ c. c.tool_call_id) s.tool_call
    else none

-- The loop of `current_round_completed_tool_call_ids` over the reversed steps; a set as a list.
unfoldable pub completed_before_chat : List AgentStep → List String
unfolding completed_id
completed_before_chat [] = []
completed_before_chat (s ∷ steps) =
    let rest = completed_before_chat steps in
    if is_chat s then [] else elim (completed_id s) [ none ↦ rest | some k ↦ k ∷ rest ]

-- `current_round_completed_tool_call_ids`
unfoldable pub current_round_completed_tool_call_ids : AgentRunState → List String
unfolding completed_before_chat
current_round_completed_tool_call_ids state = completed_before_chat (reverse state.steps)

-- The run's status is FINISHED, FAILED or CANCELED.
unfoldable pub is_stopped : AgentRunState → Bool
is_stopped state =
    (state.status == finished) || (state.status == failed) || (state.status == canceled)

-- `agent_run_can_resume`
unfoldable pub agent_run_can_resume : AgentRunState → Bool
agent_run_can_resume state = elim state.pause [ none ↦ true | some p ↦ p.resumable ]

pub data AgentResumeMode : Type 0 where
  approval checkpoint : AgentResumeMode

-- `agent_resume_mode`
unfoldable pub agent_resume_mode : AgentRunState → AgentResumeMode
agent_resume_mode state = elim state.pause [
  | none ↦ approval
  | some p ↦ if p.resumable then checkpoint else approval
]

-- `_require_request_scope`
unfoldable pub require_request_scope : AgentRunRequest → Option PrincipalScope → Result (Unit {0})
require_request_scope request scope =
    require (scope_permits scope request.owner_id) Error.agent_state

-- `AgentRunMetadata.run_id`
unfoldable pub metadata_run_id : Dict String Value → Option String
metadata_run_id metadata = elim (lookup "run_id" metadata) [
  | none ↦ none
  | some v ↦ elim v [ text s ↦ if s == "" then none else some s | _ ↦ none ]
]

-- The usages of the chat steps that have a response.
unfoldable pub step_usages : List AgentStep → List (Option ChatUsage)
step_usages [] = []
step_usages (s ∷ steps) =
    let rest = step_usages steps in
    elim s.response [ none ↦ rest | some r ↦ if is_chat s then r.usage ∷ rest else rest ]

-- `total`: the sum, if every call reports the number.
unfoldable pub total : (ChatUsage → Option ℕ) → List (Option ChatUsage) → Option ℕ
total select [] = some 0
total select (none ∷ usages) = none
total select (some u ∷ usages) = elim (select u) [
  | none ↦ none
  | some n ↦ Option.map (λ m. n + m) (total select usages)
]

-- `_aggregate_run_usage`, without the list of the calls in its metadata.
unfoldable pub aggregate_run_usage : AgentRunState → Option ChatUsage
unfolding step_usages total
aggregate_run_usage state =
    let usages = step_usages state.steps in
    if any is_some usages
    then some (record {
      prompt_tokens = total (λ u. u.prompt_tokens) usages;
      completion_tokens = total (λ u. u.completion_tokens) usages;
      total_tokens = total (λ u. u.total_tokens) usages;
      cached_prompt_tokens = total (λ u. u.cached_prompt_tokens) usages;
      cache_write_prompt_tokens = total (λ u. u.cache_write_prompt_tokens) usages;
    })
    else none

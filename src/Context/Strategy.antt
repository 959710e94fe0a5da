-- ===== src/Context/Strategy.antt =====
-- The context strategies of core/domain/context.py: from a stored context to the messages of a chat
-- request.
pub mod Suffix
pub mod Pipeline
pub mod Summary
use evernight_ai.Prelude.{
  ℕ, zero, suc, ◌+◌, ◌-◌, ◌*◌, ◌/◌, ◌≤◌, ◌<◌, max, String, ◌≡◌, refl, sym, ap, ◌∙◌, ◌≢◌, ◌↔◌, ◌⊎◌,
  inl, inr, Bool, true, false, not, ◌&&◌, ◌||◌, Option, none, some, List, [], ◌∷◌, ◌++◌, map,
  reverse, arith, eq_iff, ltb, leb, eqb, if◌then◌else◌, text_ltb, Eq, ◌==◌, nat_eq, nat_beq_iff,
  string_eq, option_eq, pair_eq, Bool-cases, Option-cases, is_some, or_else, when, text_ltb_asym,
  text_le_trans, length, keep, any, all, take, drop, get_elem?, All, length-append, length-keep-le,
  length-take, All-append, All-keep, All-take, keep_sound, keep-append, keep_none, length-drop-le,
  All-keep_both, All-map, Result, ok, err, Error, ◌>>=◌, ◌>>◌, require, >>=-eq-ok,
}
use Prim.Native.String.{◌++◌ as text_append}
use evernight_ai.Content.{Content, ContentPart, ContentPartType, Context, system}
use evernight_ai.Memory.{MemoryItem, kind_value}
use evernight_ai.Tool.{ToolDefinition}
use evernight_ai.Context.Organizer.{organize}
use evernight_ai.Context.Groups.{
  system_prefix, insert_after_system_prefix, message_groups, protected_message_ids, tail_groups,
  flat,
}
use evernight_ai.Context.Selection.{
  Selection, Reason, preserve_system_prefix, within_budget, estimate_all,
}

-- `context_strategy_steps`: what a strategy notes in the metadata of the request.
pub data Step : Type 0 where
  -- `original_message_count`, `retained_message_count`, `max_messages`
  window_trimming : ℕ → ℕ → ℕ → Selection → Step
  -- `token_budget`, `estimated_tokens`
  token_budget : ℕ → ℕ → Selection → Step
  -- `summarized_message_count`
  summarizing : ℕ → Step

-- `ChatRequest`, as far as the strategies build it.
pub record ChatRequest : Type 0 where
  pub model_id : String
  pub messages : List Content
  pub tools : Option (List ToolDefinition)
  pub steps : List Step

-- The arguments of `compose_chat_request` next to the context. `address` is the `id` of the memory
-- message that is allocated during the call.
pub record Request : Type 0 where
  pub model_id : String
  pub messages : Option (List Content)
  pub memories : Option (List MemoryItem)
  pub tools : Option (List ToolDefinition)
  pub address : ℕ

-- A strategy object with the strategies it wraps. The estimator and the summarizer are objects that
-- the caller hands in.
pub data Strategy : Type 0 where
  basic : Strategy
  window : Strategy → ℕ → Strategy
  budget : Strategy → ℕ → (Content → ℕ) → Strategy
  summary : Strategy → (List Content → Content) → ℕ → ℕ → Strategy

-- `WindowTrimmingContextStrategy.__init__`
unfoldable pub window_strategy : Strategy → ℕ → Result Strategy
window_strategy s max_messages =
    if ltb max_messages 1 then err Error.value_error else ok (window s max_messages)

-- `ApproximateContextTokenEstimator.estimate`; `serialized` is the length of pydantic's JSON.
unfoldable pub approximate_estimate : (Content → ℕ) → Content → ℕ
approximate_estimate serialized m = max 1 ((serialized m + 3) / 4)

-- `TokenBudgetContextStrategy.__init__`
unfoldable pub budget_strategy :
    (Content → ℕ) → Strategy → ℕ → Option (Content → ℕ) → Result Strategy
unfolding approximate_estimate
budget_strategy serialized s max_tokens estimator =
    if ltb max_tokens 1
    then err Error.value_error
    else ok (budget s max_tokens (or_else estimator (approximate_estimate serialized)))

-- `SummarizingContextStrategy.__init__`
unfoldable pub summary_strategy : Strategy → (List Content → Content) → ℕ → ℕ → Result Strategy
summary_strategy s summarize after recent =
    if ltb after 1
    then err Error.value_error
    else if ltb recent 1
    then err Error.value_error
    else ok (summary s summarize after recent)

-- `"\n".join(lines)`, the first line apart.
unfoldable pub join_lines : String → List String → String
join_lines first [] = first
join_lines first (l ∷ ls) = text_append first (text_append "\n" (join_lines l ls))

memory_line : MemoryItem → String
unfolding kind_value
memory_line m = text_append "- " (text_append (kind_value m.kind) (text_append ": " m.content))

-- `BasicContextStrategy._compose_memory_message`
unfoldable pub compose_memory_message : ℕ → List MemoryItem → Option Content
unfolding join_lines memory_line
compose_memory_message address [] = none
compose_memory_message address (m ∷ ms) = some (record {
  address = address;
  role = system;
  content = some (
      (record {
        part_type = ContentPartType.text;
        text = some (join_lines "Relevant memory:" (map memory_line (m ∷ ms)));
      })
      ∷ []);
  status = none;
  tool_call_id = none;
  tool_calls = none;
})

-- `ContextOrganizer.to_chat_request`
unfoldable pub to_chat_request : Context → Request → ChatRequest
unfolding organize
to_chat_request c r = record {
  model_id = r.model_id;
  messages = organize c r.messages;
  tools = r.tools;
  steps = [];
}

unfoldable pub with_memory : ChatRequest → Option Content → ChatRequest
unfolding insert_after_system_prefix
with_memory q none = q
with_memory q (some m) = record q { messages = insert_after_system_prefix q.messages m }

-- The message about the memories that were selected, if any were.
unfoldable pub memory_message : ℕ → Option (List MemoryItem) → Option Content
unfolding compose_memory_message
memory_message address none = none
memory_message address (some ms) = compose_memory_message address ms

-- `_with_context_strategy_metadata`
with_step : ChatRequest → List Content → Step → ChatRequest
with_step q messages s = record q { messages = messages; steps = q.steps ++ s ∷ [] }

-- `WindowTrimmingContextStrategy.compose_chat_request`, on the request of the wrapped strategy.
unfoldable pub trim : ℕ → Option (List Content) → ChatRequest → ChatRequest
unfolding with_step preserve_system_prefix protected_message_ids
trim max_messages messages q =
    let s = preserve_system_prefix max_messages (protected_message_ids messages) q.messages in
    with_step q s.messages (window_trimming (length q.messages) (length s.messages) max_messages s)

-- `TokenBudgetContextStrategy.compose_chat_request`, on the request of the wrapped strategy.
unfoldable pub spend : ℕ → (Content → ℕ) → Option (List Content) → ChatRequest → ChatRequest
unfolding with_step within_budget protected_message_ids estimate_all
spend max_tokens estimate messages q =
    let s = within_budget estimate max_tokens (protected_message_ids messages) q.messages in
    with_step q s.messages (token_budget max_tokens (estimate_all estimate s.messages) s)

-- `groups[:-recent_group_count] if recent_group_count else groups`
unfoldable pub removed_groups : List (List Content) → ℕ → List (List Content)
removed_groups groups n = take (length groups - n) groups

-- `SummarizingContextStrategy.compose_chat_request`, on the request of the wrapped strategy.
unfoldable pub summarize_old : (List Content → Content) → ℕ → ℕ → ChatRequest → ChatRequest
unfolding with_step system_prefix message_groups tail_groups removed_groups
summarize_old summarize after recent_count q =
    let (prefix, remainder) = system_prefix q.messages in
    let groups = message_groups remainder in
    let recent = tail_groups groups recent_count in
    let removed = flat (removed_groups groups (length recent)) in
    if leb (length q.messages) after
    then q
    else if leb (length remainder) recent_count
    then q
    else if length removed == 0
    then q
    else with_step q (prefix ++ summarize removed ∷ flat recent) (summarizing (length removed))

-- `compose_chat_request` of each strategy.
unfoldable pub compose : Strategy → Context → Request → ChatRequest
unfolding to_chat_request with_memory memory_message trim spend summarize_old
compose basic c r = with_memory (to_chat_request c r) (memory_message r.address r.memories)
compose (window s max_messages) c r = trim max_messages r.messages (compose s c r)
compose (budget s max_tokens estimate) c r = spend max_tokens estimate r.messages (compose s c r)
compose (summary s summarize after recent) c r =
    summarize_old summarize after recent (compose s c r)

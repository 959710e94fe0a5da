-- ===== src/Tests/Contexts.antt =====
-- The context messages, at concrete inputs.
use evernight_ai.Prelude.{
  ℕ, ◌≤◌, String, ◌≡◌, refl, ◌⊎◌, true, Option, none, some, List, [], ◌∷◌, nat_eq, string_eq,
  option_eq, pair_eq, length, keep, any, take,
}
use evernight_ai.Content
use evernight_ai.Content.{Content, has_role, is_active}
use evernight_ai.Tool.{ToolCall}
use evernight_ai.Context.Organizer.{tool_protocol_safe_messages}
use evernight_ai.Context.Organizer.Safety.{IsSafe, tool_protocol_safe_messages-IsSafe}
use evernight_ai.Context.Groups.{message_groups, flat}
use evernight_ai.Context.Groups.Partition.{flat-message_groups}
use evernight_ai.Context.Selection.{preserve_system_prefix, within_budget}
use evernight_ai.Context.Selection.Limit.{is_overrun, preserve_system_prefix_limit}
use evernight_ai.Context.Selection.Protection.{
  is_protected, preserve_system_prefix_protected, within_budget_protected,
}

abbrev pub message_of : ℕ → Content.MessageRole → Option String → Option (List ToolCall) → Content
message_of address role answered calls = record {
  address = address;
  role = role;
  content = none;
  status = none;
  tool_call_id = answered;
  tool_calls = calls;
}

abbrev call_of : String → ToolCall
call_of k = record { tool_call_id = k; tool_call = []; approval = none; metadata = [] }

-- A question, a call with its answer, a call without one, and an answer without a call.
abbrev pub history : List Content
history =
    message_of 1 Content.user none none
    ∷ message_of 2 Content.assistant none (some (call_of "a" ∷ []))
    ∷ message_of 3 Content.tool (some "a") none
    ∷ message_of 4 Content.assistant none (some (call_of "b" ∷ []))
    ∷ message_of 5 Content.tool (some "x") none
    ∷ []

safe_history : tool_protocol_safe_messages history ≡ take 3 history
unfolding tool_protocol_safe_messages has_role Content.tool_calls_of
safe_history = refl

tool_protocol_safe_messages-IsSafe_example : IsSafe (tool_protocol_safe_messages history)
tool_protocol_safe_messages-IsSafe_example = tool_protocol_safe_messages-IsSafe history

flat-message_groups_example : flat (message_groups history) ≡ history
flat-message_groups_example = flat-message_groups history

preserve_system_prefix_limit_example :
    (length (preserve_system_prefix 2 [] history).messages ≤ 2)
    ⊎ (any is_overrun (preserve_system_prefix 2 [] history).reasons ≡ true)
preserve_system_prefix_limit_example = preserve_system_prefix_limit 2 [] history

abbrev two_each : Content → ℕ
two_each m = 2

preserve_system_prefix_protected_example :
    keep (is_protected (1 ∷ [])) (preserve_system_prefix 2 (1 ∷ []) history).messages
    ≡ keep (is_protected (1 ∷ [])) history
preserve_system_prefix_protected_example = preserve_system_prefix_protected 2 (1 ∷ []) history

within_budget_protected_example :
    keep (is_protected (1 ∷ [])) (within_budget two_each 2 (1 ∷ []) history).messages
    ≡ keep (is_protected (1 ∷ [])) history
within_budget_protected_example = within_budget_protected two_each 2 (1 ∷ []) history

-- ===== src/Context/Organizer.antt =====
-- `ContextOrganizer` of core/domain/context.py: which messages of a history a provider is sent.
pub mod Safety
use evernight_ai.Prelude.{
  ℕ, zero, suc, ◌+◌, ◌-◌, ◌*◌, ◌/◌, ◌≤◌, ◌<◌, max, String, ◌≡◌, refl, sym, ap, ◌∙◌, ◌≢◌, ◌↔◌, ◌⊎◌,
  inl, inr, Bool, true, false, not, ◌&&◌, ◌||◌, Option, none, some, List, [], ◌∷◌, ◌++◌, map,
  reverse, arith, eq_iff, ltb, leb, eqb, if◌then◌else◌, text_ltb, Eq, ◌==◌, nat_eq, string_eq,
  option_eq, pair_eq, Bool-cases, Option-cases, is_some, or_else, when, text_ltb_asym,
  text_le_trans, length, keep, any, all, take, drop, get_elem?, All, length-append, length-keep-le,
  length-take, All-append, All-keep, All-take, keep_sound, All-keep_both, All-map, Result, ok, err,
  Error, ◌>>=◌, ◌>>◌, require, >>=-eq-ok,
}
use evernight_ai.Content.{Content, Context, assistant, tool, has_role, is_active, tool_calls_of}
use evernight_ai.Tool.{ToolCall}

-- `{call.tool_call_id for call in tool_calls}`
unfoldable pub call_ids : List ToolCall → List String
call_ids = map (λ c. c.tool_call_id)

unfoldable pub mem : String → List String → Bool
mem k ids = any (λ j. j == k) ids

-- `message.tool_call_id in ids`; `None` is in no set of ids.
unfoldable pub answers : List String → Content → Bool
unfolding mem
answers ids m = elim m.tool_call_id [ none ↦ false | some k ↦ mem k ids ]

-- The id of a message that answers a call.
unfoldable pub id_of : Content → String
id_of m = or_else m.tool_call_id ""

-- `seen_ids == expected_ids`, as sets.
same_set : List String → List String → Bool
unfolding mem
same_set xs ys = all (λ x. mem x ys) xs && all (λ y. mem y xs) ys

-- The loop of `_following_tool_messages` over the messages after the assistant's.
unfoldable pub following : List String → List String → List Content → List Content
unfolding answers id_of same_set
following expected seen [] = []
following expected seen (m ∷ ms) =
    let rest = following expected (id_of m ∷ seen) ms in
    if has_role tool m && (answers expected m && not (answers seen m))
    then (if same_set (id_of m ∷ seen) expected then m ∷ [] else m ∷ rest)
    else []

-- `_following_tool_messages`
unfoldable pub following_tool_messages : List Content → List ToolCall → List Content
unfolding following call_ids
following_tool_messages ms calls = following (call_ids calls) [] ms

-- The loop of `_tool_protocol_safe_messages`, over the messages that are left.
unfoldable pub safe_from : ℕ → List Content → List Content
unfolding following_tool_messages
safe_from zero ms = []
safe_from (suc fuel) [] = []
safe_from (suc fuel) (m ∷ ms) =
    let calls = tool_calls_of m in
    let tool_messages = following_tool_messages ms calls in
    let skipped = safe_from fuel ms in
    let rest = safe_from fuel (drop (length tool_messages) ms) in
    if has_role tool m
    then skipped
    else if has_role assistant m && not (length calls == 0)
    then (if length tool_messages == length calls then m ∷ (tool_messages ++ rest) else rest)
    else m ∷ skipped

-- `_tool_protocol_safe_messages`; each round uses up a message.
unfoldable pub tool_protocol_safe_messages : List Content → List Content
unfolding safe_from
tool_protocol_safe_messages ms = safe_from (length ms) ms

-- `_active_messages`
unfoldable pub active_messages : List Content → List Content
unfolding tool_protocol_safe_messages
active_messages ms = tool_protocol_safe_messages (keep is_active ms)

-- The messages of the window that `organize` returns.
unfoldable pub organize : Context → Option (List Content) → List Content
unfolding active_messages
organize c messages = active_messages c.messages ++ active_messages (or_else messages [])

-- ===== src/Context/Groups.antt =====
-- The message groups of core/domain/context.py: an assistant message with the tool messages that
-- answer its calls stays in one piece.
pub mod Partition
use evernight_ai.Prelude.{
  ℕ, zero, suc, ◌+◌, ◌-◌, ◌*◌, ◌/◌, ◌≤◌, ◌<◌, max, String, ◌≡◌, refl, sym, ap, ◌∙◌, ◌≢◌, ◌↔◌, ◌⊎◌,
  inl, inr, Bool, true, false, not, ◌&&◌, ◌||◌, Option, none, some, List, [], ◌∷◌, ◌++◌, map,
  reverse, arith, eq_iff, ltb, leb, eqb, if◌then◌else◌, text_ltb, Eq, ◌==◌, nat_eq, string_eq,
  option_eq, pair_eq, Bool-cases, Option-cases, is_some, or_else, when, text_ltb_asym,
  text_le_trans, length, keep, any, all, take, drop, get_elem?, All, length-append, length-keep-le,
  length-take, All-append, All-keep, All-take, keep_sound, All-keep_both, All-map, Result, ok, err,
  Error, ◌>>=◌, ◌>>◌, require, >>=-eq-ok,
}
use evernight_ai.Content.{Content, assistant, tool, system, has_role, is_active, tool_calls_of}
use evernight_ai.Tool.{ToolCall}
use evernight_ai.Context.Organizer.{call_ids, answers}

-- `_system_prefix`
unfoldable pub system_prefix : List Content → List Content × List Content
system_prefix [] = ([], [])
system_prefix (m ∷ ms) =
    let rest = system_prefix ms in if has_role system m then (m ∷ rest.0, rest.1) else ([], m ∷ ms)

-- `_insert_after_system_prefix`
unfoldable pub insert_after_system_prefix : List Content → Content → List Content
unfolding system_prefix
insert_after_system_prefix ms m = (system_prefix ms).0 ++ m ∷ (system_prefix ms).1

-- The inner loop of `_message_groups`: the tool messages that answer one of the calls.
unfoldable pub span_answers : List String → List Content → List Content × List Content
span_answers ids [] = ([], [])
span_answers ids (m ∷ ms) =
    let rest = span_answers ids ms in
    if has_role tool m && answers ids m then (m ∷ rest.0, rest.1) else ([], m ∷ ms)

-- The outer loop of `_message_groups`.
unfoldable pub groups_from : ℕ → List Content → List (List Content)
unfolding span_answers
groups_from zero ms = []
groups_from (suc fuel) [] = []
groups_from (suc fuel) (m ∷ ms) =
    let split = span_answers (call_ids (tool_calls_of m)) ms in
    let alone = groups_from fuel ms in
    let rest = groups_from fuel split.1 in
    if has_role assistant m && not (length (tool_calls_of m) == 0)
    then (m ∷ split.0) ∷ rest
    else (m ∷ []) ∷ alone

-- `_message_groups`; each round uses up a message.
unfoldable pub message_groups : List Content → List (List Content)
unfolding groups_from
message_groups ms = groups_from (length ms) ms

-- `_protected_message_ids`
unfoldable pub protected_message_ids : Option (List Content) → List ℕ
protected_message_ids none = []
protected_message_ids (some ms) = map (λ m. m.address) (keep is_active ms)

-- `_group_contains_protected_message`
unfoldable pub group_contains_protected : List ℕ → List Content → Bool
group_contains_protected ids g = any (λ m. any (λ j. m.address == j) ids) g

-- `_tail_groups_by_message_count`, over the groups from the last to the first.
unfoldable pub tail_loop : ℕ → ℕ → List (List Content) → List (List Content) → List (List Content)
tail_loop max_items count selected [] = selected
tail_loop max_items count selected (g ∷ gs) =
    let more = tail_loop max_items (count + length g) (g ∷ selected) gs in
    if not (length selected == 0) && ltb max_items (count + length g)
    then selected
    else if leb max_items (count + length g)
    then g ∷ selected
    else more

unfoldable pub tail_groups : List (List Content) → ℕ → List (List Content)
unfolding tail_loop
tail_groups groups max_items = tail_loop max_items 0 [] (reverse groups)

-- The messages of a list of groups.
abbrev pub flat : List (List Content) → List Content
flat [] = []
flat (g ∷ gs) = g ++ flat gs

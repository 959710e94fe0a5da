-- ===== src/Context/Strategy/Pipeline.antt =====
-- What every composition of the context strategies keeps.
use evernight_ai.Prelude.{
  ℕ, ◌≡◌, refl, ◌∙◌, false, Option, none, some, List, [], ◌∷◌, arith, nat_eq, string_eq, option_eq,
  pair_eq, length, keep, All, All-behind,
}
use mathlib.Core.Path.{subst}
use evernight_ai.Content.{Content, Context, tool, has_role}
use evernight_ai.Memory.{MemoryItem}
use evernight_ai.Context.Organizer.{organize}
use evernight_ai.Context.Organizer.Safety.{
  IsSafe, done, plain, calls_tools, tool_protocol_safe_messages-IsSafe,
}
use evernight_ai.Context.Groups.{
  system_prefix, insert_after_system_prefix, message_groups, protected_message_ids, tail_groups,
  flat,
}
use evernight_ai.Context.Selection.Protocol.{
  IsSafe-append, system_prefix-IsSafe, groups_from-IsSafe, preserve_system_prefix-IsSafe,
  within_budget-IsSafe,
}
use evernight_ai.Context.Selection.Protection.{
  is_protected, preserve_system_prefix_protected, within_budget_protected,
}
use evernight_ai.Context.Strategy.{
  ChatRequest, Request, Strategy, basic, window, budget, summary, compose_memory_message, compose,
  trim, spend, summarize_old, removed_groups, to_chat_request, with_memory, memory_message,
}
use evernight_ai.Context.Strategy.Suffix.{Groups, tail_groups_suffix}

-- A message that is no part of a tool round.
abbrev pub IsPlain : Content → Type 0
IsPlain m = (has_role tool m ≡ false) × (calls_tools m ≡ false)

-- A strategy whose summarizers return plain messages.
abbrev pub IsPlainStrategy : Strategy → Type 0
IsPlainStrategy basic = Unit {0}
IsPlainStrategy (window s n) = IsPlainStrategy s
IsPlainStrategy (budget s n estimate) = IsPlainStrategy s
IsPlainStrategy (summary s f after n) = IsPlainStrategy s × ((ms : List Content) → IsPlain (f ms))

-- A strategy that does not summarize.
abbrev pub IsTrimming : Strategy → Type 0
IsTrimming basic = Unit {0}
IsTrimming (window s n) = IsTrimming s
IsTrimming (budget s n estimate) = IsTrimming s
IsTrimming (summary s f after n) = ⊥

organize-IsSafe : (c : Context) (messages : Option (List Content)) → IsSafe (organize c messages)
unfolding organize
organize-IsSafe c messages =
    IsSafe-append _ _ (tool_protocol_safe_messages-IsSafe _) (tool_protocol_safe_messages-IsSafe _)

insert-IsSafe :
    (ms : List Content) (m : Content)
    → IsPlain m
    → IsSafe ms
    → IsSafe (insert_after_system_prefix ms m)
unfolding insert_after_system_prefix
insert-IsSafe ms m p h =
    let (before, after) = system_prefix-IsSafe ms h in
    IsSafe-append _ _ before (plain p.0 p.1 after)

with_memory-IsSafe :
    (q : ChatRequest) (address : ℕ) (memories : Option (List MemoryItem))
    → IsSafe q.messages
    → IsSafe (with_memory q (memory_message address memories)).messages
unfolding with_memory memory_message compose_memory_message
with_memory-IsSafe q address none h = h
with_memory-IsSafe q address (some []) h = h
with_memory-IsSafe q address (some (m ∷ ms)) h =
    insert-IsSafe q.messages _ (unfold has_role in (refl, refl)) h

message_groups-IsSafe : (ms : List Content) → IsSafe ms → All IsSafe (message_groups ms)
unfolding message_groups
message_groups-IsSafe ms h = groups_from-IsSafe (length ms) ms h

flat-IsSafe : (gs : Groups) → All IsSafe gs → IsSafe (flat gs)
flat-IsSafe [] h = done
flat-IsSafe (g ∷ gs) h = IsSafe-append g (flat gs) h.0 (flat-IsSafe gs h.1)

flat_tail-IsSafe : (gs : Groups) (n : ℕ) → All IsSafe gs → IsSafe (flat (tail_groups gs n))
flat_tail-IsSafe gs n h =
    let (rest, e) = tail_groups_suffix gs n in
    flat-IsSafe _ (All-behind IsSafe rest _ (subst (All IsSafe) e h))

summarize_old-IsSafe :
    (f : List Content → Content) (after n : ℕ) (q : ChatRequest)
    → ((ms : List Content) → IsPlain (f ms))
    → IsSafe q.messages
    → IsSafe (summarize_old f after n q).messages
unfolding summarize_old removed_groups
summarize_old-IsSafe f after n q p h =
    let (before, behind) = system_prefix-IsSafe q.messages h in
    let groups = message_groups (system_prefix q.messages).1 in
    let recent = flat (tail_groups groups n) in
    let safe = flat_tail-IsSafe groups n (message_groups-IsSafe _ behind) in
    let removed = flat (removed_groups groups (length (tail_groups groups n))) in
    let shortened =
      IsSafe-append _ _ before
        (plain {m = f removed} {ms = recent} (p removed).0 (p removed).1 safe) in
    ground (arith, h, shortened)

-- Whatever strategies are composed, the messages of the request follow the tool protocol: every
-- assistant message that calls tools is followed by as many tool messages as it makes calls, each
-- answers one of them and no two the same, and there are no other tool messages; provided that the
-- summarizers return messages that neither are tool messages nor call tools.
pub compose-IsSafe :
    (s : Strategy) (c : Context) (r : Request) → IsPlainStrategy s → IsSafe (compose s c r).messages
unfolding compose trim spend
compose-IsSafe basic c r h =
    with_memory-IsSafe _ r.address r.memories
      (unfold to_chat_request in organize-IsSafe c r.messages)
compose-IsSafe (window s n) c r h =
    preserve_system_prefix-IsSafe n (protected_message_ids r.messages) _ (compose-IsSafe s c r h)
compose-IsSafe (budget s n estimate) c r h =
    within_budget-IsSafe estimate n (protected_message_ids r.messages) _ (compose-IsSafe s c r h)
compose-IsSafe (summary s f after n) c r h =
    summarize_old-IsSafe f after n (compose s c r) h.1 (compose-IsSafe s c r h.0)

-- Composed strategies that do not summarize keep, in their order, all messages of the basic
-- strategy's request that are active messages of the call itself, by identity.
pub compose_protected :
    (s : Strategy) (c : Context) (r : Request)
    → IsTrimming s
    → let ids = protected_message_ids r.messages in
      keep (is_protected ids) (compose s c r).messages
      ≡ keep (is_protected ids) (compose basic c r).messages
unfolding compose trim spend
compose_protected basic c r h = refl
compose_protected (window s n) c r h =
    preserve_system_prefix_protected n (protected_message_ids r.messages) (compose s c r).messages
    ∙ compose_protected s c r h
compose_protected (budget s n estimate) c r h =
    within_budget_protected estimate n (protected_message_ids r.messages) (compose s c r).messages
    ∙ compose_protected s c r h
compose_protected (summary s f after n) c r h = absurd h

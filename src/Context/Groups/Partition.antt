-- ===== src/Context/Groups/Partition.antt =====
-- The groups and the system prefix lose no message and keep the order.
use evernight_ai.Prelude.{
  ℕ, zero, suc, ◌≤◌, String, ◌≡◌, refl, List, [], ◌∷◌, ◌++◌, arith, nat_eq, string_eq, option_eq,
  pair_eq, length,
}
use evernight_ai.Content.{Content, tool_calls_of}
use evernight_ai.Context.Organizer.{call_ids}
use evernight_ai.Context.Groups.{system_prefix, span_answers, groups_from, message_groups, flat}

pub system_prefix_append : (ms : List Content) → (system_prefix ms).0 ++ (system_prefix ms).1 ≡ ms
unfolding system_prefix
system_prefix_append [] = refl
system_prefix_append (m ∷ ms) = ground (arith, system_prefix_append ms)

span_append :
    (ids : List String) (ms : List Content)
    → (span_answers ids ms).0 ++ (span_answers ids ms).1 ≡ ms
unfolding span_answers
span_append ids [] = refl
span_append ids (m ∷ ms) = ground (arith, span_append ids ms)

span-le : (ids : List String) (ms : List Content) → length (span_answers ids ms).1 ≤ length ms
unfolding span_answers
span-le ids [] = omega arith
span-le ids (m ∷ ms) = ground (arith, span-le ids ms)

flat-groups_from :
    (fuel : ℕ) (ms : List Content) → length ms ≤ fuel → flat (groups_from fuel ms) ≡ ms
unfolding groups_from
flat-groups_from zero [] h = refl
flat-groups_from zero (m ∷ ms) h = absurd (omega arith)
flat-groups_from (suc fuel) [] h = refl
flat-groups_from (suc fuel) (m ∷ ms) h =
    let ids = call_ids (tool_calls_of m) in
    ground (
      arith,
      span_append ids ms,
      span-le ids ms,
      flat-groups_from fuel ms,
      flat-groups_from fuel (span_answers ids ms).1,
    )

-- The groups of a history, put together, are the history.
pub flat-message_groups : (ms : List Content) → flat (message_groups ms) ≡ ms
unfolding message_groups
flat-message_groups ms = flat-groups_from (length ms) ms (omega arith)

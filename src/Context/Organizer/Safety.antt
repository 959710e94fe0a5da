-- ===== src/Context/Organizer/Safety.antt =====
-- What is sent to a provider follows the tool protocol.
use evernight_ai.Prelude.{
  ℕ, zero, suc, ◌≤◌, String, ◌≡◌, refl, ap, inl, inr, Bool, true, false, not, ◌&&◌, List, [], ◌∷◌,
  ◌++◌, arith, ◌==◌, nat_eq, nat_beq_iff, string_eq, option_eq, pair_eq, Bool-cases, length, keep,
  drop, All, keep-append, keep_none, length-drop-le, All-map,
}
use evernight_ai.Content.{Content, assistant, tool, has_role, tool_calls_of}
use evernight_ai.Tool.{ToolCall}
use evernight_ai.Context.Organizer.{
  call_ids, mem, answers, id_of, following, following_tool_messages, safe_from,
  tool_protocol_safe_messages,
}

-- An assistant message that calls tools.
abbrev pub calls_tools : Content → Bool
calls_tools m = has_role assistant m && not (length (tool_calls_of m) == 0)

-- No two messages have the same call id.
abbrev pub DistinctIds : List Content → Type 0
DistinctIds [] = Unit {0}
DistinctIds (m ∷ ms) = All (λ n. (id_of m == id_of n) ≡ false) ms × DistinctIds ms

-- Tool messages that answer the calls: each answers one, no two the same, and as many as the calls.
abbrev pub Replies : List ToolCall → List Content → Type 0
Replies calls ms =
    All (λ m. (has_role tool m && answers (call_ids calls) m) ≡ true) ms
    × DistinctIds ms
    × (length ms ≡ length calls)

-- Histories in which tool messages stand only right behind the message whose calls they answer.
pub data IsSafe : List Content → Type 0 where
  done : IsSafe []
  plain :
      {m : Content} {ms : List Content}
      → has_role tool m ≡ false
      → calls_tools m ≡ false
      → IsSafe ms
      → IsSafe (m ∷ ms)
  round :
      {l : List Content} (m : Content) (replies ms : List Content)
      → calls_tools m ≡ true
      → Replies (tool_calls_of m) replies
      → IsSafe ms
      → l ≡ m ∷ (replies ++ ms)
      → IsSafe l

following-answers :
    (expected seen : List String) (ms : List Content)
    → All (λ m. (has_role tool m && answers expected m) ≡ true) (following expected seen ms)
unfolding following
following-answers expected seen [] = tt
following-answers expected seen (m ∷ ms) =
    ground (arith, following-answers expected (id_of m ∷ seen) ms)

answers_once :
    (expected seen : List String) (m : Content)
    → answers expected m ≡ true
    → answers seen m ≡ false
    → mem (id_of m) seen ≡ false
unfolding answers id_of
answers_once expected seen m h k = ground arith

mem-cons_ne : (k j : String) (ids : List String) → mem k (j ∷ ids) ≡ false → (j == k) ≡ false
unfolding mem
mem-cons_ne k j ids h = ground arith

mem-tail : (k j : String) (ids : List String) → mem k (j ∷ ids) ≡ false → mem k ids ≡ false
unfolding mem
mem-tail k j ids h = ground arith

following-unseen :
    (expected seen : List String) (ms : List Content)
    → All (λ m. mem (id_of m) seen ≡ false) (following expected seen ms)
unfolding following
following-unseen expected seen [] = tt
following-unseen expected seen (m ∷ ms) = ground (
  arith,
  answers_once expected seen m,
  All-map (λ n. mem (id_of n) (id_of m ∷ seen) ≡ false) (λ n. mem (id_of n) seen ≡ false)
      (following expected (id_of m ∷ seen) ms) (λ n. mem-tail (id_of n) (id_of m) seen)
      (following-unseen expected (id_of m ∷ seen) ms),
)

following-DistinctIds :
    (expected seen : List String) (ms : List Content) → DistinctIds (following expected seen ms)
unfolding following
following-DistinctIds expected seen [] = tt
following-DistinctIds expected seen (m ∷ ms) = ground (
  arith,
  following-DistinctIds expected (id_of m ∷ seen) ms,
  All-map (λ n. mem (id_of n) (id_of m ∷ seen) ≡ false) (λ n. (id_of m == id_of n) ≡ false)
      (following expected (id_of m ∷ seen) ms) (λ n. mem-cons_ne (id_of n) (id_of m) seen)
      (following-unseen expected (id_of m ∷ seen) ms),
)

-- The answers are the head of the messages that follow.
following_prefix :
    (expected seen : List String) (ms : List Content)
    → following expected seen ms ++ drop (length (following expected seen ms)) ms ≡ ms
unfolding following
following_prefix expected seen [] = refl
following_prefix expected seen (m ∷ ms) =
    ground (arith, following_prefix expected (id_of m ∷ seen) ms)

following-Replies :
    (ms : List Content) (calls : List ToolCall)
    → length (following_tool_messages ms calls) ≡ length calls
    → Replies calls (following_tool_messages ms calls)
unfolding following_tool_messages
following-Replies ms calls h =
    (following-answers (call_ids calls) [] ms, following-DistinctIds (call_ids calls) [] ms, h)

safe_from-IsSafe : (fuel : ℕ) (ms : List Content) → IsSafe (safe_from fuel ms)
unfolding safe_from
safe_from-IsSafe zero ms = done
safe_from-IsSafe (suc fuel) [] = done
safe_from-IsSafe (suc fuel) (m ∷ ms) = elim (Bool-cases (has_role tool m)) [
  | inl t ↦ rw (t, safe_from) (safe_from-IsSafe fuel ms)
  | inr t ↦ elim (Bool-cases (calls_tools m)) [
    | inr c ↦ rw (t, c, safe_from) (plain t c (safe_from-IsSafe fuel ms))
    | inl c ↦
        elim (Bool-cases
          (length (following_tool_messages ms (tool_calls_of m)) == length (tool_calls_of m))) [
            | inr n ↦ rw (t, c, n, safe_from) (safe_from-IsSafe fuel _)
            | inl n ↦
                rw (t, c, n, safe_from)
                  (round m (following_tool_messages ms (tool_calls_of m)) _ c
                    (following-Replies ms (tool_calls_of m) ((nat_beq_iff _ _).0 n))
                    (safe_from-IsSafe fuel _) refl)
          ]
  ]
]

-- Whatever the history, each assistant message with tool calls that is kept is followed by as many
-- tool messages as it makes calls, each answers one of these calls and no two have the same id,
-- and no other tool message is kept.
pub tool_protocol_safe_messages-IsSafe :
    (ms : List Content) → IsSafe (tool_protocol_safe_messages ms)
unfolding tool_protocol_safe_messages
tool_protocol_safe_messages-IsSafe ms = safe_from-IsSafe (length ms) ms

-- A message that takes no part in the tool protocol.
abbrev pub is_plain : Content → Bool
is_plain m = not (has_role tool m) && not (calls_tools m)

answers_are_not_plain :
    (expected seen : List String) (ms : List Content)
    → All (λ m. is_plain m ≡ false) (following expected seen ms)
answers_are_not_plain expected seen ms =
    All-map (λ m. (has_role tool m && answers expected m) ≡ true) (λ m. is_plain m ≡ false) _
      (λ m h. ground (arith, h)) (following-answers expected seen ms)

plain-following :
    (ms : List Content) (calls : List ToolCall)
    → keep is_plain (following_tool_messages ms calls) ≡ []
unfolding following_tool_messages
plain-following ms calls = keep_none is_plain _ (answers_are_not_plain (call_ids calls) [] ms)

plain-drop :
    (ms : List Content) (calls : List ToolCall)
    → keep is_plain (drop (length (following_tool_messages ms calls)) ms) ≡ keep is_plain ms
plain-drop ms calls =
    let replies = following_tool_messages ms calls in
    let split : replies ++ drop (length replies) ms ≡ ms =
      unfold following_tool_messages in following_prefix (call_ids calls) [] ms in
    cc (
      ap (keep is_plain) split,
      keep-append is_plain replies (drop (length replies) ms),
      plain-following ms calls,
    )

plain-safe_from :
    (fuel : ℕ) (ms : List Content)
    → length ms ≤ fuel
    → keep is_plain (safe_from fuel ms) ≡ keep is_plain ms
unfolding safe_from
plain-safe_from zero [] h = refl
plain-safe_from zero (m ∷ ms) h = absurd (omega arith)
plain-safe_from (suc fuel) [] h = refl
plain-safe_from (suc fuel) (m ∷ ms) h =
    let replies = following_tool_messages ms (tool_calls_of m) in
    let left = drop (length replies) ms in
    ground (
      arith,
      plain-safe_from fuel ms,
      plain-safe_from fuel left,
      length-drop-le (length replies) ms,
      plain-drop ms (tool_calls_of m),
      plain-following ms (tool_calls_of m),
      keep-append is_plain replies (safe_from fuel left),
    )

-- Of a history, every message that neither is a tool message nor an assistant's with tool calls is
-- kept, in its place among these.
pub plain-tool_protocol_safe_messages :
    (ms : List Content) → keep is_plain (tool_protocol_safe_messages ms) ≡ keep is_plain ms
unfolding tool_protocol_safe_messages
plain-tool_protocol_safe_messages ms = plain-safe_from (length ms) ms (omega arith)

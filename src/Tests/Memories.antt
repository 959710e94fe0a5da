-- ===== src/Tests/Memories.antt =====
-- The selection of memories, and a retry in a context, at concrete inputs.
use evernight_ai.Prelude.{
  ◌+◌, String, ◌≡◌, refl, true, false, none, some, List, [], ◌∷◌, map, ◌==◌, nat_eq, string_eq,
  option_eq, pair_eq, take, All, sorted_by, Sorted, ℤ, pos,
}
use evernight_ai.Dict.{lookup}
use evernight_ai.Registry
use evernight_ai.Context
use evernight_ai.Content.{Content, Context, assistant, user, MessageRole, rejected}
use evernight_ai.Context.{Contexts, context_item}
use evernight_ai.Context.Organizer.{active_messages}
use evernight_ai.Context.Retry.{
  mark_retry_messages, mark_context_retry_messages, mark_retry_messages_forgets,
}
use evernight_ai.Memory
use evernight_ai.Memory.{MemoryItem, MemoryKind-discrete, MemoryScope-discrete}
use evernight_ai.Memory.Query.{Texts, MemoryQuery, default, before, filter_reasons, select_memories}
use evernight_ai.Memory.Query.Chosen.{
  NoTwins, select_memories-Sorted, select_memories-NoTwins, select_memories_counts,
}

-- Texts in which every text is one word.
abbrev plain_texts : Texts
plain_texts = record {
  casefold = λ s. s;
  strip = λ s. s;
  words = λ s. s ∷ [];
  occurs = λ t s. t == s;
}

abbrev tea : String → ℤ → MemoryItem
tea k p = record {
  memory_id = k;
  owner_id = some "ann";
  content = "likes tea";
  kind = Memory.preference;
  scope = Memory.global;
  scope_id = none;
  tags = [];
  priority = p;
  relevance = 0;
  confidence = 1;
  is_enabled = true;
  expires_at = none;
  created_at = 1;
  updated_at = 1;
}

abbrev three_memories : List MemoryItem
three_memories =
    tea "a" (pos 1) ∷ tea "b" (pos 2) ∷ record (tea "c" (pos 3)) { is_enabled = false } ∷ []

abbrev all_memories : MemoryQuery
all_memories = record {
  text = none;
  scope = none;
  scope_id = none;
  scopes = [];
  kinds = [];
  tags = [];
  minimum_relevance = none;
  minimum_confidence = none;
  include_disabled = false;
  include_expired = false;
  deduplicate = true;
  sort = default;
  limit = none;
}

select_memories-Sorted_example :
    All
      (λ m. filter_reasons plain_texts 5 m all_memories ≡ [])
      (select_memories plain_texts 5 three_memories all_memories).memories
    × Sorted
        (before all_memories)
        (select_memories plain_texts 5 three_memories all_memories).memories
select_memories-Sorted_example = select_memories-Sorted plain_texts 5 three_memories all_memories

select_memories-NoTwins_example :
    NoTwins plain_texts all_memories
      (select_memories plain_texts 5 three_memories all_memories).memories
select_memories-NoTwins_example =
    select_memories-NoTwins plain_texts 5 three_memories all_memories refl

select_memories_counts_example :
    (select_memories plain_texts 5 three_memories all_memories).selected_count
      + (select_memories plain_texts 5 three_memories all_memories).filtered_count
    ≡ 3
unfolding select_memories
select_memories_counts_example =
    select_memories_counts plain_texts 5 three_memories all_memories refl

-- A run: the memory of the higher priority stays.
selects_b :
    map (λ m. m.memory_id) (select_memories plain_texts 5 three_memories all_memories).memories
    ≡ "b" ∷ []
unfolding select_memories sorted_by MemoryKind-discrete MemoryScope-discrete
selects_b = refl

abbrev said : MessageRole → Content
said role = record {
  address = 1;
  role = role;
  content = none;
  status = none;
  tool_call_id = none;
  tool_calls = none;
}

abbrev talk : Contexts
talk =
    (
      "x",
      record {
        context_id = "x";
        owner_id = some "ann";
        revision = 0;
        messages = said user ∷ said assistant ∷ [];
      },
    )
    ∷ []

abbrev marked_talk : Contexts
marked_talk =
    (
      "x",
      record {
        context_id = "x";
        owner_id = some "ann";
        revision = 0;
        messages = said user ∷ record (said assistant) { status = some rejected } ∷ [];
      },
    )
    ∷ []

mark_retry_messages_forgets_example :
    (c : Context) × (lookup "x" talk ≡ some c)
    × (lookup "x" marked_talk ≡ some (mark_context_retry_messages c 1))
    × (active_messages (mark_context_retry_messages c 1).messages
        ≡ active_messages (take 1 c.messages))
unfolding mark_retry_messages Registry.get Context.replace Registry.register
mark_retry_messages_forgets_example =
    mark_retry_messages_forgets talk marked_talk "x" 1 none (refl, tt, tt) refl

-- ===== src/Tests/Registers.antt =====
-- Sessions, contexts and memories, at concrete inputs.
use evernight_ai.Prelude.{
  pos, ◌≤◌, String, ◌≡◌, refl, true, not, Option, none, some, [], ◌∷◌, nat_eq, string_eq, option_eq,
  pair_eq, when, length, ok,
}
use evernight_ai.Dict.{lookup}
use evernight_ai.Auth.{PrincipalScope, scope_permits}
use evernight_ai.Registry
use evernight_ai.Registry.Laws.{SameOutside}
use evernight_ai.Registry.Clearing.{clear_exact}
use evernight_ai.Registry.Sound.{length-list_items}
use evernight_ai.Content.{Content, Context}
use evernight_ai.Content
use evernight_ai.Session
use evernight_ai.Session.{Session, Sessions, session_item, SessionFilter, list_sessions}
use evernight_ai.Session.Theorems.{any_usurps, sessions_run-SameOutside, create_usurps}
use evernight_ai.Context.{Contexts, context_item}
use evernight_ai.Memory
use evernight_ai.Memory.{MemoryItem, Memories, memory_item}

abbrev ann : Option PrincipalScope
ann = some (record { owner_id = some "ann" })

abbrev bob : Option PrincipalScope
bob = some (record { owner_id = some "bob" })

abbrev s1 : String
s1 = "s1"

abbrev c1 : String
c1 = "c"

abbrev session_of : String → String → Session
session_of k owner = record {
  session_id = k;
  owner_id = some owner;
  title = none;
  context_id = "c";
  provider_id = none;
  model_id = none;
  status = Session.active;
  created_at = 1;
  updated_at = 1;
}

abbrev anns : Sessions
anns = ("s1", session_of "s1" "ann") ∷ []

sessions_run-SameOutside_example :
    SameOutside bob anns (Session.run bob anns (Session.deletes "s1" ∷ Session.clears ∷ []))
unfolding any_usurps
sessions_run-SameOutside_example =
    sessions_run-SameOutside bob anns (Session.deletes "s1" ∷ Session.clears ∷ []) (refl, tt, tt)
      refl

create_usurps_example :
    lookup "s1" (Session.step bob anns (Session.creates (session_of "s1" "bob")))
    ≡ some (session_of "s1" "bob")
unfolding lookup scope_permits
create_usurps_example =
    create_usurps bob anns (session_of "s1" "bob") (session_of "s1" "ann") refl refl refl

abbrev all_of_ann : SessionFilter
all_of_ann = record {
  cursor = none;
  limit = some 5;
  owner_id = none;
  status = none;
  provider_id = none;
  model_id = none;
}

clear_exact_example :
    (d' : Sessions) × (Registry.clear anns bob ≡ ok d')
    × ((k : String) → lookup k d' ≡ when (λ s. not (scope_permits bob s.owner_id)) (lookup k anns))
clear_exact_example = clear_exact anns bob (refl, tt, tt)

length-list_items_example : length (Registry.list_items anns none (some 0) none (λ l. l) ann) ≤ 0
length-list_items_example = length-list_items anns none 0 none (λ l. l) ann

abbrev context_of : String → String → Context
context_of k owner = record { context_id = k; owner_id = some owner; revision = 0; messages = [] }

abbrev message : Content
message = record {
  address = 1;
  role = Content.user;
  content = none;
  status = none;
  tool_call_id = none;
  tool_calls = none;
}

abbrev one_context : Contexts
one_context = ("c", context_of "c" "ann") ∷ []

abbrev memory_of : String → String → MemoryItem
memory_of k owner = record {
  memory_id = k;
  owner_id = some owner;
  content = "likes tea";
  kind = Memory.preference;
  scope = Memory.user;
  scope_id = none;
  tags = [];
  priority = pos 0;
  relevance = 0;
  confidence = 0;
  is_enabled = true;
  expires_at = none;
  created_at = 1;
  updated_at = 1;
}

abbrev one_memory : Memories
one_memory = ("m", memory_of "m" "ann") ∷ []

-- ===== src/Memory.antt =====
-- core/schema/memory.py and the register of core/domain/memory.py.
pub mod Theorems
pub mod Query
use evernight_ai.Prelude.{
  discrete_eq, ℤ, pos, ℕ, zero, suc, ◌+◌, ◌-◌, ◌*◌, ◌/◌, ◌≤◌, ◌<◌, max, String, ◌≡◌, refl, sym, ap,
  ◌∙◌, ◌≢◌, ◌↔◌, ◌⊎◌, inl, inr, Bool, true, false, not, ◌&&◌, ◌||◌, Option, none, some, List, [],
  ◌∷◌, ◌++◌, map, reverse, arith, eq_iff, ltb, leb, eqb, if◌then◌else◌, text_ltb, Eq, ◌==◌, nat_eq,
  nat_beq_iff, string_eq, option_eq, pair_eq, Bool-cases, Option-cases, is_some, or_else, when,
  text_ltb_asym, text_le_trans, length, keep, any, all, take, drop, get_elem?, All, length-append,
  length-keep-le, length-take, All-append, All-keep, All-take, keep_sound, keep-append, keep_none,
  length-drop-le, All-keep_both, All-map, Result, ok, err, Error, ◌>>=◌, ◌>>◌, require, >>=-eq-ok,
}
use evernight_ai.Dict.{Dict}
use evernight_ai.Auth.{PrincipalScope}
use evernight_ai.Registry
use evernight_ai.Registry.{Item}

pub data MemoryKind : Type 0 where
  fact preference summary definition instruction episodic : MemoryKind

pub data MemoryScope : Type 0 where
  global user session context : MemoryScope

unfoldable pub MemoryKind-discrete : Discrete MemoryKind
MemoryKind-discrete = hlevel

instance abbrev pub kind_eq : Eq MemoryKind
kind_eq = discrete_eq MemoryKind-discrete

unfoldable pub MemoryScope-discrete : Discrete MemoryScope
MemoryScope-discrete = hlevel

instance abbrev pub scope_eq : Eq MemoryScope
scope_eq = discrete_eq MemoryScope-discrete

unfoldable pub scope_value : MemoryScope → String
scope_value global = "global"
scope_value user = "user"
scope_value session = "session"
scope_value context = "context"

unfoldable pub kind_value : MemoryKind → String
kind_value fact = "fact"
kind_value preference = "preference"
kind_value summary = "summary"
kind_value definition = "definition"
kind_value instruction = "instruction"
kind_value episodic = "episodic"

-- `MemoryItem`, without its free-form metadata; times are instants. Relevance and confidence are
-- floats between 0 and 1, here in units of 2 ^ -1074, of which every float is a multiple.
pub record MemoryItem : Type 0 where
  pub memory_id : String
  pub owner_id : Option String
  pub content : String
  pub kind : MemoryKind
  pub scope : MemoryScope
  pub scope_id : Option String
  pub tags : List String
  pub priority : ℤ
  pub relevance : ℕ
  pub confidence : ℕ
  pub is_enabled : Bool
  pub expires_at : Option ℕ
  pub created_at : ℕ
  pub updated_at : ℕ

abbrev pub Memories : Type 0
Memories = Dict String MemoryItem

instance abbrev pub memory_item : Item MemoryItem
memory_item = record {
  item_id = λ m. m.memory_id;
  owner_of = λ m. m.owner_id;
  missing = Error.memory_not_found;
}

-- `MemoryRegister.list_memories`; `select_by_query` is `select_memories` under the query, or the
-- identity where no query is given.
unfoldable pub list_memories :
    (List MemoryItem → List MemoryItem)
    → Memories
    → Option String
    → Option ℕ
    → Option String
    → Option PrincipalScope
    → List MemoryItem
list_memories select_by_query d cursor limit owner scope =
    Registry.list_items d cursor limit owner select_by_query scope

-- `MemoryManager.create`
unfoldable pub create :
    Memories → MemoryItem → Option PrincipalScope → Result (Memories × MemoryItem)
create d m scope = do
  d' ← Registry.register d m scope
  m' ← Registry.get d' m.memory_id scope
  ok (d', m')

-- `MemoryManager.replace`; `now` is `datetime.now(timezone.utc)`.
unfoldable pub replace :
    Memories → MemoryItem → ℕ → Option PrincipalScope → Result (Memories × MemoryItem)
replace d m now scope = do
  require (Registry.has d m.memory_id scope) Error.memory_not_found
  d' ← Registry.register d (record m { updated_at = now }) scope
  m' ← Registry.get d' m.memory_id scope
  ok (d', m')

-- `MemoryManager.delete`
unfoldable pub delete : Memories → String → Option PrincipalScope → Result Memories
delete d memory_id scope = Registry.unregister d memory_id scope

-- `MemoryManager.clear`
unfoldable pub clear : Memories → Option PrincipalScope → Result Memories
clear d scope = Registry.clear d scope

-- The calls that change the memories.
pub data MemoryCall : Type 0 where
  creates : MemoryItem → MemoryCall
  replaces : MemoryItem → ℕ → MemoryCall
  deletes : String → MemoryCall
  clears : MemoryCall

unfoldable pub step : Option PrincipalScope → Memories → MemoryCall → Memories
unfolding Registry.kept Registry.kept_state
step scope d (creates m) = Registry.kept d (create d m scope)
step scope d (replaces m now) = Registry.kept d (replace d m now scope)
step scope d (deletes k) = Registry.kept_state d (delete d k scope)
step scope d clears = Registry.kept_state d (clear d scope)

unfoldable pub run : Option PrincipalScope → Memories → List MemoryCall → Memories
unfolding step
run scope d [] = d
run scope d (c ∷ cs) = run scope (step scope d c) cs

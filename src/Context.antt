-- ===== src/Context.antt =====
-- core/domain/context.py and core/protocol/context.py: the register of contexts and its manager.
pub mod Theorems
pub mod Organizer
pub mod Retry
pub mod Groups
pub mod Selection
pub mod Strategy
use evernight_ai.Prelude.{
  ℕ, zero, suc, ◌+◌, ◌-◌, ◌*◌, ◌/◌, ◌≤◌, ◌<◌, max, String, ◌≡◌, refl, sym, ap, ◌∙◌, ◌≢◌, ◌↔◌, ◌⊎◌,
  inl, inr, Bool, true, false, not, ◌&&◌, ◌||◌, Option, none, some, List, [], ◌∷◌, ◌++◌, map,
  reverse, arith, eq_iff, ltb, leb, eqb, if◌then◌else◌, text_ltb, Eq, ◌==◌, nat_eq, string_eq,
  option_eq, pair_eq, Bool-cases, Option-cases, is_some, or_else, when, text_ltb_asym,
  text_le_trans, length, keep, any, all, take, drop, get_elem?, All, length-append, length-keep-le,
  length-take, All-append, All-keep, All-take, keep_sound, All-keep_both, All-map, Result, ok, err,
  Error, ◌>>=◌, ◌>>◌, require, >>=-eq-ok,
}
use evernight_ai.Dict.{Dict}
use evernight_ai.Auth.{PrincipalScope}
use evernight_ai.Content.{Content, Context}
use evernight_ai.Registry
use evernight_ai.Registry.{Item}

abbrev pub Contexts : Type 0
Contexts = Dict String Context

instance abbrev pub context_item : Item Context
context_item = record {
  item_id = λ c. c.context_id;
  owner_of = λ c. c.owner_id;
  missing = Error.context_not_found;
}

-- `ContextRegister.list_contexts`
unfoldable pub list_contexts :
    Contexts → Option String → Option ℕ → Option String → Option PrincipalScope → List Context
list_contexts d cursor limit owner scope = Registry.list_items d cursor limit owner (λ l. l) scope

-- `expected_revision is not None and context.revision != expected_revision`, negated.
unfoldable pub revision_matches : Option ℕ → ℕ → Bool
revision_matches none n = true
revision_matches (some expected) n = n == expected

-- `ContextRegisterProtocol.append_message`, which `ContextManager.append` calls.
unfoldable pub append_message :
    Contexts → String → Content → Option ℕ → Option PrincipalScope → Result (Contexts × Context)
unfolding revision_matches
append_message d context_id message expected scope = do
  c ← Registry.get d context_id scope
  require (revision_matches expected c.revision) Error.context_state
  let updated = record c { messages = c.messages ++ message ∷ []; revision = c.revision + 1 }
  d' ← Registry.register d updated scope
  ok (d', updated)

-- `ContextManager.create`
unfoldable pub create : Contexts → Context → Option PrincipalScope → Result (Contexts × Context)
create d c scope = do
  d' ← Registry.register d c scope
  c' ← Registry.get d' c.context_id scope
  ok (d', c')

-- `ContextManager.replace`
unfoldable pub replace : Contexts → Context → Option PrincipalScope → Result (Contexts × Context)
replace d c scope = do
  require (Registry.has d c.context_id scope) Error.context_not_found
  d' ← Registry.register d c scope
  c' ← Registry.get d' c.context_id scope
  ok (d', c')

-- `ContextManager.delete`
unfoldable pub delete : Contexts → String → Option PrincipalScope → Result Contexts
delete d context_id scope = Registry.unregister d context_id scope

-- `ContextManager.clear`
unfoldable pub clear : Contexts → Option PrincipalScope → Result Contexts
clear d scope = Registry.clear d scope

-- The calls that change the contexts.
pub data ContextCall : Type 0 where
  creates : Context → ContextCall
  replaces : Context → ContextCall
  appends : String → Content → Option ℕ → ContextCall
  deletes : String → ContextCall
  clears : ContextCall

unfoldable pub step : Option PrincipalScope → Contexts → ContextCall → Contexts
unfolding Registry.kept Registry.kept_state
step scope d (creates c) = Registry.kept d (create d c scope)
step scope d (replaces c) = Registry.kept d (replace d c scope)
step scope d (appends k m expected) = Registry.kept d (append_message d k m expected scope)
step scope d (deletes k) = Registry.kept_state d (delete d k scope)
step scope d clears = Registry.kept_state d (clear d scope)

unfoldable pub run : Option PrincipalScope → Contexts → List ContextCall → Contexts
unfolding step
run scope d [] = d
run scope d (c ∷ cs) = run scope (step scope d c) cs

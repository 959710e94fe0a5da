-- ===== src/Tool/Register.antt =====
-- `ToolRegister` of core/domain/tool.py: the registered tools and the sources that manage some of
-- them. Every operation replaces one immutable snapshot.
pub mod Sources
pub mod Consistency
pub mod Ownership
use evernight_ai.Prelude.{
  ℕ, zero, suc, ◌+◌, ◌-◌, ◌*◌, ◌/◌, ◌≤◌, ◌<◌, max, String, ◌≡◌, refl, sym, ap, ◌∙◌, ◌≢◌, ◌↔◌, ◌⊎◌,
  inl, inr, Bool, true, false, not, ◌&&◌, ◌||◌, Option, none, some, List, [], ◌∷◌, ◌++◌, map,
  reverse, arith, eq_iff, ltb, leb, eqb, if◌then◌else◌, text_ltb, Eq, ◌==◌, nat_eq, nat_beq_iff,
  string_eq, option_eq, pair_eq, Bool-cases, Option-cases, is_some, or_else, when, text_ltb_asym,
  text_le_trans, length, keep, any, all, take, drop, get_elem?, All, length-append, length-keep-le,
  length-take, All-append, All-behind, All-keep, All-take, keep_sound, keep-append, keep_none,
  length-drop-le, All-keep_both, All-map, Result, ok, err, Error, ◌>>=◌, ◌>>◌, require, >>=-eq-ok,
}
use evernight_ai.Dict.{Dict, lookup, insert, erase, contains, values}
use evernight_ai.Value.{Value}
use evernight_ai.Tool.{ToolDefinition, ToolSafetyDecision}

-- What awaiting an executor comes to: a result, an error of the tool or of the sandbox, or any other
-- exception.
pub data Outcome : Type 0 where
  returned : Value → Outcome
  tool_failed : Outcome
  raised : Outcome

-- Executors and preflight policies are callables that the tools bring.
abbrev pub Executor : Type 0
Executor = Dict String Value → Outcome

abbrev pub PreflightPolicy : Type 0
PreflightPolicy = ToolDefinition → Dict String Value → Option ToolSafetyDecision

-- `ToolRegistration`
pub record Registration : Type 0 where
  pub tool : ToolDefinition
  pub executor : Executor
  pub preflight_policy : Option PreflightPolicy

-- `_ToolRegisterSnapshot`
pub record Snapshot : Type 0 where
  pub tools : Dict String ToolDefinition
  pub executors : Dict String Executor
  pub preflight_policies : Dict String PreflightPolicy
  pub source_owners : Dict String String

abbrev pub empty_snapshot : Snapshot
empty_snapshot = record { tools = []; executors = []; preflight_policies = []; source_owners = [] }

-- `pop` where the policy is `None`, an assignment otherwise.
unfoldable pub set_preflight :
    String → Option PreflightPolicy → Dict String PreflightPolicy → Dict String PreflightPolicy
unfolding insert erase
set_preflight name none d = erase name d
set_preflight name (some p) d = insert name p d

-- The assignments for one registration.
unfoldable pub put : Registration → Snapshot → Snapshot
unfolding insert set_preflight
put r s = record s {
  tools = insert r.tool.name r.tool s.tools;
  executors = insert r.tool.name r.executor s.executors;
  preflight_policies = set_preflight r.tool.name r.preflight_policy s.preflight_policies;
}

-- The pops for one tool.
unfoldable pub remove : String → Snapshot → Snapshot
unfolding erase
remove name s = record s {
  tools = erase name s.tools;
  executors = erase name s.executors;
  preflight_policies = erase name s.preflight_policies;
}

-- `ToolRegister.has`
unfoldable pub has : Snapshot → String → Bool
unfolding contains
has s name = contains name s.tools && contains name s.executors

-- `ToolRegister.register`
unfoldable pub register : Snapshot → Registration → Result Snapshot
unfolding put lookup
register s r =
    if is_some (lookup r.tool.name s.source_owners) then err Error.tool_state else ok (put r s)

-- `ToolRegister.unregister`
unfoldable pub unregister : Snapshot → String → Result Snapshot
unfolding has remove lookup
unregister s name =
    if not (has s name)
    then err Error.tool_not_found
    else if is_some (lookup name s.source_owners)
    then err Error.tool_state
    else ok (remove name s)

-- `len(names) != len(set(names))`, negated.
unfoldable pub distinct : List String → Bool
distinct [] = true
distinct (n ∷ ns) = not (any (λ k. n == k) ns) && distinct ns

unfoldable pub names : List Registration → List String
names = map (λ r. r.tool.name)

unfoldable pub conflicts : Snapshot → String → List String → List String
unfolding contains lookup
conflicts s source = keep (λ n. contains n s.tools && not (lookup n s.source_owners == some source))

unfoldable pub owned_names : String → Dict String String → List String
owned_names source [] = []
owned_names source ((n, owner) ∷ d) =
    let rest = owned_names source d in if owner == source then n ∷ rest else rest

-- `for name in owned_names: ...`
unfoldable pub remove_all : List String → Snapshot → Snapshot
unfolding remove
remove_all [] s = s
remove_all (n ∷ ns) s =
    remove_all ns (record (remove n s) { source_owners = erase n s.source_owners })

-- `for registration in registrations: ...`
unfoldable pub put_all : String → List Registration → Snapshot → Snapshot
unfolding put
put_all source [] s = s
put_all source (r ∷ rs) s =
    put_all source rs
      (record (put r s) { source_owners = insert r.tool.name source s.source_owners })

-- `ToolRegister.replace_source`
unfoldable pub replace_source : Snapshot → String → List Registration → Result Snapshot
unfolding names distinct conflicts owned_names remove_all put_all
replace_source s source rs =
    if source == ""
    then err Error.tool_state
    else if not (distinct (names rs))
    then err Error.tool_state
    else if not (length (conflicts s source (names rs)) == 0)
    then err Error.tool_state
    else ok (put_all source rs (remove_all (owned_names source s.source_owners) s))

-- What `get` and `get_executor` return: the entry, if the tool has both; `d[name]` is there then.
found {ℓ} : {A : Type ℓ} → Bool → Option A → Result A
found true (some a) = ok a
found true none = err Error.tool_not_found
found false o = err Error.tool_not_found

-- `ToolRegister.get`
unfoldable pub get : Snapshot → String → Result ToolDefinition
unfolding has found lookup
get s name = found (has s name) (lookup name s.tools)

-- `ToolRegister.get_executor`
unfoldable pub get_executor : Snapshot → String → Result Executor
unfolding has found lookup
get_executor s name = found (has s name) (lookup name s.executors)

-- `ToolRegister.get_preflight_policy`
unfoldable pub get_preflight_policy : Snapshot → String → Result (Option PreflightPolicy)
unfolding get lookup
get_preflight_policy s name = get s name >>= λ tool. ok (lookup name s.preflight_policies)

-- `ToolRegister.list_tools`
unfoldable pub list_tools : Snapshot → List ToolDefinition
list_tools s = values s.tools

-- The calls that change the register.
pub data RegisterCall : Type 0 where
  registers : Registration → RegisterCall
  unregisters : String → RegisterCall
  replaces_source : String → List Registration → RegisterCall

-- The register after a call; a call that raises leaves the snapshot as it is.
unfoldable pub kept : Snapshot → Result Snapshot → Snapshot
kept s (ok s') = s'
kept s (err e) = s

unfoldable pub step : RegisterCall → Snapshot → Snapshot
unfolding register unregister replace_source kept
step (registers r) s = kept s (register s r)
step (unregisters name) s = kept s (unregister s name)
step (replaces_source source rs) s = kept s (replace_source s source rs)

unfoldable pub run : List RegisterCall → Snapshot → Snapshot
unfolding step
run [] s = s
run (c ∷ cs) s = run cs (step c s)

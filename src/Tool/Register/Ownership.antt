-- ===== src/Tool/Register/Ownership.antt =====
-- Who may change a tool that a source manages.
use evernight_ai.Prelude.{
  String, ◌≡◌, refl, ◌∙◌, inl, inr, Bool, true, false, none, some, List, [], ◌∷◌, arith, eq_iff,
  ◌==◌, nat_eq, string_eq, option_eq, pair_eq, is_some, length, All, ok, Result-cases,
}
use mathlib.Core.Path.{subst}
use evernight_ai.Dict.{lookup, contains}
use evernight_ai.Dict.Laws.{lookup-insert, lookup-erase}
use evernight_ai.Tool.Register.{
  Registration, Snapshot, put, remove, names, conflicts, replace_source, register, unregister, kept,
  RegisterCall, registers, unregisters, replaces_source, step, run,
}
use evernight_ai.Tool.Register.Sources.{
  lookup-set_preflight, last_named, ReplacedAt, replace_source_exact,
}
use evernight_ai.Tool.Register.Consistency.{IsConsistent, step-IsConsistent}

-- The same tool, executor and source under a name.
abbrev pub SameTool : Snapshot → Snapshot → String → Type 0
SameTool s s' k =
    (lookup k s'.tools ≡ lookup k s.tools)
    × (lookup k s'.executors ≡ lookup k s.executors)
    × (lookup k s'.preflight_policies ≡ lookup k s.preflight_policies)
    × (lookup k s'.source_owners ≡ lookup k s.source_owners)

-- The call is the source's own.
abbrev pub by_source : String → RegisterCall → Bool
by_source source (registers r) = false
by_source source (unregisters name) = false
by_source source (replaces_source x rs) = x == source

unnamed :
    (s : Snapshot) (x k : String) (rs : List Registration)
    → is_some (lookup k s.tools) ≡ true
    → (lookup k s.source_owners == some x) ≡ false
    → length (conflicts s x (names rs)) ≡ 0
    → last_named k rs ≡ none
unfolding conflicts names contains
unnamed s x k [] t o h = refl
unnamed s x k (r ∷ rs) t o h = ground (arith, t, o, h, eq_iff r.tool.name k, unnamed s x k rs t o)

replace_source-SameTool :
    (s s' : Snapshot) (x source k : String) (rs : List Registration)
    → IsConsistent s
    → lookup k s.source_owners ≡ some source
    → (x == source) ≡ false
    → replace_source s x rs ≡ ok s'
    → SameTool s s' k
replace_source-SameTool s s' x source k rs i o n h =
    let (a, b, c, d) = i.consistent_at k in
    let owner : (lookup k s.source_owners == some x) ≡ false =
      ground (arith, o, n, eq_iff x source, eq_iff source x) in
    let there : is_some (lookup k s.tools) ≡ true = ground (arith, c, o) in
    let none_named : last_named k rs ≡ none =
      unnamed s x k rs there owner (unfold replace_source in ground (arith, h)) in
    let (e, f, g, j) =
      subst (λ r. ReplacedAt s x r s' k) none_named
        (replace_source_exact s s' x rs i.unique_owners h k) in
    ground (arith, owner, e, f, g, j)

register-SameTool :
    (s : Snapshot) (r : Registration) (source k : String)
    → lookup k s.source_owners ≡ some source
    → SameTool s (kept s (register s r)) k
unfolding register put kept
register-SameTool s r source k o =
    let n = r.tool.name in
    ground (
      arith,
      o,
      eq_iff n k,
      lookup-insert n k r.tool s.tools,
      lookup-insert n k r.executor s.executors,
      lookup-set_preflight n k r.preflight_policy s.preflight_policies,
    )

unregister-SameTool :
    (s : Snapshot) (name source k : String)
    → lookup k s.source_owners ≡ some source
    → SameTool s (kept s (unregister s name)) k
unfolding unregister remove kept
unregister-SameTool s name source k o = ground (
  arith,
  o,
  eq_iff name k,
  lookup-erase name k s.tools,
  lookup-erase name k s.executors,
  lookup-erase name k s.preflight_policies,
)

-- A tool that a source manages is only changed by that source: every other call leaves the tool, its
-- executor, its preflight policy and its source as they are.
pub step-SameTool :
    (c : RegisterCall) (s : Snapshot) (source k : String)
    → IsConsistent s
    → lookup k s.source_owners ≡ some source
    → by_source source c ≡ false
    → SameTool s (step c s) k
unfolding step kept
step-SameTool (registers r) s source k i o n = register-SameTool s r source k o
step-SameTool (unregisters name) s source k i o n = unregister-SameTool s name source k o
step-SameTool (replaces_source x rs) s source k i o n =
    elim (Result-cases (replace_source s x rs)) [
      | inl (s', e) ↦ rw e (replace_source-SameTool s s' x source k rs i o n e)
      | inr (y, e) ↦ rw e (refl, refl, refl, refl)
    ]

-- From a consistent register, any calls that are not `replace_source` for the source that manages
-- a tool leave the tool, its executor, its preflight policy and its source as they are.
pub run-SameTool :
    (cs : List RegisterCall) (s : Snapshot) (source k : String)
    → IsConsistent s
    → lookup k s.source_owners ≡ some source
    → All (λ c. by_source source c ≡ false) cs
    → SameTool s (run cs s) k
unfolding run
run-SameTool [] s source k i o n = (refl, refl, refl, refl)
run-SameTool (c ∷ cs) s source k i o n =
    let (a, b, d, e) = step-SameTool c s source k i o n.0 in
    let (a', b', d', e') =
      run-SameTool cs (step c s) source k (step-IsConsistent c s i) (e ∙ o) n.1 in
    (a' ∙ a, b' ∙ b, d' ∙ d, e' ∙ e)

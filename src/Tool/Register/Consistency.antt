-- ===== src/Tool/Register/Consistency.antt =====
-- The invariant of the register, and who may change a tool that a source manages.
use evernight_ai.Prelude.{
  String, ◌≡◌, refl, inl, inr, Bool, true, false, Option, none, some, List, [], ◌∷◌, arith, eq_iff,
  ◌==◌, nat_eq, string_eq, option_eq, pair_eq, is_some, ok, Result-cases,
}
use mathlib.Core.Path.{subst}
use evernight_ai.Dict.{lookup}
use evernight_ai.Dict.Laws.{
  lookup-insert, lookup-erase, UniqueKeys, insert-UniqueKeys, erase-UniqueKeys,
}
use evernight_ai.Tool.{ToolDefinition}
use evernight_ai.Tool.Register.{
  Registration, Snapshot, put, remove, remove_all, put_all, owned_names, replace_source, register,
  unregister, RegisterCall, registers, unregisters, replaces_source, step, run, empty_snapshot,
}
use evernight_ai.Tool.Register.Sources.{
  lookup-set_preflight, last_named, ReplacedAt, replace_source_exact,
}

-- A tool, if there is one, has the name.
abbrev pub is_named : String → Option ToolDefinition → Bool
is_named k none = true
is_named k (some t) = t.name == k

-- What holds of one name: a tool has an executor and conversely, only tools have a preflight policy
-- or a source, and a tool is stored under its own name.
abbrev pub ConsistentAt : Snapshot → String → Type 0
ConsistentAt s k =
    (is_some (lookup k s.executors) ≡ is_some (lookup k s.tools))
    × (is_some (lookup k s.preflight_policies) ≡ true → is_some (lookup k s.tools) ≡ true)
    × (is_some (lookup k s.source_owners) ≡ true → is_some (lookup k s.tools) ≡ true)
    × (is_named k (lookup k s.tools) ≡ true)

pub record IsConsistent (s : Snapshot) : Type 0 where
  pub unique_owners : UniqueKeys s.source_owners
  pub consistent_at : (k : String) → ConsistentAt s k

pub empty-IsConsistent : IsConsistent empty_snapshot
empty-IsConsistent = record {
  unique_owners = tt;
  consistent_at = unfold lookup in λ k. (refl, (λ h. cc), (λ h. cc), refl);
}

last_named_name :
    (k : String) (rs : List Registration)
    → is_named k (elim (last_named k rs) [ none ↦ none | some q ↦ some q.tool ]) ≡ true
last_named_name k [] = refl
last_named_name k (q ∷ rs) = ground (arith, last_named_name k rs, eq_iff q.tool.name k)

put_at :
    (r : Registration) (s : Snapshot) (k : String) → ConsistentAt s k → ConsistentAt (put r s) k
unfolding put
put_at r s k (a, b, c, d) =
    let n = r.tool.name in
    ground (
      arith,
      a,
      b,
      c,
      d,
      lookup-insert n k r.tool s.tools,
      lookup-insert n k r.executor s.executors,
      lookup-set_preflight n k r.preflight_policy s.preflight_policies,
    )

remove_at :
    (n : String) (s : Snapshot) (k : String)
    → is_some (lookup n s.source_owners) ≡ false
    → ConsistentAt s k
    → ConsistentAt (remove n s) k
unfolding remove
remove_at n s k h (a, b, c, d) = ground (
  arith,
  a,
  b,
  c,
  d,
  h,
  lookup-erase n k s.tools,
  lookup-erase n k s.executors,
  lookup-erase n k s.preflight_policies,
  eq_iff n k,
)

replaced_at :
    (s s' : Snapshot) (source k : String) (r : Option Registration)
    → is_named k (elim r [ none ↦ none | some q ↦ some q.tool ]) ≡ true
    → ReplacedAt s source r s' k
    → ConsistentAt s k
    → ConsistentAt s' k
replaced_at s s' source k none n (e, f, g, i) (a, b, c, d) = ground (arith, a, b, c, d, e, f, g, i)
replaced_at s s' source k (some r) n (e, f, g, i) (a, b, c, d) = ground (arith, n, e, f, g, i)

remove_all-UniqueKeys :
    (ns : List String) (s : Snapshot)
    → UniqueKeys s.source_owners
    → UniqueKeys (remove_all ns s).source_owners
unfolding remove_all remove
remove_all-UniqueKeys [] s h = h
remove_all-UniqueKeys (n ∷ ns) s h =
    remove_all-UniqueKeys ns _ (erase-UniqueKeys n s.source_owners h)

put_all-UniqueKeys :
    (source : String) (rs : List Registration) (s : Snapshot)
    → UniqueKeys s.source_owners
    → UniqueKeys (put_all source rs s).source_owners
unfolding put_all put
put_all-UniqueKeys source [] s h = h
put_all-UniqueKeys source (r ∷ rs) s h =
    put_all-UniqueKeys source rs _ (insert-UniqueKeys r.tool.name source s.source_owners h)

register-IsConsistent :
    (s s' : Snapshot) (r : Registration) → register s r ≡ ok s' → IsConsistent s → IsConsistent s'
unfolding register
register-IsConsistent s s' r h i =
    let e : put r s ≡ s' = ground arith in
    subst IsConsistent e (record {
      unique_owners = unfold put in i.unique_owners;
      consistent_at = λ k. put_at r s k (i.consistent_at k);
    })

unregister-IsConsistent :
    (s s' : Snapshot) (name : String) → unregister s name ≡ ok s' → IsConsistent s → IsConsistent s'
unfolding unregister
unregister-IsConsistent s s' name h i =
    let e : remove name s ≡ s' = ground arith in
    let free : is_some (lookup name s.source_owners) ≡ false = ground arith in
    subst IsConsistent e (record {
      unique_owners = unfold remove in i.unique_owners;
      consistent_at = λ k. remove_at name s k free (i.consistent_at k);
    })

replace_source-IsConsistent :
    (s s' : Snapshot) (source : String) (rs : List Registration)
    → replace_source s source rs ≡ ok s'
    → IsConsistent s
    → IsConsistent s'
replace_source-IsConsistent s s' source rs h i =
    let mid = remove_all (owned_names source s.source_owners) s in
    let e : put_all source rs mid ≡ s' = unfold replace_source in ground arith in
    record {
      unique_owners =
          subst (λ (t : Snapshot). UniqueKeys t.source_owners) e
            (put_all-UniqueKeys source rs mid (remove_all-UniqueKeys _ s i.unique_owners));
      consistent_at = λ k.
          replaced_at s s' source k (last_named k rs) (last_named_name k rs)
            (replace_source_exact s s' source rs i.unique_owners h k) (i.consistent_at k);
    }

-- Every call keeps the register consistent: a tool has an executor and conversely, only tools have
-- a preflight policy or a source, a tool is stored under its own name, and no name has two sources.
pub step-IsConsistent : (c : RegisterCall) (s : Snapshot) → IsConsistent s → IsConsistent (step c s)
unfolding step
step-IsConsistent (registers r) s i = elim (Result-cases (register s r)) [
  | inl (s', e) ↦ rw e (register-IsConsistent s s' r e i)
  | inr (x, e) ↦ rw e i
]
step-IsConsistent (unregisters name) s i = elim (Result-cases (unregister s name)) [
  | inl (s', e) ↦ rw e (unregister-IsConsistent s s' name e i)
  | inr (x, e) ↦ rw e i
]
step-IsConsistent (replaces_source source rs) s i =
    elim (Result-cases (replace_source s source rs)) [
      | inl (s', e) ↦ rw e (replace_source-IsConsistent s s' source rs e i)
      | inr (x, e) ↦ rw e i
    ]

pub run-IsConsistent :
    (cs : List RegisterCall) (s : Snapshot) → IsConsistent s → IsConsistent (run cs s)
unfolding run
run-IsConsistent [] s i = i
run-IsConsistent (c ∷ cs) s i = run-IsConsistent cs (step c s) (step-IsConsistent c s i)

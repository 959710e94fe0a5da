-- ===== src/Tool/Register/Sources.antt =====
-- What `replace_source` does to every name.
use evernight_ai.Prelude.{
  String, ◌≡◌, refl, ap, ◌∙◌, false, Option, none, some, List, [], ◌∷◌, arith, eq_iff,
  if◌then◌else◌, ◌==◌, nat_eq, string_eq, option_eq, pair_eq, any, ok,
}
use mathlib.Core.Path.{subst}
use evernight_ai.Dict.{Dict, lookup, insert, erase}
use evernight_ai.Dict.Laws.{lookup-insert, lookup-erase, UniqueKeys}
use evernight_ai.Tool.Register.{
  PreflightPolicy, Registration, Snapshot, set_preflight, put, remove, remove_all, put_all,
  owned_names, replace_source,
}

-- The registration that counts for a name: the last one.
abbrev pub last_named : String → List Registration → Option Registration
last_named k [] = none
last_named k (r ∷ rs) = elim (last_named k rs) [
  | some q ↦ some q
  | none ↦ if r.tool.name == k then some r else none
]

-- A field of the registration, or what there was before.
abbrev pub override {ℓ} :
    {A : Type ℓ} → (Registration → Option A) → Option Registration → Option A → Option A
override f none old = old
override f (some r) old = f r

-- What is left of a dictionary without the names that a source manages.
abbrev pub without_source {ℓ} : {A : Type ℓ} → Snapshot → String → Dict String A → String → Option A
without_source s source d k = if lookup k s.source_owners == some source then none else lookup k d

abbrev pub PutAt : String → Option Registration → Snapshot → Snapshot → String → Type 0
PutAt source o s s' k =
    (lookup k s'.tools ≡ override (λ r. some r.tool) o (lookup k s.tools))
    × (lookup k s'.executors ≡ override (λ r. some r.executor) o (lookup k s.executors))
    × (lookup k s'.preflight_policies
        ≡ override (λ r. r.preflight_policy) o (lookup k s.preflight_policies))
    × (lookup k s'.source_owners ≡ override (λ r. some source) o (lookup k s.source_owners))

pub lookup-set_preflight :
    (n k : String) (p : Option PreflightPolicy) (d : Dict String PreflightPolicy)
    → lookup k (set_preflight n p d) ≡ (if n == k then p else lookup k d)
unfolding set_preflight
lookup-set_preflight n k none d = lookup-erase n k d
lookup-set_preflight n k (some p) d = lookup-insert n k p d

put_all_at :
    (source : String) (rs : List Registration) (s : Snapshot) (k : String)
    → PutAt source (last_named k rs) s (put_all source rs s) k
unfolding put_all put
put_all_at source [] s k = (refl, refl, refl, refl)
put_all_at source (r ∷ rs) s k =
    let n = r.tool.name in
    let next = record (put r s) { source_owners = insert n source s.source_owners } in
    let (a, b, c, d) = put_all_at source rs next k in
    ground (
      arith,
      a,
      b,
      c,
      d,
      lookup-insert n k r.tool s.tools,
      lookup-insert n k r.executor s.executors,
      lookup-set_preflight n k r.preflight_policy s.preflight_policies,
      lookup-insert n k source s.source_owners,
    )

-- Of every dictionary, the entries outside a list of names are left.
abbrev pub RemovedAt : List String → Snapshot → Snapshot → String → Type 0
RemovedAt ns s s' k =
    let gone = any (λ n. n == k) ns in
    (lookup k s'.tools ≡ (if gone then none else lookup k s.tools))
    × (lookup k s'.executors ≡ (if gone then none else lookup k s.executors))
    × (lookup k s'.preflight_policies ≡ (if gone then none else lookup k s.preflight_policies))
    × (lookup k s'.source_owners ≡ (if gone then none else lookup k s.source_owners))

remove_all_at : (ns : List String) (s : Snapshot) (k : String) → RemovedAt ns s (remove_all ns s) k
unfolding remove_all remove
remove_all_at [] s k = (refl, refl, refl, refl)
remove_all_at (n ∷ ns) s k =
    let next = record (remove n s) { source_owners = erase n s.source_owners } in
    let (a, b, c, d) = remove_all_at ns next k in
    ground (
      arith,
      a,
      b,
      c,
      d,
      lookup-erase n k s.tools,
      lookup-erase n k s.executors,
      lookup-erase n k s.preflight_policies,
      lookup-erase n k s.source_owners,
    )

not_owned :
    (source k : String) (d : Dict String String)
    → lookup k d ≡ none
    → any (λ n. n == k) (owned_names source d) ≡ false
unfolding owned_names lookup
not_owned source k [] h = refl
not_owned source k ((n, owner) ∷ d) h = ground (arith, not_owned source k d)

any-owned_names :
    (source k : String) (d : Dict String String)
    → UniqueKeys d
    → any (λ n. n == k) (owned_names source d) ≡ (lookup k d == some source)
unfolding owned_names lookup
any-owned_names source k [] h = refl
any-owned_names source k ((n, owner) ∷ d) h =
    ground (arith, h.0, any-owned_names source k d h.1, not_owned source k d, eq_iff n k)

-- What `replace_source` leaves for a name, if the last registration of it is `r`.
abbrev pub ReplacedAt : Snapshot → String → Option Registration → Snapshot → String → Type 0
ReplacedAt s source r s' k =
    (lookup k s'.tools ≡ override (λ r. some r.tool) r (without_source s source s.tools k))
    × (lookup k s'.executors
        ≡ override (λ r. some r.executor) r (without_source s source s.executors k))
    × (lookup k s'.preflight_policies
        ≡ override (λ r. r.preflight_policy) r (without_source s source s.preflight_policies k))
    × (lookup k s'.source_owners
        ≡ override (λ r. some source) r (without_source s source s.source_owners k))

-- Where no name has two sources, the four dictionaries hold for every name, once the tools of a
-- source are replaced: what the last registration of that name brings; for a name without one,
-- nothing if the source managed it, and what there was before otherwise.
pub replace_source_exact :
    (s s' : Snapshot) (source : String) (rs : List Registration)
    → UniqueKeys s.source_owners
    → replace_source s source rs ≡ ok s'
    → (k : String) → ReplacedAt s source (last_named k rs) s' k
unfolding replace_source
replace_source_exact s s' source rs u h k =
    let ns = owned_names source s.source_owners in
    let mid = remove_all ns s in
    let e : put_all source rs mid ≡ s' = ground arith in
    let (a, b, c, d) = put_all_at source rs mid k in
    let (a', b', c', d') = remove_all_at ns s k in
    let owned = any-owned_names source k s.source_owners u in
    let r = last_named k rs in
    subst (λ (t : Snapshot). ReplacedAt s source r t k) e
      (
        a
            ∙ ap (override (λ r. some r.tool) r)
                (a' ∙ ap (λ b. if b then none else lookup k s.tools) owned),
        b
            ∙ ap (override (λ r. some r.executor) r)
                (b' ∙ ap (λ b. if b then none else lookup k s.executors) owned),
        c
            ∙ ap (override (λ r. r.preflight_policy) r)
                (c' ∙ ap (λ b. if b then none else lookup k s.preflight_policies) owned),
        d
            ∙ ap (override (λ r. some source) r)
                (d' ∙ ap (λ b. if b then none else lookup k s.source_owners) owned),
      )

-- ===== src/Agent/Recovery/Settled.antt =====
-- After a recovery no run is left behind as running.
use evernight_ai.Prelude.{
  ℕ, String, ◌≡◌, refl, sym, ap, inl, inr, true, false, not, ◌&&◌, none, some, List, [], ◌∷◌, arith,
  eq_iff, ◌==◌, nat_eq, string_eq, option_eq, pair_eq, Bool-cases, Option-cases, All, Result, ok,
  err, >>=-eq-ok, ok-injective, sorted_by-All,
}
use mathlib.Core.Path.{subst}
use evernight_ai.Dict.{lookup}
use evernight_ai.Agent.{AgentRunState, run_status_eq}
use evernight_ai.Auth.{scope_permits}
use evernight_ai.Agent.Runs.{
  Runs, RunRow, row_of, lease_of, get_execution_lease, query_states, dated, by_run_id,
  select_states,
}
use evernight_ai.Agent.Recovery.{
  Stores, running_filter, is_protected, recover_run, recover_one, recover_all,
  recover_interrupted_agent_runs, recover_unless,
}
use evernight_ai.Agent.Recovery.Rows.{
  is_running, IsFiled, kept_row, filed_id, Others, recover_run-Others,
}

-- The state is not the run's, or its run was passed over.
Spared : ℕ → ℕ → String → RunRow → AgentRunState → Type 0
Spared now grace k r s = ((s.run_id == k) && not (is_protected (lease_of r) now grace s)) ≡ false

protected-Spared :
    (now grace : ℕ) (s : AgentRunState) (k : String) (runs : Runs) (q r : RunRow)
    → lookup s.run_id runs ≡ some q
    → lookup k runs ≡ some r
    → is_protected (lease_of q) now grace s ≡ true
    → Spared now grace k r s
unfolding Spared
protected-Spared now grace s k runs q r e here safe = elim (Bool-cases (s.run_id == k)) [
  | inl same ↦
      let id : s.run_id ≡ k = (eq_iff s.run_id k).0 same in
      let row : q ≡ r = ground (arith, e, here, id) in rw (same, sym row, safe) refl
  | inr other ↦ rw other refl
]

recover_unless_exposed :
    (stores next : Stores) (recovered : Result Stores) (n : ℕ)
    → recover_unless false stores recovered ≡ ok (next, n)
    → recovered ≡ ok next
unfolding recover_unless
recover_unless_exposed stores next (err x) n h = ground (arith, h)
recover_unless_exposed stores next (ok t) n h = ground (arith, h)

recover_unless-Spared :
    (stores next : Stores) (now grace n : ℕ) (s : AgentRunState) (q : RunRow) (k : String)
    (r : RunRow)
    → lookup s.run_id stores.runs ≡ some q
    → recover_unless
        (is_protected (lease_of q) now grace s)
        stores
        (recover_run stores s (lease_of q) now)
      ≡ ok (next, n)
    → lookup k next.runs ≡ some r
    → is_running r.payload ≡ true
    → (lookup k stores.runs ≡ some r) × Spared now grace k r s
unfolding recover_unless Spared Others
recover_unless-Spared stores next now grace n s q k r e h found alive =
    elim (Bool-cases (is_protected (lease_of q) now grace s)) [
      | inl safe ↦
          let kept : recover_unless true stores (recover_run stores s (lease_of q) now)
              ≡ ok (next, n) =
            subst
              (λ t. recover_unless t stores (recover_run stores s (lease_of q) now) ≡ ok (next, n))
              safe h in
          let same : next ≡ stores = ap (λ p. p.0) (ok-injective (sym kept)) in
          let here : lookup k stores.runs ≡ some r =
            subst (λ t. lookup k t.runs ≡ some r) same found in
          (here, protected-Spared now grace s k stores.runs q r e here safe)
      | inr exposed ↦
          let recovered : recover_run stores s (lease_of q) now ≡ ok next =
            recover_unless_exposed stores next _ n (
              subst
                (λ t.
                  recover_unless t stores (recover_run stores s (lease_of q) now) ≡ ok (next, n))
                exposed h) in
          let (before, other) =
            recover_run-Others stores next s (lease_of q) now recovered k r found alive in
          (before, rw other refl)
    ]

recover_one-Spared :
    (stores next : Stores) (now grace n : ℕ) (s : AgentRunState) (k : String) (r : RunRow)
    → recover_one stores now grace s ≡ ok (next, n)
    → lookup k next.runs ≡ some r
    → is_running r.payload ≡ true
    → (lookup k stores.runs ≡ some r) × Spared now grace k r s
unfolding recover_one get_execution_lease row_of scope_permits
recover_one-Spared stores next now grace n s k r h found alive =
    let (lease, read, rest) = >>=-eq-ok (get_execution_lease stores.runs s.run_id none) _ h in
    elim (Option-cases (lookup s.run_id stores.runs)) [
      | inl e ↦ ground (arith, read, e)
      | inr (q, e) ↦
          let same : lease ≡ lease_of q = ground (arith, read, e) in
          recover_unless-Spared stores next now grace n s q k r e
            (subst
              (λ t.
                recover_unless (is_protected t now grace s) stores (recover_run stores s t now)
                ≡ ok (next, n))
              same rest)
            found alive
    ]

-- What is running after the loop was so before, and no state of the loop is exposed.
recover_all-Spared :
    (stores last : Stores) (now grace n : ℕ) (states : List AgentRunState) (k : String) (r : RunRow)
    → recover_all stores now grace states ≡ ok (last, n)
    → lookup k last.runs ≡ some r
    → is_running r.payload ≡ true
    → (lookup k stores.runs ≡ some r) × All (Spared now grace k r) states
unfolding recover_all
recover_all-Spared stores last now grace n [] k r h found alive =
    let same : last ≡ stores = ap (λ p. p.0) (ok-injective (sym h)) in
    (subst (λ t. lookup k t.runs ≡ some r) same found, tt)
recover_all-Spared stores last now grace n (s ∷ states) k r h found alive =
    let ((next, m), one, rest) = >>=-eq-ok (recover_one stores now grace s) _ h in
    let ((final, more), all_rest, e) = >>=-eq-ok (recover_all next now grace states) _ rest in
    let same : last ≡ final = ap (λ p. p.0) (ok-injective (sym e)) in
    let (between, spared) =
      recover_all-Spared next final now grace more states k r all_rest
        (subst (λ t. lookup k t.runs ≡ some r) same found) alive in
    let (before, first) = recover_one-Spared stores next now grace m s k r one between alive in
    (before, (first, spared))

queried :
    (Q : AgentRunState → Type 0) (runs : Runs) (k : String) (r : RunRow)
    → All Q (query_states runs running_filter none)
    → lookup k runs ≡ some r
    → is_running r.payload ≡ true
    → Q (dated r)
unfolding query_states select_states dated
queried Q runs k r h found alive =
    kept_row Q _ runs k r (sorted_by-All Q by_run_id _ h) found (rw alive refl)

-- Where every run is stored under its own id, a run that is still running after a recovery was not
-- touched by it: its row is as before, and it is protected by a lease that has not expired or,
-- without a lease, by having started less than the grace period ago.
pub recover_interrupted_agent_runs_settles :
    (stores last : Stores) (now grace n : ℕ) (k : String) (r : RunRow)
    → IsFiled stores.runs
    → recover_interrupted_agent_runs stores now grace ≡ ok (last, n)
    → lookup k last.runs ≡ some r
    → is_running r.payload ≡ true
    → (lookup k stores.runs ≡ some r) × (is_protected (lease_of r) now grace (dated r) ≡ true)
unfolding recover_interrupted_agent_runs Spared dated
recover_interrupted_agent_runs_settles stores last now grace n k r filed h found alive =
    let (before, spared) =
      recover_all-Spared stores last now grace n (query_states stores.runs running_filter none) k r
        h found alive in
    let mine = queried (Spared now grace k r) stores.runs k r spared before alive in
    (before, ground (arith, mine, filed_id stores.runs k r filed before, eq_iff r.payload.run_id k))

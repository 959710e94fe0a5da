-- ===== src/Agent/Lifecycle/Paused.antt =====
-- A shutdown leaves no run behind as running.
use evernight_ai.Prelude.{
  ℕ, String, ◌≡◌, refl, sym, ap, ◌∙◌, inl, inr, Bool, true, false, ◌&&◌, Option, none, some, List,
  [], ◌∷◌, arith, eq_iff, ◌==◌, nat_eq, string_eq, option_eq, pair_eq, Bool-cases, All, ok,
  >>=-eq-ok, ok-injective, sorted_by-All,
}
use mathlib.Core.Path.{subst}
use evernight_ai.Dict.{lookup}
use evernight_ai.Auth.{scope_permits}
use evernight_ai.Agent.{AgentRunState, AgentRunStatus-discrete}
use evernight_ai.Agent.Checkpoint.{Checkpoint, inspect_agent_run_checkpoint}
use evernight_ai.Agent.Runs.{
  Runs, RunRow, save_state, save_free, query_states, select_states, dated, by_run_id,
}
use evernight_ai.Agent.Events.{Traces}
use evernight_ai.Agent.Recovery.{reconcile, paused_state}
use evernight_ai.Agent.Recovery.Rows.{
  is_running, IsFiled, kept_row, filed_id, Others, save_free-Others, inspect_run_id,
}
use evernight_ai.Agent.Lifecycle.{
  Registers, every_run, settle_shutdown, traced_events, pause_run, pause_if, pause_all,
  pause_running_states,
}

settle_shutdown_stops :
    (traces : Option Traces) (state : AgentRunState) (c : Checkpoint)
    → is_running (settle_shutdown traces state c).1 ≡ false
unfolding settle_shutdown paused_state AgentRunStatus-discrete
settle_shutdown_stops traces state c = elim (Bool-cases (is_running state)) [
  | inl e ↦ rw (settle_shutdown, e) refl
  | inr e ↦ rw (settle_shutdown, e) e
]

settle_shutdown_run_id :
    (traces : Option Traces) (state : AgentRunState) (c : Checkpoint)
    → (settle_shutdown traces state c).1.run_id ≡ state.run_id
unfolding settle_shutdown paused_state
settle_shutdown_run_id traces state c = elim (Bool-cases (is_running state)) [
  | inl e ↦ rw (settle_shutdown, e) refl
  | inr e ↦ rw (settle_shutdown, e) refl
]

pause_run-Others :
    (registers next : Registers) (s : AgentRunState) (now : ℕ)
    → pause_run registers s now ≡ ok next
    → Others s.run_id registers.runs next.runs
unfolding pause_run save_state scope_permits
pause_run-Others registers next s now h =
    let (p, reconciled, judged) = >>=-eq-ok (reconcile registers.attempts s.run_id) _ h in
    let events = traced_events registers.traces s in
    let i = inspect_agent_run_checkpoint s (some events) p.1 in
    let (c, inspected, wrote) = >>=-eq-ok i.1 _ judged in
    let q = settle_shutdown registers.traces i.0 c in
    let id : q.1.run_id ≡ s.run_id =
      settle_shutdown_run_id registers.traces i.0 c ∙ inspect_run_id s (some events) p.1 in
    let same : save_free registers.runs q.1 now ≡ next.runs =
      ap (λ t. t.runs) (ok-injective wrote) in
    subst (λ t. Others s.run_id registers.runs t) same
      (subst (λ k. Others k registers.runs (save_free registers.runs q.1 now)) id
        (save_free-Others registers.runs q.1 now (settle_shutdown_stops registers.traces i.0 c)))

-- The state is not the run's, or was not running.
Passed : String → AgentRunState → Type 0
Passed k s = ((s.run_id == k) && is_running s) ≡ false

pause_if-Passed :
    (b : Bool) (registers next : Registers) (s : AgentRunState) (now : ℕ) (k : String) (r : RunRow)
    → pause_if b registers (pause_run registers s now) ≡ ok next
    → lookup k next.runs ≡ some r
    → is_running r.payload ≡ true
    → (lookup k registers.runs ≡ some r) × ((s.run_id == k) && b ≡ false)
unfolding pause_if Others
pause_if-Passed true registers next s now k r h found alive =
    let (before, other) = pause_run-Others registers next s now h k r found alive in
    (before, rw other refl)
pause_if-Passed false registers next s now k r h found alive =
    (subst (λ t. lookup k t.runs ≡ some r) (ok-injective (sym h)) found, ground arith)

pause_all-Passed :
    (registers last : Registers) (now : ℕ) (states : List AgentRunState) (k : String) (r : RunRow)
    → pause_all registers now states ≡ ok last
    → lookup k last.runs ≡ some r
    → is_running r.payload ≡ true
    → (lookup k registers.runs ≡ some r) × All (Passed k) states
unfolding pause_all Passed
pause_all-Passed registers last now [] k r h found alive =
    (subst (λ t. lookup k t.runs ≡ some r) (ok-injective (sym h)) found, tt)
pause_all-Passed registers last now (s ∷ states) k r h found alive =
    let (next, one, rest) =
      >>=-eq-ok (pause_if (is_running s) registers (pause_run registers s now)) _ h in
    let (between, passed) = pause_all-Passed next last now states k r rest found alive in
    let (before, first) =
      pause_if-Passed (is_running s) registers next s now k r one between alive in
    (before, (first, passed))

queried :
    (Q : AgentRunState → Type 0) (runs : Runs) (k : String) (r : RunRow)
    → All Q (query_states runs every_run none)
    → lookup k runs ≡ some r
    → Q (dated r)
unfolding query_states select_states dated
queried Q runs k r h found =
    kept_row Q (λ s. true) runs k r (sorted_by-All Q by_run_id _ h) found refl

-- Where every run is stored under its own id, no stored run is running after the shutdown has
-- paused the running ones, whoever holds its lease.
pub pause_running_states_settles :
    (registers last : Registers) (now : ℕ) (k : String) (r : RunRow)
    → IsFiled registers.runs
    → pause_running_states registers now ≡ ok last
    → lookup k last.runs ≡ some r
    → is_running r.payload ≡ false
unfolding pause_running_states Passed dated
pause_running_states_settles registers last now k r filed h found =
    elim (Bool-cases (is_running r.payload)) [
      | inl alive ↦
          let (before, passed) =
            pause_all-Passed registers last now (query_states registers.runs every_run none) k r h
              found alive in
          let mine = queried (Passed k) registers.runs k r passed before in
          ground (
            arith,
            mine,
            alive,
            filed_id registers.runs k r filed before,
            eq_iff r.payload.run_id k,
          )
      | inr dead ↦ dead
    ]

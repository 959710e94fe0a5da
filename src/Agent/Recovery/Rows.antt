-- ===== src/Agent/Recovery/Rows.antt =====
-- What the recovery of one run does to the rows of the table.
use evernight_ai.Prelude.{
  ℕ, String, ◌≡◌, refl, ◌∙◌, inl, inr, Bool, true, false, Option, none, some, List, [], ◌∷◌, map,
  arith, eq_iff, if◌then◌else◌, ◌==◌, nat_eq, string_eq, option_eq, pair_eq, Bool-cases,
  Option-cases, is_some, or_else, keep, All, ok, >>=-eq-ok, Result-cases, ok-injective,
}
use mathlib.Core.Path.{subst}
use evernight_ai.Dict.{lookup, insert, values}
use evernight_ai.Dict.Laws.{lookup-insert}
use evernight_ai.Agent.{
  AgentRunState, AgentRunLease, AgentPauseCause, AgentTraceEvent, running, run_status_eq,
  AgentRunStatus-discrete,
}
use evernight_ai.Auth.{scope_permits}
use evernight_ai.Agent.Attempts.{Attempts}
use evernight_ai.Agent.Trace.{checkpoint_trace_tail}
use evernight_ai.Agent.Replay.{Restored-cases, restore_checkpoint_data, state_of, step_ids, finish}
use evernight_ai.Agent.Replay.Steps.{
  replay_induction, apply_event_run_id, at_sequence_run_id, noted_run_id,
}
use evernight_ai.Agent.Checkpoint.{Checkpoint, inspect_agent_run_checkpoint}
use evernight_ai.Agent.Runs.{
  Runs, RunRow, row_of, save_state, save_free, clear_execution_lease, with_payload, new_row,
  unleased, dated,
}
use evernight_ai.Agent.Events.{Traces, list_events}
use evernight_ai.Agent.Recovery.{
  Stores, settle, paused_state, recover_run, reconcile, write_back, cause_of,
}

abbrev pub is_running : AgentRunState → Bool
is_running s = s.status == running

-- The state that is saved is not running.
pub settle_stops :
    (traces : Traces) (state : AgentRunState) (cause : AgentPauseCause) (origin : String)
    (c : Checkpoint)
    → is_running (settle traces state cause origin c).1 ≡ false
unfolding settle paused_state AgentRunStatus-discrete
settle_stops traces state cause origin c = elim (Bool-cases (is_running state)) [
  | inl e ↦ rw (settle, e) refl
  | inr e ↦ rw (settle, e) e
]

restore_run_id :
    (state : AgentRunState) (events : List AgentTraceEvent)
    → (state_of (restore_checkpoint_data state events)).run_id ≡ state.run_id
unfolding restore_checkpoint_data
restore_run_id state events = elim (Result-cases (checkpoint_trace_tail state events)) [
  | inl (tail, p) ↦
      rw (restore_checkpoint_data, p)
        (replay_induction (λ s ids. s.run_id ≡ state.run_id) (λ s. s.run_id ≡ state.run_id)
          (λ s ids e same. at_sequence_run_id e s ∙ same)
          (λ s ids e next same new q. noted_run_id e next ∙ (apply_event_run_id s next e q ∙ same))
          (λ s ids same. same) (λ s same. unfold finish in same) state (step_ids state.steps) tail
          refl)
  | inr (x, p) ↦ rw (restore_checkpoint_data, p) refl
]

pub inspect_run_id :
    (state : AgentRunState) (events : Option (List AgentTraceEvent)) (executions : Option Attempts)
    → (inspect_agent_run_checkpoint state events executions).0.run_id ≡ state.run_id
unfolding inspect_agent_run_checkpoint
inspect_run_id state events executions =
    let kept = restore_run_id state (or_else events state.trace) in
    elim (Restored-cases (restore_checkpoint_data state (or_else events state.trace))) [
      | inl (s, e) ↦
          rw (inspect_agent_run_checkpoint, e)
            (subst (λ u. (state_of u).run_id ≡ state.run_id) e kept)
      | inr (x, s, e) ↦
          rw (inspect_agent_run_checkpoint, e)
            (subst (λ u. (state_of u).run_id ≡ state.run_id) e kept)
    ]

settle_run_id :
    (traces : Traces) (state : AgentRunState) (cause : AgentPauseCause) (origin : String)
    (c : Checkpoint)
    → (settle traces state cause origin c).1.run_id ≡ state.run_id
unfolding settle paused_state
settle_run_id traces state cause origin c = elim (Bool-cases (is_running state)) [
  | inl e ↦ rw (settle, e) refl
  | inr e ↦ rw (settle, e) refl
]

-- The runs of the second table that are running have the same row in the first, and another id.
unfoldable pub Others : String → Runs → Runs → Type 0
Others j runs runs' =
    (k : String) (r : RunRow)
    → lookup k runs' ≡ some r
    → is_running r.payload ≡ true
    → (lookup k runs ≡ some r) × ((j == k) ≡ false)

insert-Others :
    (runs : Runs) (j : String) (q : RunRow)
    → is_running q.payload ≡ false
    → Others j runs (insert j q runs)
unfolding Others
insert-Others runs j q h k r found alive = ground (arith, h, found, alive, lookup-insert j k q runs)

pub save_free-Others :
    (runs : Runs) (state : AgentRunState) (now : ℕ)
    → is_running state ≡ false
    → Others state.run_id runs (save_free runs state now)
unfolding save_free
save_free-Others runs state now h = elim (Option-cases (lookup state.run_id runs)) [
  | inl p ↦ rw (save_free, p) (insert-Others runs state.run_id (new_row state now) h)
  | inr (r, p) ↦ rw (save_free, p) (insert-Others runs state.run_id (with_payload state r) h)
]

Others-self :
    (j : String) (a b : Runs) (r : RunRow)
    → Others j a b
    → lookup j b ≡ some r
    → is_running r.payload ≡ false
unfolding Others
Others-self j a b r h found = elim (Bool-cases (is_running r.payload)) [
  | inl alive ↦ ground (arith, (h j r found alive).1, eq_iff j j)
  | inr dead ↦ dead
]

Others-trans : (j : String) (a b c : Runs) → Others j a b → Others j b c → Others j a c
unfolding Others
Others-trans j a b c f g k r found alive =
    let (earlier, other) = g k r found alive in f k r earlier alive

-- Clearing the lease of the run that was saved.
clear-Others :
    (j : String) (a b c : Runs)
    → Others j a b
    → clear_execution_lease b j none ≡ ok c
    → Others j a c
unfolding clear_execution_lease row_of
clear-Others j a b c h cleared = elim (Option-cases (lookup j b)) [
  | inl e ↦ ground (arith, cleared, e)
  | inr (r, e) ↦
      let same : insert j (unleased r) b ≡ c = ground (arith, cleared, e) in
      subst (λ t. Others j a t) same
        (Others-trans j a b _ h (insert-Others b j (unleased r) (Others-self j a b r h e)))
]

clear_if-Others :
    (leased : Bool) (j : String) (a b c : Runs)
    → Others j a b
    → (if leased then clear_execution_lease b j none else ok b) ≡ ok c
    → Others j a c
clear_if-Others true j a b c h cleared = clear-Others j a b c h cleared
clear_if-Others false j a b c h cleared = subst (λ t. Others j a t) (ok-injective cleared) h

write_back-Others :
    (stores next : Stores) (attempts : Option Attempts) (leased : Bool) (now : ℕ) (traces : Traces)
    (state : AgentRunState)
    → is_running state ≡ false
    → write_back stores attempts state.run_id leased now (traces, state) ≡ ok next
    → Others state.run_id stores.runs next.runs
unfolding write_back save_state scope_permits
write_back-Others stores next attempts leased now traces state h wrote =
    let saved = save_free stores.runs state now in
    let (c, cleared, e) =
      >>=-eq-ok (if leased then clear_execution_lease saved state.run_id none else ok saved) _
        wrote in
    let same : c ≡ next.runs = ground (arith, e) in
    subst (λ t. Others state.run_id stores.runs t) same
      (clear_if-Others leased state.run_id stores.runs saved c
        (save_free-Others stores.runs state now h) cleared)

pub recover_run-Others :
    (stores next : Stores) (state : AgentRunState) (lease : Option AgentRunLease) (now : ℕ)
    → recover_run stores state lease now ≡ ok next
    → Others state.run_id stores.runs next.runs
unfolding recover_run
recover_run-Others stores next state lease now h =
    let ((attempts, executions), reconciled, judged) =
      >>=-eq-ok (reconcile stores.attempts state.run_id) _ h in
    let events = list_events stores.traces state.run_id 0 none in
    let p = inspect_agent_run_checkpoint state (some events) executions in
    let (c, inspected, wrote) = >>=-eq-ok p.1 _ judged in
    let q = settle stores.traces p.0 (cause_of lease) "startup_recovery" c in
    let id : q.1.run_id ≡ state.run_id =
      settle_run_id stores.traces p.0 (cause_of lease) "startup_recovery" c
      ∙ inspect_run_id state (some events) executions in
    subst (λ k. Others k stores.runs next.runs) id
      (write_back-Others stores next attempts (is_some lease) now q.0 q.1
        (settle_stops stores.traces p.0 (cause_of lease) "startup_recovery" c) (rw id wrote))

-- Every row is stored under the id of its run.
abbrev pub IsFiled : Runs → Type 0
IsFiled = All (λ (p : String × RunRow). p.1.payload.run_id ≡ p.0)

module _ (Q : AgentRunState → Type 0) (p : AgentRunState → Bool) where
  keep_head :
      (s : AgentRunState) (l : List AgentRunState) → All Q (keep p (s ∷ l)) → p s ≡ true → Q s
  keep_head s l h e = ground (arith, h, e)

  keep_rest :
      (s : AgentRunState) (l : List AgentRunState) → All Q (keep p (s ∷ l)) → All Q (keep p l)
  keep_rest s l h = elim (Bool-cases (p s)) [
    | inl e ↦ ground (arith, h, e)
    | inr e ↦ ground (arith, h, e)
  ]

  pub kept_row :
      (runs : Runs) (k : String) (r : RunRow)
      → All Q (keep p (map dated (values runs)))
      → lookup k runs ≡ some r
      → p (dated r) ≡ true
      → Q (dated r)
  unfolding lookup
  kept_row [] k r h found passes = ground arith
  kept_row ((j, q) ∷ runs) k r h found passes = elim (Bool-cases (j == k)) [
    | inl e ↦
        let same : q ≡ r = ground (arith, found, e) in
        subst (λ t. Q (dated t)) same
          (keep_head (dated q) (map dated (values runs)) h (rw same passes))
    | inr e ↦
        kept_row runs k r (keep_rest (dated q) (map dated (values runs)) h)
          (ground (arith, found, e)) passes
  ]

pub filed_id :
    (runs : Runs) (k : String) (r : RunRow)
    → IsFiled runs
    → lookup k runs ≡ some r
    → r.payload.run_id ≡ k
unfolding lookup
filed_id [] k r h found = ground arith
filed_id ((j, q) ∷ runs) k r h found = elim (Bool-cases (j == k)) [
  | inl e ↦ ground (arith, h.0, found, e, eq_iff j k)
  | inr e ↦ filed_id runs k r h.1 (ground (arith, found, e))
]

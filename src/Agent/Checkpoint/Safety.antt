-- ===== src/Agent/Checkpoint/Safety.antt =====
-- Which runs may go on from their checkpoint.
use evernight_ai.Prelude.{
  String, ◌≡◌, refl, ◌∙◌, ◌⊎◌, inl, inr, Bool, true, false, Option, some, List, [], ◌∷◌, map, arith,
  eq_iff, ◌==◌, nat_eq, string_eq, option_eq, pair_eq, Bool-cases, or_else, length, any, all,
  Result-cases, Result, ok, err, Error,
}
use mathlib.Core.Path.{subst}
use evernight_ai.Dict.{Dict, lookup}
use evernight_ai.Tool.{ToolCall, non_replayable}
use evernight_ai.Content.{tool_calls_of}
use evernight_ai.Agent.{
  AgentTraceEvent, AgentRunState, ToolExecutionAttempt, ChatResponse, started, unknown, retry,
  resolution_eq, ToolExecutionStatus-discrete,
}
use evernight_ai.Agent.State.{is_stopped, current_tool_round}
use evernight_ai.Agent.Attempts.{
  Attempts, latest_tool_execution_attempts, round_tool_execution_attempts, tool_call_can_resume,
  attempt_can_resume, replays,
}
use evernight_ai.Agent.Trace.{checkpoint_trace_tail}
use evernight_ai.Agent.Replay.{
  restore_checkpoint_data, Restored-cases, state_of, finish, at_sequence, step_ids,
}
use evernight_ai.Agent.Replay.Steps.{
  Settles, at_sequence_status, apply_event-Settles, noted_status, replay_induction,
}
use evernight_ai.Agent.Checkpoint.{
  Checkpoint, is_final, incomplete_tool_calls, approvals_pending, call_replays, all_replay, judge,
  inspect_calls, classify, on_error, inspect_agent_run_checkpoint,
}

abbrev pub has_id : String → ToolCall → Bool
has_id k c = c.tool_call_id == k

-- The latest attempt of the call in this round may have had its effect, and a second run of the
-- tool is not allowed.
abbrev pub IsUnsafe : ToolExecutionAttempt → Type 0
IsUnsafe a =
    ((a.status ≡ started) ⊎ (a.status ≡ unknown))
    × (a.replay_policy ≡ non_replayable)
    × ((a.resolution == some retry) ≡ false)

unsafe_never_resumes : (a : ToolExecutionAttempt) → IsUnsafe a → attempt_can_resume a ≡ false
unfolding attempt_can_resume replays ToolExecutionStatus-discrete
unsafe_never_resumes a (inl s, p, r) = rw (s, r, p) refl
unsafe_never_resumes a (inr s, p, r) = rw (s, r, p) refl

tool_call_can_resume_unsafe :
    (k : String) (latest : Dict String ToolExecutionAttempt) (a : ToolExecutionAttempt)
    → lookup k latest ≡ some a
    → IsUnsafe a
    → tool_call_can_resume k latest ≡ false
unfolding tool_call_can_resume
tool_call_can_resume_unsafe k latest a found h =
    rw (tool_call_can_resume, found) (unsafe_never_resumes a h)

abbrev pub latest_of_round : AgentRunState → Attempts → Dict String ToolExecutionAttempt
latest_of_round state l =
    latest_tool_execution_attempts (round_tool_execution_attempts l (current_tool_round state))

call_replays_unsafe :
    (state : AgentRunState) (l : Attempts) (c : ToolCall) (a : ToolExecutionAttempt)
    → lookup c.tool_call_id (latest_of_round state l) ≡ some a
    → IsUnsafe a
    → call_replays state l c ≡ false
unfolding call_replays
call_replays_unsafe state l c a found h =
    rw (tool_call_can_resume_unsafe c.tool_call_id (latest_of_round state l) a found h)
      (ground arith)

-- One call of a list fails a test that depends on its id only.
module _ (test : ToolCall → Bool) (k : String) where
  all_fails :
      (calls : List ToolCall)
      → ((c : ToolCall) → c.tool_call_id ≡ k → test c ≡ false)
      → any (has_id k) calls ≡ true
      → all test calls ≡ false
  all_fails [] fails here = ground arith
  all_fails (c ∷ calls) fails here = elim (Bool-cases (has_id k c)) [
    | inl e ↦ ground (arith, fails c (ground (arith, e, eq_iff c.tool_call_id k)))
    | inr e ↦ ground (arith, e, all_fails calls fails (ground (arith, e)))
  ]

approvals_pending_other :
    (state : AgentRunState) (calls : List ToolCall) (k : String)
    → any (has_id k) calls ≡ true
    → any (λ i. k == i) (map (λ q. q.tool_call_id) state.pending_approval_requests) ≡ false
    → approvals_pending state calls ≡ false
unfolding approvals_pending
approvals_pending_other state calls k here h =
    rw
      (all_fails
        (λ c.
          any (λ i. c.tool_call_id == i)
            (map (λ q. q.tool_call_id) state.pending_approval_requests))
        k calls (λ c e. rw e h) here)
      (ground arith)

nonempty :
    (k : String) (calls : List ToolCall) → any (has_id k) calls ≡ true → (length calls == 0) ≡ false
nonempty k [] here = ground arith
nonempty k (c ∷ calls) here = ground arith

judge_unsafe :
    (state : AgentRunState) (l : Attempts) (calls incomplete : List ToolCall) (k : String)
    (a : ToolExecutionAttempt)
    → any (has_id k) incomplete ≡ true
    → any (λ i. k == i) (map (λ q. q.tool_call_id) state.pending_approval_requests) ≡ false
    → lookup k (latest_of_round state l) ≡ some a
    → IsUnsafe a
    → (judge state (some l) calls incomplete).eligible ≡ false
unfolding judge all_replay
judge_unsafe state l calls incomplete k a here unasked found h =
    rw
      (
        nonempty k incomplete here,
        approvals_pending_other state incomplete k here unasked,
        all_fails (call_replays state l) k incomplete
            (λ c e. call_replays_unsafe state l c a (rw e found) h) here,
      )
      refl

classify_unsafe :
    (state : AgentRunState) (l : Attempts) (r : ChatResponse) (k : String)
    (a : ToolExecutionAttempt)
    → state.response ≡ some r
    → any (has_id k) (incomplete_tool_calls state r) ≡ true
    → any (λ i. k == i) (map (λ q. q.tool_call_id) state.pending_approval_requests) ≡ false
    → lookup k (latest_of_round state l) ≡ some a
    → IsUnsafe a
    → (classify state (some l)).eligible ≡ false
unfolding classify inspect_calls
classify_unsafe state l r k a p here unasked found h = elim (Bool-cases (is_stopped state)) [
  | inl e ↦ rw (classify, e) refl
  | inr e ↦ elim (Bool-cases (any is_final state.steps)) [
    | inl f ↦ rw (classify, e, f) refl
    | inr f ↦
        rw (classify, e, f, p)
          (judge_unsafe state l (tool_calls_of r.message) (incomplete_tool_calls state r) k a here
            unasked found h)
  ]
]

-- A tool call of the response has no result in the current round and waits for no approval, and
-- its latest attempt of the round is unsafe.
abbrev pub HasUnsafeCall : AgentRunState → Attempts → Type 0
HasUnsafeCall state l =
    (r : ChatResponse) × (k : String) × (a : ToolExecutionAttempt) × (state.response ≡ some r)
    × (any (has_id k) (incomplete_tool_calls state r) ≡ true)
    × (any (λ i. k == i) (map (λ q. q.tool_call_id) state.pending_approval_requests) ≡ false)
    × (lookup k (latest_of_round state l) ≡ some a)
    × IsUnsafe a

-- The inspection has returned that the run may go on.
unfoldable pub is_eligible : Result Checkpoint → Bool
is_eligible (err x) = false
is_eligible (ok c) = c.eligible

on_error_blocks : (x : Error) → is_eligible (on_error x) ≡ false
unfolding is_eligible on_error
on_error_blocks Error.agent_state = refl
on_error_blocks _ = refl

-- What the inspection of a run with its recorded attempts returns.
abbrev pub inspected :
    AgentRunState → Option (List AgentTraceEvent) → Attempts → AgentRunState × Result Checkpoint
inspected state events l = inspect_agent_run_checkpoint state events (some l)

-- The inspection does not return that a run is eligible to go on from its checkpoint where the restored state has a tool call
-- without a result in the current round, the call waits for no approval, its latest attempt of the
-- round was started or its outcome is unknown, the tool must not be replayed, and nobody resolved
-- the attempt to a retry.
pub unsafe_call_blocks :
    (state : AgentRunState) (events : Option (List AgentTraceEvent)) (l : Attempts)
    → HasUnsafeCall (inspected state events l).0 l
    → is_eligible (inspected state events l).1 ≡ false
unfolding inspect_agent_run_checkpoint is_eligible
unsafe_call_blocks state events l h =
    elim (Restored-cases (restore_checkpoint_data state (or_else events state.trace))) [
      | inl (s, e) ↦
          let same : (inspected state events l).0 ≡ s = rw (inspect_agent_run_checkpoint, e) refl in
          let (r, k, a, p, here, unasked, found, unsafe) = subst (λ u. HasUnsafeCall u l) same h in
          rw (inspect_agent_run_checkpoint, e)
            (classify_unsafe s l r k a p here unasked found unsafe)
      | inr (x, s, e) ↦ rw (inspect_agent_run_checkpoint, e) (on_error_blocks x)
    ]

is_stopped_status : (s t : AgentRunState) → t.status ≡ s.status → is_stopped t ≡ is_stopped s
unfolding is_stopped
is_stopped_status s t e = rw e refl

settled_stopped : (s t : AgentRunState) → Settles s t → is_stopped s ≡ true → is_stopped t ≡ true
settled_stopped s t (inl e) h = is_stopped_status s t e ∙ h
settled_stopped s t (inr e) h = e

restore-is_stopped :
    (state : AgentRunState) (events : List AgentTraceEvent)
    → is_stopped state ≡ true
    → is_stopped (state_of (restore_checkpoint_data state events)) ≡ true
unfolding restore_checkpoint_data
restore-is_stopped state events h = elim (Result-cases (checkpoint_trace_tail state events)) [
  | inl (tail, p) ↦
      rw (restore_checkpoint_data, p)
        (replay_induction (λ s ids. is_stopped s ≡ true) (λ s. is_stopped s ≡ true)
          (λ s ids e stopped.
            is_stopped_status s (at_sequence e s) (at_sequence_status e s) ∙ stopped)
          (λ s ids e next stopped new q.
            is_stopped_status next _ (noted_status e next)
            ∙ settled_stopped s next (apply_event-Settles s next e q) stopped)
          (λ s ids stopped. stopped)
          (λ s stopped. is_stopped_status s (finish s) (unfold finish in refl) ∙ stopped) state
          (step_ids state.steps) tail h)
  | inr (x, p) ↦ rw (restore_checkpoint_data, p) h
]

-- A run that is finished, failed or canceled is so after the inspection, whatever its trace says,
-- and the inspection does not return that it is eligible to go on.
pub stopped_run_blocks :
    (state : AgentRunState) (events : Option (List AgentTraceEvent)) (executions : Option Attempts)
    → is_stopped state ≡ true
    → (is_stopped (inspect_agent_run_checkpoint state events executions).0 ≡ true)
      × (is_eligible (inspect_agent_run_checkpoint state events executions).1 ≡ false)
unfolding inspect_agent_run_checkpoint classify is_eligible
stopped_run_blocks state events executions h =
    let kept = restore-is_stopped state (or_else events state.trace) h in
    elim (Restored-cases (restore_checkpoint_data state (or_else events state.trace))) [
      | inl (s, e) ↦
          let stopped : is_stopped s ≡ true = subst (λ u. is_stopped (state_of u) ≡ true) e kept in
          rw (inspect_agent_run_checkpoint, e) (stopped, rw (classify, stopped) refl)
      | inr (x, s, e) ↦
          rw (inspect_agent_run_checkpoint, e)
            (subst (λ u. is_stopped (state_of u) ≡ true) e kept, on_error_blocks x)
    ]

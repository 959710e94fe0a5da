-- ===== src/Agent/Replay/Steps.antt =====
-- What one event of a replay does to the run state, and what a whole replay keeps.
use evernight_ai.Prelude.{
  String, ◌≡◌, refl, ◌∙◌, ◌⊎◌, inl, inr, true, false, Option, some, List, [], ◌∷◌, ◌++◌, ◌==◌,
  nat_eq, string_eq, option_eq, pair_eq, if_either, Bool-cases, Option-cases, any, Result, ok, err,
  Result-cases,
}
use evernight_ai.Agent.{
  AgentStepType, AgentStep, AgentTraceEventType, AgentTraceEvent, AgentRunState, AgentRunStatus,
  AgentStopReason, tool, tool_error, chat_completed, tool_completed, tool_failed,
  tool_approval_requested, memory_written, run_stopped, AgentRunStatus-discrete,
}
use evernight_ai.Agent.State.{is_stopped}
use mathlib.Core.Path.{subst}
use evernight_ai.Agent.{same_event}
use evernight_ai.Agent.Replay.{
  apply_chat, apply_tool, apply_approval, apply_memory, has_unhashable_reason, apply_reason,
  apply_stop, ended, finish, apply_type, apply_event, add_id, is_stop, stop_reason_of, replay_event,
  replay, with_event, is_applied, state_of, at_sequence,
}

-- The steps before, perhaps with one more, which has the id.
abbrev pub Extends : Option String → List AgentStep → List AgentStep → Type 0
Extends i old new =
    (new ≡ old) ⊎ ((s : AgentStep) × (s.trace_event_id ≡ i) × (new ≡ old ++ (s ∷ [])))

-- What a call that returns leaves has the property.
abbrev pub After : (AgentRunState → Type 0) → Result AgentRunState → Type 0
After P (err x) = Unit {0}
After P (ok s) = P s

-- The status is as before, or the run has stopped.
abbrev pub Settles : AgentRunState → AgentRunState → Type 0
Settles state next = (next.status ≡ state.status) ⊎ (is_stopped next ≡ true)

abbrev Grows : AgentRunState → AgentTraceEvent → AgentRunState → Type 0
Grows state e next =
    Extends e.event_id state.steps next.steps × Settles state next × (next.run_id ≡ state.run_id)

apply_chat_steps :
    (state : AgentRunState) (e : AgentTraceEvent) → After (Grows state e) (apply_chat state e)
unfolding apply_chat
apply_chat_steps state e = elim (Option-cases e.response) [
  | inl p ↦ rw p tt
  | inr (r, p) ↦ rw p (inr (_, refl, refl), inl refl, refl)
]

apply_tool_steps :
    (t : AgentStepType) (state : AgentRunState) (e : AgentTraceEvent)
    → After (Grows state e) (apply_tool t state e)
unfolding apply_tool
apply_tool_steps t state e = elim (Option-cases e.tool_call) [
  | inl p ↦ rw p tt
  | inr (r, p) ↦ rw p (inr (_, refl, refl), inl refl, refl)
]

apply_approval_steps :
    (state : AgentRunState) (e : AgentTraceEvent) → Grows state e (apply_approval state e)
unfolding apply_approval
apply_approval_steps state e = elim (Option-cases e.approval_request) [
  | inl p ↦ rw p (inl refl, inl refl, refl)
  | inr (r, p) ↦ rw p (inl refl, inl refl, refl)
]

ended_steps :
    (r : AgentStopReason) (t : AgentRunStatus) (why : String) (state : AgentRunState)
    (e : AgentTraceEvent)
    → is_stopped (record state { status = t }) ≡ true
    → Grows state e (ended r t why e state)
unfolding ended is_stopped
ended_steps r t why state e h =
    if_either (Grows state e) (any is_stop state.steps) (inl refl, inr h, refl)
      (inr (_, refl, refl), inr h, refl)

apply_reason_steps :
    (state : AgentRunState) (e : AgentTraceEvent) → After (Grows state e) (apply_reason state e)
unfolding apply_reason is_stopped AgentRunStatus-discrete
apply_reason_steps state e = elim (Bool-cases (stop_reason_of e == some "finished")) [
  | inl p ↦ rw p (ended_steps _ _ _ state e refl)
  | inr p ↦ elim (Bool-cases (stop_reason_of e == some "tool_rounds_exhausted")) [
    | inl q ↦ rw (p, q) (ended_steps _ _ _ state e refl)
    | inr q ↦ elim (Bool-cases (stop_reason_of e == some "tool_error")) [
      | inl r ↦ rw (p, q, r) (ended_steps _ _ _ state e refl)
      | inr r ↦ elim (Bool-cases (stop_reason_of e == some "failed")) [
        | inl t ↦ rw (p, q, r, t) (inl refl, inr refl, refl)
        | inr t ↦ elim (Bool-cases (stop_reason_of e == some "canceled")) [
          | inl u ↦ rw (p, q, r, t, u) (inl refl, inr refl, refl)
          | inr u ↦ rw (p, q, r, t, u) tt
        ]
      ]
    ]
  ]
]

apply_stop_steps :
    (state : AgentRunState) (e : AgentTraceEvent) → After (Grows state e) (apply_stop state e)
unfolding apply_stop
apply_stop_steps state e =
    if_either (After (Grows state e)) (has_unhashable_reason e) tt (apply_reason_steps state e)

apply_type_steps :
    (t : AgentTraceEventType) (state : AgentRunState) (e : AgentTraceEvent)
    → After (Grows state e) (apply_type t state e)
unfolding apply_type apply_memory
apply_type_steps chat_completed state e = apply_chat_steps state e
apply_type_steps tool_completed state e = apply_tool_steps tool state e
apply_type_steps tool_failed state e = apply_tool_steps tool_error state e
apply_type_steps tool_approval_requested state e = apply_approval_steps state e
apply_type_steps memory_written state e = (inr (_, refl, refl), inl refl, refl)
apply_type_steps run_stopped state e = apply_stop_steps state e
apply_type_steps _ state e = (inl refl, inl refl, refl)

grows :
    (state next : AgentRunState) (e : AgentTraceEvent)
    → apply_event state e ≡ ok next
    → Grows state e next
unfolding apply_event
grows state next e h = subst (After (Grows state e)) h (apply_type_steps e.event_type state e)

pub apply_event-Extends :
    (state next : AgentRunState) (e : AgentTraceEvent)
    → apply_event state e ≡ ok next
    → Extends e.event_id state.steps next.steps
apply_event-Extends state next e h = (grows state next e h).0

pub apply_event-Settles :
    (state next : AgentRunState) (e : AgentTraceEvent)
    → apply_event state e ≡ ok next
    → Settles state next
apply_event-Settles state next e h = (grows state next e h).1

pub apply_event_run_id :
    (state next : AgentRunState) (e : AgentTraceEvent)
    → apply_event state e ≡ ok next
    → next.run_id ≡ state.run_id
apply_event_run_id state next e h = (grows state next e h).2

pub at_sequence_steps :
    (e : AgentTraceEvent) (s : AgentRunState) → (at_sequence e s).steps ≡ s.steps
at_sequence_steps e s = elim (Option-cases e.sequence) [
  | inl p ↦ rw p refl
  | inr (n, p) ↦ rw p refl
]

with_event_steps : (e : AgentTraceEvent) (s : AgentRunState) → (with_event e s).steps ≡ s.steps
unfolding with_event
with_event_steps e s =
    if_either (λ (t : AgentRunState). t.steps ≡ s.steps) (any (same_event e) s.trace) refl refl

pub noted_steps :
    (e : AgentTraceEvent) (s : AgentRunState) → (with_event e (at_sequence e s)).steps ≡ s.steps
noted_steps e s = with_event_steps e (at_sequence e s) ∙ at_sequence_steps e s

-- What holds of the state and the applied ids before a replay, and passes every event, holds
-- behind it, in the form in which it passes the last assignments.
module _ (P : AgentRunState → List String → Type 0) (Q : AgentRunState → Type 0)
    (skipped : (state : AgentRunState) (known : List String) (e : AgentTraceEvent)
      → P state known
      → P (at_sequence e state) known)
    (applied : (state : AgentRunState) (known : List String) (e : AgentTraceEvent)
        (next : AgentRunState)
      → P state known
      → is_applied known e ≡ false
      → apply_event state e ≡ ok next
      → P (with_event e (at_sequence e next)) (add_id e.event_id known))
    (left : (state : AgentRunState) (known : List String) → P state known → Q state)
    (ends : (state : AgentRunState) → Q state → Q (finish state)) where
  pub replay_induction :
      (state : AgentRunState) (known : List String) (events : List AgentTraceEvent)
      → P state known
      → Q (state_of (replay (state, known) events))
  unfolding replay replay_event
  replay_induction state known [] h = ends state (left state known h)
  replay_induction state known (e ∷ events) h = elim (Bool-cases (is_applied known e)) [
    | inl old ↦
        rw (replay, old)
          (replay_induction (at_sequence e state) known events (skipped state known e h))
    | inr new ↦ elim (Result-cases (apply_event state e)) [
      | inl (next, p) ↦
          rw (replay, new, p)
            (replay_induction (with_event e (at_sequence e next)) (add_id e.event_id known) events
              (applied state known e next h new p))
      | inr (x, p) ↦ rw (replay, new, p) (left state known h)
    ]
  ]

pub at_sequence_status :
    (e : AgentTraceEvent) (s : AgentRunState) → (at_sequence e s).status ≡ s.status
at_sequence_status e s = elim (Option-cases e.sequence) [
  | inl p ↦ rw p refl
  | inr (n, p) ↦ rw p refl
]

pub noted_status :
    (e : AgentTraceEvent) (s : AgentRunState) → (with_event e (at_sequence e s)).status ≡ s.status
unfolding with_event
noted_status e s =
    if_either (λ (t : AgentRunState). t.status ≡ s.status) _ (at_sequence_status e s)
      (at_sequence_status e s)

pub at_sequence_run_id :
    (e : AgentTraceEvent) (s : AgentRunState) → (at_sequence e s).run_id ≡ s.run_id
at_sequence_run_id e s = elim (Option-cases e.sequence) [
  | inl p ↦ rw p refl
  | inr (n, p) ↦ rw p refl
]

pub noted_run_id :
    (e : AgentTraceEvent) (s : AgentRunState) → (with_event e (at_sequence e s)).run_id ≡ s.run_id
unfolding with_event
noted_run_id e s =
    if_either (λ (t : AgentRunState). t.run_id ≡ s.run_id) _ (at_sequence_run_id e s)
      (at_sequence_run_id e s)

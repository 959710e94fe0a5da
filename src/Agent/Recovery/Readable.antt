-- ===== src/Agent/Recovery/Readable.antt =====
-- A trace whose stops have reasons that Python can compare is inspected without an uncaught error.
use evernight_ai.Prelude.{
  ℕ, String, ◌≡◌, refl, inl, inr, Bool, true, false, not, ◌&&◌, Option, none, some, List, [], ◌∷◌,
  ◌++◌, arith, if◌then◌else◌, ◌==◌, nat_eq, string_eq, option_eq, pair_eq, if_either, Bool-cases,
  Option-cases, keep, any, All, All-append, All-keep, Result, ok, err, Error, ◌>>=◌, require,
  Result-cases,
}
use evernight_ai.Dict.Laws.{lookup-insert}
use mathlib.Core.Path.{subst}
use evernight_ai.Agent.{
  AgentStep, AgentTraceEvent, AgentTraceEventType, AgentRunState, AgentPauseCause, chat_completed,
  tool_completed, tool_failed, run_stopped, event_type_eq, AgentTraceEventType-discrete, source,
  running, run_status_eq,
}
use evernight_ai.Agent.Attempts.{Attempts}
use evernight_ai.Agent.Trace.{
  require_contiguous_trace, follows, first_match, trace_matches_step, align, is_traced, is_ahead,
  tail_behind, legacy_tail, watermark_of, checkpoint_trace_tail, is_reused, saved_from,
}
use evernight_ai.Agent.Replay.{
  has_unhashable_reason, apply_chat, apply_tool, apply_reason, apply_stop, apply_type, apply_event,
  replay_event, replay, is_applied, Restored, restored, broken, Restored-cases,
  restore_checkpoint_data, stop_reason_of, with_event, at_sequence, add_id, step_ids,
}
use evernight_ai.Agent.Checkpoint.{Checkpoint, on_error, classify, inspect_agent_run_checkpoint}
use evernight_ai.Agent.Recovery.{settle, pause_event}
use evernight_ai.Agent.Events.{
  Traces, events_of, list_events, append_event, next_sequence, numbered,
}

-- The event is no stop, or Python can look for its reason in a set.
unfoldable pub is_readable : AgentTraceEvent → Bool
is_readable e = not ((e.event_type == run_stopped) && has_unhashable_reason e)

abbrev pub IsReadable : AgentTraceEvent → Type 0
IsReadable e = is_readable e ≡ true

-- What a call returns has the property, and what it raises, if it raises, is an AgentStateError.
Yields {κ} : {R : Type κ} → (R → Type 0) → Result R → Type 0
Yields Q (err x) = x ≡ Error.agent_state
Yields Q (ok r) = Q r

Yields-chain {κ μ} :
    {R : Type κ} {S : Type μ} (P : R → Type 0) (Q : S → Type 0) (m : Result R) (next : R → Result S)
    → Yields P m
    → ((r : R) → P r → Yields Q (next r))
    → Yields Q (m >>= next)
unfolding Yields
Yields-chain P Q (err x) next h k = h
Yields-chain P Q (ok r) next h k = k r h

abbrev RaisesState {κ} : {R : Type κ} → Result R → Type 0
RaisesState m = Yields (λ r. Unit {0}) m

RaisesState-require : (b : Bool) → RaisesState (require b Error.agent_state)
unfolding Yields
RaisesState-require true = tt
RaisesState-require false = refl

require_contiguous_trace-RaisesState :
    (l : List AgentTraceEvent) (previous : Option ℕ)
    → RaisesState (require_contiguous_trace l previous)
unfolding require_contiguous_trace
require_contiguous_trace-RaisesState [] previous = unfold Yields in tt
require_contiguous_trace-RaisesState (e ∷ l) previous = elim (Option-cases e.sequence) [
  | inl p ↦ rw p (require_contiguous_trace-RaisesState l previous)
  | inr (n, p) ↦ rw p (
      Yields-chain (λ r. Unit {0}) (λ r. Unit {0}) (require (follows previous n) Error.agent_state)
        (λ done. require_contiguous_trace l (some n)) (RaisesState-require (follows previous n))
        (λ done passed. require_contiguous_trace-RaisesState l (some n)))
]

abbrev AllReadable : List AgentTraceEvent → Type 0
AllReadable = All IsReadable

Matched : Option (AgentTraceEvent × List AgentTraceEvent) → Type 0
Matched none = Unit {0}
Matched (some p) = AllReadable p.1

first_match-Matched :
    (l : List AgentTraceEvent) (s : AgentStep) → AllReadable l → Matched (first_match l s)
unfolding first_match Matched
first_match-Matched [] s h = tt
first_match-Matched (e ∷ l) s h =
    if_either Matched (trace_matches_step e s) h.1 (first_match-Matched l s h.1)

abbrev Cursor : Type 0
Cursor = Option ℕ × List AgentTraceEvent

abbrev CursorReadable : Cursor → Type 0
CursorReadable c = AllReadable c.1

taken-Yields :
    (b : Bool) (c : Cursor) (o : Option (AgentTraceEvent × List AgentTraceEvent))
    → Matched o
    → CursorReadable c
    → Yields CursorReadable (elim o [
      | some (e, rest) ↦ ok (e.sequence, rest)
      | none ↦ if b then err Error.agent_state else ok c
    ])
unfolding Yields Matched
taken-Yields b c (some p) h k = h
taken-Yields true c none h k = refl
taken-Yields false c none h k = k

align-Yields :
    (l : List AgentTraceEvent) (steps : List AgentStep) (c : Cursor)
    → CursorReadable c
    → Yields CursorReadable (align l steps c)
unfolding align
align-Yields l [] c h = unfold Yields in h
align-Yields l (s ∷ steps) c h =
    Yields-chain CursorReadable CursorReadable _ (λ next. align l steps next)
      (if_either (Yields CursorReadable) (not (is_traced s)) (unfold Yields in h)
        (taken-Yields _ c (first_match c.1 s) (first_match-Matched c.1 s h) h))
      (λ next readable. align-Yields l steps next readable)

tail_behind-Yields :
    (l : List AgentTraceEvent) (n : ℕ) → AllReadable l → Yields AllReadable (tail_behind l n)
unfolding tail_behind
tail_behind-Yields l n h =
    Yields-chain (λ r. Unit {0}) AllReadable
      (require_contiguous_trace (keep (is_ahead n) l) (some n)) (λ done. ok (keep (is_ahead n) l))
      (require_contiguous_trace-RaisesState (keep (is_ahead n) l) (some n))
      (λ done passed. unfold Yields in All-keep IsReadable (is_ahead n) l h)

legacy_tail-Yields :
    (state : AgentRunState) (l : List AgentTraceEvent)
    → AllReadable l
    → Yields AllReadable (legacy_tail state l)
unfolding legacy_tail
legacy_tail-Yields state l h =
    Yields-chain (λ r. Unit {0}) AllReadable _ _ (RaisesState-require _)
      (λ done passed.
        Yields-chain CursorReadable AllReadable (align l state.steps (some 0, l)) _
          (align-Yields l state.steps (some 0, l) h)
          (λ c readable.
            Yields-chain (λ r. Unit {0}) AllReadable (require_contiguous_trace c.1 c.0)
              (λ done. ok c.1) (require_contiguous_trace-RaisesState c.1 c.0)
              (λ again ended. unfold Yields in readable)))

checkpoint_trace_tail-Yields :
    (state : AgentRunState) (l : List AgentTraceEvent)
    → AllReadable l
    → Yields AllReadable (checkpoint_trace_tail state l)
unfolding checkpoint_trace_tail
checkpoint_trace_tail-Yields state l h =
    let fresh = not (any (is_reused (saved_from [] state.trace)) l) in
    elim (Option-cases (watermark_of state)) [
      | inl p ↦
          rw (checkpoint_trace_tail, p)
            (Yields-chain (λ r. Unit {0}) AllReadable (require fresh Error.agent_state)
              (λ done. legacy_tail state l) (RaisesState-require fresh)
              (λ done passed. legacy_tail-Yields state l h))
      | inr (n, p) ↦
          rw (checkpoint_trace_tail, p)
            (Yields-chain (λ r. Unit {0}) AllReadable (require fresh Error.agent_state)
              (λ done. tail_behind l n) (RaisesState-require fresh)
              (λ done passed. tail_behind-Yields l n h))
    ]

apply_reason-RaisesState :
    (state : AgentRunState) (e : AgentTraceEvent) → RaisesState (apply_reason state e)
unfolding apply_reason Yields
apply_reason-RaisesState state e =
    let P : Result AgentRunState → Type 0 = λ m. RaisesState m in
    if_either P (stop_reason_of e == some "finished") tt (
      if_either P (stop_reason_of e == some "tool_rounds_exhausted") tt (
        if_either P (stop_reason_of e == some "tool_error") tt (
          if_either P (stop_reason_of e == some "failed") tt
            (if_either P (stop_reason_of e == some "canceled") tt refl))))

apply_type-RaisesState :
    (t : AgentTraceEventType) (state : AgentRunState) (e : AgentTraceEvent)
    → ((t == run_stopped) && has_unhashable_reason e) ≡ false
    → RaisesState (apply_type t state e)
unfolding apply_type AgentTraceEventType-discrete apply_chat apply_tool apply_stop
apply_type-RaisesState chat_completed state e h = elim (Option-cases e.response) [
  | inl p ↦ rw p (unfold Yields in refl)
  | inr (r, p) ↦ rw p (unfold Yields in tt)
]
apply_type-RaisesState tool_completed state e h = elim (Option-cases e.tool_call) [
  | inl p ↦ rw p (unfold Yields in refl)
  | inr (r, p) ↦ rw p (unfold Yields in tt)
]
apply_type-RaisesState tool_failed state e h = elim (Option-cases e.tool_call) [
  | inl p ↦ rw p (unfold Yields in refl)
  | inr (r, p) ↦ rw p (unfold Yields in tt)
]
apply_type-RaisesState run_stopped state e h = rw h (apply_reason-RaisesState state e)
apply_type-RaisesState _ state e h = unfold Yields in tt

-- The replay ends, or breaks off with an AgentStateError.
BreaksState : Restored → Type 0
BreaksState (restored s) = Unit {0}
BreaksState (broken x s) = x ≡ Error.agent_state

replay-BreaksState :
    (state : AgentRunState) (known : List String) (l : List AgentTraceEvent)
    → AllReadable l
    → BreaksState (replay (state, known) l)
unfolding replay replay_event apply_event BreaksState is_readable
replay-BreaksState state known [] h = tt
replay-BreaksState state known (e ∷ l) h = elim (Bool-cases (is_applied known e)) [
  | inl old ↦ rw (replay, replay_event, old) (replay-BreaksState (at_sequence e state) known l h.1)
  | inr new ↦
      let right = apply_type-RaisesState e.event_type state e (ground (arith, h.0)) in
      elim (Result-cases (apply_event state e)) [
        | inl (next, p) ↦
            rw (replay, replay_event, new, p)
              (replay-BreaksState (with_event e (at_sequence e next)) (add_id e.event_id known) l
                h.1)
        | inr (x, p) ↦
            rw (replay, replay_event, new, p) (unfold Yields in rw (apply_event, p) at right)
      ]
]

restore-BreaksState :
    (state : AgentRunState) (l : List AgentTraceEvent)
    → AllReadable l
    → BreaksState (restore_checkpoint_data state l)
unfolding restore_checkpoint_data Yields
restore-BreaksState state l h =
    let tail_right = checkpoint_trace_tail-Yields state l h in
    elim (Result-cases (checkpoint_trace_tail state l)) [
      | inl (tail, p) ↦
          rw (restore_checkpoint_data, p)
            (replay-BreaksState state (step_ids state.steps) tail
              (subst (λ m. Yields AllReadable m) p tail_right))
      | inr (x, p) ↦
          rw (restore_checkpoint_data, p)
            (unfold BreaksState in subst (λ m. Yields AllReadable m) p tail_right)
    ]

-- A readable trace is inspected, and the inspection returns.
pub inspect_returns :
    (state : AgentRunState) (l : List AgentTraceEvent) (executions : Option Attempts)
    → All IsReadable l
    → (c : Checkpoint) × ((inspect_agent_run_checkpoint state (some l) executions).1 ≡ ok c)
unfolding inspect_agent_run_checkpoint
inspect_returns state l executions h =
    let right = restore-BreaksState state l h in
    elim (Restored-cases (restore_checkpoint_data state l)) [
      | inl (s, e) ↦ (classify s executions, rw (inspect_agent_run_checkpoint, e) refl)
      | inr (x, s, e) ↦
          let caught : x ≡ Error.agent_state = unfold BreaksState in subst BreaksState e right in
          rw (inspect_agent_run_checkpoint, e, caught) (_, unfold on_error in refl)
    ]

-- Every event of the table is readable.
abbrev pub AreReadable : Traces → Type 0
AreReadable traces = (k : String) → All IsReadable (events_of traces k)

pub list_events-AreReadable :
    (traces : Traces) (k : String)
    → AreReadable traces
    → All IsReadable (list_events traces k 0 none)
unfolding list_events
list_events-AreReadable traces k h = All-keep IsReadable (is_ahead 0) (events_of traces k) (h k)

append_event-AreReadable :
    (traces : Traces) (j : String) (e : AgentTraceEvent)
    → IsReadable e
    → AreReadable traces
    → AreReadable (append_event traces j e).0
unfolding append_event events_of is_readable has_unhashable_reason
append_event-AreReadable traces j e h readable k =
    let n = next_sequence (events_of traces j) in
    let longer =
      All-append IsReadable (events_of traces j) (numbered n e ∷ []) (readable j) (h, tt) in
    elim (Bool-cases (j == k)) [
      | inl b ↦ rw (lookup-insert j k (events_of traces j ++ (numbered n e ∷ [])) traces, b) longer
      | inr b ↦
          rw (lookup-insert j k (events_of traces j ++ (numbered n e ∷ [])) traces, b) (readable k)
    ]

pub settle-AreReadable :
    (traces : Traces) (state : AgentRunState) (cause : AgentPauseCause) (origin : String)
    (c : Checkpoint)
    → AreReadable traces
    → AreReadable (settle traces state cause origin c).0
unfolding settle
settle-AreReadable traces state cause origin c h = elim (Bool-cases (state.status == running)) [
  | inl b ↦
      rw (settle, b)
        (append_event-AreReadable traces state.run_id (pause_event (source cause) origin c)
          (unfold is_readable pause_event AgentTraceEventType-discrete in refl) h)
  | inr b ↦ rw (settle, b) h
]

-- ===== src/Agent/Trace.antt =====
-- application/agent_recovery.py: which events of a persisted trace a snapshot has not applied yet.
pub mod Contiguous
use evernight_ai.Prelude.{
  ℕ, zero, suc, ◌+◌, ◌-◌, ◌*◌, ◌/◌, ◌≤◌, ◌<◌, max, String, ◌≡◌, refl, sym, ap, ◌∙◌, ◌≢◌, ◌↔◌, ◌⊎◌,
  inl, inr, Bool, true, false, not, ◌&&◌, ◌||◌, Option, none, some, List, [], ◌∷◌, ◌++◌, map,
  reverse, arith, eq_iff, ltb, leb, eqb, if◌then◌else◌, text_ltb, Eq, ◌==◌, nat_eq, nat_beq_iff,
  string_eq, option_eq, pair_eq, discrete_eq, string-discrete, nat-discrete, beq_refl, if_either,
  Bool-cases, Option-cases, is_some, or_else, when, text_ltb_asym, text_le_trans, length, keep, any,
  all, take, drop, get_elem?, All, length-append, length-keep-le, length-take, All-append,
  All-behind, All-keep, All-take, keep_sound, keep-append, keep_none, length-drop-le, All-keep_both,
  All-map, Result, ok, err, Error, ◌>>=◌, ◌>>◌, require, >>=-eq-ok, Result-cases, ok-injective,
}
use evernight_ai.Dict.{Dict, lookup, insert}
use evernight_ai.Agent.{
  AgentStepType, AgentStep, AgentTraceEventType, AgentTraceEvent, AgentRunState, chat, tool,
  tool_error, chat_completed, tool_completed, tool_failed, step_type_eq, event_type_eq,
  same_response, same_call,
}

-- The number follows the previous one, where there is one.
unfoldable pub follows : Option ℕ → ℕ → Bool
follows none n = true
follows (some m) n = n == suc m

-- `_require_contiguous_trace`
unfoldable pub require_contiguous_trace : List AgentTraceEvent → Option ℕ → Result (Unit {0})
unfolding follows
require_contiguous_trace [] previous = ok tt
require_contiguous_trace (e ∷ events) previous = elim e.sequence [
  | none ↦ require_contiguous_trace events previous
  | some n ↦
      require (follows previous n) Error.agent_state >> require_contiguous_trace events (some n)
]

-- `_trace_matches_step`
unfoldable pub trace_matches_step : AgentTraceEvent → AgentStep → Bool
trace_matches_step e s = elim s.trace_event_id [
  | some k ↦ e.event_id == some k
  | none ↦
      if s.step_type == chat
      then (e.event_type == chat_completed) && same_response e.response s.response
      else (let expected = if s.step_type == tool then tool_completed else tool_failed in
          (e.event_type == expected) && same_call e.tool_call s.tool_call)
]

-- `saved_events`: a later event of the same number replaces an earlier one.
unfoldable pub saved_from : Dict ℕ AgentTraceEvent → List AgentTraceEvent → Dict ℕ AgentTraceEvent
saved_from saved [] = saved
saved_from saved (e ∷ events) =
    saved_from (elim e.sequence [ none ↦ saved | some n ↦ insert n e saved ]) events

clashes : Option String → Option String → Bool
clashes (some i) (some j) = not (i == j)
clashes _ _ = false

-- The event has a number under which another event is saved.
unfoldable pub is_reused : Dict ℕ AgentTraceEvent → AgentTraceEvent → Bool
unfolding clashes
is_reused saved e = elim e.sequence [
  | none ↦ false
  | some n ↦ elim (lookup n saved) [ none ↦ false | some s ↦ clashes s.event_id e.event_id ]
]

-- The greatest number in the list, if it has one.
unfoldable pub last_sequence : List AgentTraceEvent → Option ℕ
last_sequence [] = none
last_sequence (e ∷ events) =
    let rest = last_sequence events in
    elim e.sequence [ none ↦ rest | some n ↦ elim rest [ none ↦ some n | some m ↦ some (max n m) ] ]

unfoldable pub is_pruned : List AgentTraceEvent → Bool
is_pruned [] = false
is_pruned (e ∷ events) = elim e.sequence [ none ↦ false | some n ↦ ltb 1 n ]

abbrev pub is_traced : AgentStep → Bool
is_traced s = (s.step_type == chat) || (s.step_type == tool) || (s.step_type == tool_error)

-- The events behind the first one from here on that matches the step, with that event.
unfoldable pub first_match :
    List AgentTraceEvent → AgentStep → Option (AgentTraceEvent × List AgentTraceEvent)
first_match [] s = none
first_match (e ∷ events) s =
    let later = first_match events s in if trace_matches_step e s then some (e, events) else later

-- The loop over the steps of a snapshot without a cursor: `events[cursor:]` and the number of
-- the event before it, 0 at the start.
unfoldable pub align :
    List AgentTraceEvent
    → List AgentStep
    → Option ℕ × List AgentTraceEvent
    → Result (Option ℕ × List AgentTraceEvent)
unfolding first_match
align events [] cursor = ok cursor
align events (s ∷ steps) cursor = do
  next ←
      (if not (is_traced s) then ok cursor else elim (first_match cursor.1 s) [
        | some (e, rest) ↦ ok (e.sequence, rest)
        | none ↦
            if any (λ e. e.event_type == chat_completed) events
            then err Error.agent_state
            else ok cursor
      ])
  align events steps next

-- The events behind the watermark.
unfoldable pub is_ahead : ℕ → AgentTraceEvent → Bool
is_ahead watermark e = elim e.sequence [ none ↦ true | some n ↦ ltb watermark n ]

unfoldable pub tail_behind : List AgentTraceEvent → ℕ → Result (List AgentTraceEvent)
unfolding require_contiguous_trace is_ahead
tail_behind events watermark =
    let tail = keep (is_ahead watermark) events in
    require_contiguous_trace tail (some watermark) >> ok tail

unfoldable pub legacy_tail : AgentRunState → List AgentTraceEvent → Result (List AgentTraceEvent)
unfolding is_pruned align require_contiguous_trace
legacy_tail state events = do
  require
      (not
        (is_pruned events && any (λ s. not (is_some s.trace_event_id) && is_traced s) state.steps))
      Error.agent_state
  cursor ← align events state.steps (some 0, events)
  require_contiguous_trace cursor.1 cursor.0
  ok cursor.1

-- `watermark` of `_checkpoint_trace_tail`
unfoldable pub watermark_of : AgentRunState → Option ℕ
unfolding last_sequence
watermark_of state = elim state.applied_trace_sequence [
  | some n ↦ some n
  | none ↦ last_sequence state.trace
]

-- `_checkpoint_trace_tail`
unfoldable pub checkpoint_trace_tail :
    AgentRunState → List AgentTraceEvent → Result (List AgentTraceEvent)
unfolding saved_from is_reused watermark_of tail_behind legacy_tail
checkpoint_trace_tail state events = do
  require (not (any (is_reused (saved_from [] state.trace)) events)) Error.agent_state
  elim (watermark_of state) [ some n ↦ tail_behind events n | none ↦ legacy_tail state events ]

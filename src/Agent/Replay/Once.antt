-- ===== src/Agent/Replay/Once.antt =====
-- A replay turns no event with an id into two steps.
use evernight_ai.Prelude.{
  String, ◌≡◌, refl, inl, inr, true, false, ◌||◌, Option, none, some, List, [], ◌∷◌, ◌++◌, arith,
  eq_iff, ◌==◌, nat_eq, string_eq, option_eq, pair_eq, Bool-cases, Option-cases, any, All,
  All-append, Result-cases,
}
use evernight_ai.Agent.{AgentStep, AgentTraceEvent, AgentRunState}
use mathlib.Core.List.{append-nil}
use evernight_ai.Agent.Trace.{checkpoint_trace_tail}
use evernight_ai.Agent.Replay.{
  finish, add_id, replay, restore_checkpoint_data, step_ids, is_applied, state_of,
}
use evernight_ai.Agent.Replay.Steps.{
  Extends, apply_event-Extends, at_sequence_steps, noted_steps, replay_induction,
}

-- No id stands in the list twice.
abbrev pub NoRepeat : List String → Type 0
NoRepeat [] = Unit {0}
NoRepeat (k ∷ ks) = (any (λ j. k == j) ks ≡ false) × NoRepeat ks

-- Every id of the first list is in the second.
abbrev Covered : List String → List String → Type 0
Covered ids known = All (λ k. any (λ j. k == j) known ≡ true) ids

step_ids-append : (a b : List AgentStep) → step_ids (a ++ b) ≡ step_ids a ++ step_ids b
unfolding step_ids
step_ids-append [] b = refl
step_ids-append (s ∷ a) b = elim (Option-cases s.trace_event_id) [
  | inl p ↦ rw p (step_ids-append a b)
  | inr (k, p) ↦ rw p (ground (arith, step_ids-append a b))
]

any_last :
    (k i : String) (ids : List String)
    → any (λ j. k == j) (ids ++ (i ∷ [])) ≡ any (λ j. k == j) ids || (k == i)
any_last k i [] = ground arith
any_last k i (j ∷ ids) = ground (arith, any_last k i ids)

NoRepeat-snoc :
    (ids known : List String) (i : String)
    → NoRepeat ids
    → Covered ids known
    → any (λ j. i == j) known ≡ false
    → NoRepeat (ids ++ (i ∷ []))
NoRepeat-snoc [] known i h c f = (refl, tt)
NoRepeat-snoc (k ∷ ids) known i h c f =
    (ground (arith, any_last k i ids, h.0, c.0, f, eq_iff k i), NoRepeat-snoc ids known i h.1 c.1 f)

Covered-more : (ids known : List String) (i : String) → Covered ids known → Covered ids (i ∷ known)
Covered-more [] known i c = tt
Covered-more (k ∷ ids) known i c = (ground (arith, c.0), Covered-more ids known i c.1)

Covered-snoc :
    (ids known : List String) (i : String)
    → Covered ids known
    → Covered (ids ++ (i ∷ [])) (i ∷ known)
Covered-snoc ids known i c =
    All-append _ ids (i ∷ []) (Covered-more ids known i c) (ground (arith, eq_iff i i), tt)

-- The loop's invariant.
Fresh : List AgentStep → List String → Type 0
Fresh steps known = NoRepeat (step_ids steps) × Covered (step_ids steps) known

Fresh-add_id :
    (steps : List AgentStep) (known : List String) (i : Option String)
    → Fresh steps known
    → Fresh steps (add_id i known)
unfolding Fresh
Fresh-add_id steps known none h = h
Fresh-add_id steps known (some k) h = (h.0, Covered-more _ known k h.1)

Fresh-step :
    (steps : List AgentStep) (s : AgentStep) (known : List String) (i : Option String)
    → s.trace_event_id ≡ i
    → Fresh steps known
    → elim i [ none ↦ false | some k ↦ any (λ j. k == j) known ] ≡ false
    → Fresh (steps ++ (s ∷ [])) (add_id i known)
unfolding Fresh step_ids
Fresh-step steps s known none p h f =
    rw (step_ids-append steps (s ∷ []), p, append-nil (step_ids steps)) h
Fresh-step steps s known (some k) p h f = elim (Bool-cases (k == "")) [
  | inl empty ↦
      rw (step_ids-append steps (s ∷ []), p, empty, append-nil (step_ids steps))
        (h.0, Covered-more _ known k h.1)
  | inr full ↦
      rw (step_ids-append steps (s ∷ []), p, full)
        (NoRepeat-snoc _ known k h.0 h.1 f, Covered-snoc _ known k h.1)
]

after_step :
    (state : AgentRunState) (known : List String) (e : AgentTraceEvent) (next : AgentRunState)
    → Fresh state.steps known
    → is_applied known e ≡ false
    → Extends e.event_id state.steps next.steps
    → Fresh next.steps (add_id e.event_id known)
unfolding is_applied
after_step state known e next h f (inl same) = rw same (Fresh-add_id state.steps known e.event_id h)
after_step state known e next h f (inr (s, p, eq)) =
    rw eq (Fresh-step state.steps s known e.event_id p h f)

OnceIn : AgentRunState → Type 0
OnceIn s = NoRepeat (step_ids s.steps)

replay-OnceIn :
    (state : AgentRunState) (known : List String) (events : List AgentTraceEvent)
    → Fresh state.steps known
    → OnceIn (state_of (replay (state, known) events))
replay-OnceIn state known events h =
    replay_induction (λ s ids. Fresh s.steps ids) OnceIn
      (λ s ids e fresh. rw (at_sequence_steps e s) fresh)
      (λ s ids e next fresh new p.
        rw (noted_steps e next)
          (after_step s ids e next fresh new (apply_event-Extends s next e p)))
      (λ s ids fresh. unfold Fresh OnceIn in fresh.0) (λ s once. unfold OnceIn finish in once) state
      known events h

Covered-self : (ids : List String) → Covered ids ids
Covered-self [] = tt
Covered-self (k ∷ ids) = (ground (arith, eq_iff k k), Covered-more ids ids k (Covered-self ids))

restore-OnceIn :
    (state : AgentRunState) (events : List AgentTraceEvent)
    → NoRepeat (step_ids state.steps)
    → OnceIn (state_of (restore_checkpoint_data state events))
unfolding restore_checkpoint_data
restore-OnceIn state events h = elim (Result-cases (checkpoint_trace_tail state events)) [
  | inl (tail, p) ↦
      rw (restore_checkpoint_data, p)
        (replay-OnceIn state (step_ids state.steps) tail (unfold Fresh in (h, Covered-self _)))
  | inr (x, p) ↦ rw (restore_checkpoint_data, p) (unfold OnceIn in h)
]

-- Where no two steps of a run carry the same id of a trace event, this holds after its trace has
-- been replayed, whether the replay ends or breaks off: no event with an id that is not empty
-- becomes two steps. Of events without an id this says nothing.
pub restore_checkpoint_data-NoRepeat :
    (state : AgentRunState) (events : List AgentTraceEvent)
    → NoRepeat (step_ids state.steps)
    → NoRepeat (step_ids (state_of (restore_checkpoint_data state events)).steps)
restore_checkpoint_data-NoRepeat state events h = unfold OnceIn in restore-OnceIn state events h

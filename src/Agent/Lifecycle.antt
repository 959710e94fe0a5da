-- ===== src/Agent/Lifecycle.antt =====
-- application/agent_lifecycle.py: counting the active runs, and the shutdown that waits for them.
pub mod Drained
pub mod Paused
use evernight_ai.Prelude.{
  ℕ, zero, suc, ◌+◌, ◌-◌, ◌*◌, ◌/◌, ◌≤◌, ◌<◌, max, String, ◌≡◌, refl, sym, ap, ◌∙◌, ◌≢◌, ◌↔◌, ◌⊎◌,
  inl, inr, Bool, true, false, not, ◌&&◌, ◌||◌, Option, none, some, List, [], ◌∷◌, ◌++◌, map,
  reverse, arith, eq_iff, ltb, leb, eqb, if◌then◌else◌, text_ltb, Eq, ◌==◌, nat_eq, nat_beq_iff,
  string_eq, option_eq, pair_eq, discrete_eq, string-discrete, nat-discrete, beq_refl, if_either,
  Bool-cases, Option-cases, is_some, or_else, when, text_ltb_asym, text_le_trans, length, keep, any,
  all, take, drop, get_elem?, All, length-append, length-keep-le, length-take, All-append,
  All-behind, All-keep, All-take, keep_sound, keep-append, keep_none, length-drop-le, All-keep_both,
  All-map, Result, ok, err, Error, ◌>>=◌, ◌>>◌, require, >>=-eq-ok, Result-cases, ok-injective,
  place_by, sorted_by, All-sorted_by, sorted_by-All,
}
use evernight_ai.Dict.{Dict, lookup}
use evernight_ai.Agent.{
  AgentRunState, AgentTraceEvent, shutdown, source, running, paused, run_status_eq,
}
use evernight_ai.Agent.Attempts.{Attempts}
use evernight_ai.Agent.Checkpoint.{Checkpoint, inspect_agent_run_checkpoint}
use evernight_ai.Agent.Runs.{Runs, RunFilter, save_state, query_states}
use evernight_ai.Agent.Events.{Traces, append_event, list_events, numbered}
use evernight_ai.Agent.Recovery.{reconcile, pause_event, paused_state}

-- `_AgentRunLifecycle`; the condition's lock makes each of the operations below one step.
pub record Lifecycle : Type 0 where
  pub closing : Bool
  pub active_count : ℕ

abbrev pub new_lifecycle : Lifecycle
new_lifecycle = record { closing = false; active_count = 0 }

-- `_enter_run`
unfoldable pub enter_run : Lifecycle → Result Lifecycle
enter_run l = do
  require (not l.closing) Error.agent_shutdown
  ok (record l { active_count = suc l.active_count })

-- `_exit_run`, and whether it calls `notify_all`; the count does not go below 0.
unfoldable pub exit_run : Lifecycle → Lifecycle × Bool
exit_run l = let left = l.active_count - 1 in (record l { active_count = left }, left == 0)

-- The first part of `close`: from here on no run enters.
unfoldable pub start_closing : Lifecycle → Lifecycle
start_closing l = record l { closing = true }

-- The test of the loop `while self._active_count` of `close` fails.
unfoldable pub is_drained : Lifecycle → Bool
is_drained l = l.active_count == 0

-- The coroutines around a lifecycle: the runs between `_enter_run` and `_exit_run`, the calls of
-- `close` that sleep in `wait` and those that were notified and have not had their turn, and
-- whether some `close` is behind its loop.
pub record System : Type 0 where
  pub lifecycle : Lifecycle
  pub inside : ℕ
  pub asleep : ℕ
  pub notified : ℕ
  pub behind_wait : Bool

abbrev pub new_system : System
new_system = record {
  lifecycle = new_lifecycle;
  inside = 0;
  asleep = 0;
  notified = 0;
  behind_wait = false;
}

-- A `close` tests its loop: it goes on, or sleeps.
unfoldable pub loop_test : System → System
unfolding is_drained
loop_test s =
    if is_drained s.lifecycle
    then record s { behind_wait = true }
    else record s { asleep = suc s.asleep }

-- `notify_all`, if it is called.
unfoldable pub notify : Bool → System → System
notify true s = record s { asleep = 0; notified = s.asleep + s.notified }
notify false s = s

-- A run exits.
unfoldable pub after_exit : System → ℕ → System
unfolding exit_run notify
after_exit s left =
    let (l, calls) = exit_run s.lifecycle in
    notify calls (record s { lifecycle = l; inside = left })

-- A run exits, or a notified `close` has its turn. A sleeping `close` does nothing by itself.
pub data Progress : System → System → Type 0 where
  exits : {s : System} {n : ℕ} → s.inside ≡ suc n → Progress s (after_exit s n)
  wakes :
      {s : System} {n : ℕ} → s.notified ≡ suc n → Progress s (loop_test (record s { notified = n }))

-- What one coroutine does between two points where another may go on: a run may also try to
-- enter, and a further `close` may start.
pub data Step : System → System → Type 0 where
  enters :
      {s : System} {l : Lifecycle}
      → enter_run s.lifecycle ≡ ok l
      → Step s (record s { lifecycle = l; inside = suc s.inside })
  refused : {s : System} {x : Error} → enter_run s.lifecycle ≡ err x → Step s s
  closes : {s : System} → Step s (loop_test (record s { lifecycle = start_closing s.lifecycle }))
  progresses : {s t : System} → Progress s t → Step s t

-- Any number of steps.
pub data Steps : System → System → Type 0 where
  stays : {s : System} → Steps s s
  goes : {s t u : System} → Step s t → Steps t u → Steps s u

-- The registers that `close` is given; there may be no register of traces or executions.
pub record Registers : Type 0 where
  pub runs : Runs
  pub traces : Option Traces
  pub attempts : Option Attempts

unfoldable shutdown_event :
    Option Traces → AgentRunState → Checkpoint → Option Traces × AgentTraceEvent
unfolding pause_event append_event
shutdown_event none state c = (none, pause_event (source shutdown) "shutdown" c)
shutdown_event (some traces) state c =
    let e = pause_event (source shutdown) "shutdown" c in
    let (traces', n) = append_event traces state.run_id e in (some traces', numbered n e)

-- The state to save, with the traces.
unfoldable pub settle_shutdown :
    Option Traces → AgentRunState → Checkpoint → Option Traces × AgentRunState
unfolding shutdown_event paused_state
settle_shutdown traces state c =
    if not (state.status == running)
    then (traces, state)
    else (let (traces', e) = shutdown_event traces state c in
        (traces', paused_state state shutdown c e))

unfoldable traced_events : Option Traces → AgentRunState → List AgentTraceEvent
unfolding list_events
traced_events none state = state.trace
traced_events (some traces) state = list_events traces state.run_id 0 none

-- The loop's body for a running run.
unfoldable pub pause_run : Registers → AgentRunState → ℕ → Result Registers
unfolding reconcile inspect_agent_run_checkpoint settle_shutdown traced_events save_state
pause_run registers state now = do
  (attempts, executions) ← reconcile registers.attempts state.run_id
  let events = traced_events registers.traces state
  let (restored, inspection) = inspect_agent_run_checkpoint state (some events) executions
  checkpoint ← inspection
  let (traces, settled) = settle_shutdown registers.traces restored checkpoint
  runs ← save_state registers.runs none settled now none
  ok (record { runs = runs; traces = traces; attempts = attempts })

unfoldable pub pause_if : Bool → Registers → Result Registers → Result Registers
pause_if true registers outcome = outcome
pause_if false registers outcome = ok registers

unfoldable pub pause_all : Registers → ℕ → List AgentRunState → Result Registers
unfolding pause_run pause_if
pause_all registers now [] = ok registers
pause_all registers now (s ∷ states) = do
  next ← pause_if (s.status == running) registers (pause_run registers s now)
  pause_all next now states

abbrev pub every_run : RunFilter
every_run = record {
  cursor = none;
  limit = none;
  owner_id = none;
  status = none;
  context_id = none;
}

-- `_pause_running_states`, where there is a state register.
unfoldable pub pause_running_states : Registers → ℕ → Result Registers
unfolding pause_all query_states
pause_running_states registers now =
    pause_all registers now (query_states registers.runs every_run none)

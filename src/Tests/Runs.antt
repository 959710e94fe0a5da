-- ===== src/Tests/Runs.antt =====
-- The table of runs, its recovery and the shutdown, at concrete inputs.
use evernight_ai.Prelude.{
  ℕ, ◌≡◌, refl, true, false, Option, none, some, [], ◌∷◌, ◌++◌, nat_eq, string_eq, option_eq,
  pair_eq, Result, ok, err, Error, sorted_by,
}
use evernight_ai.Dict.{lookup, insert}
use evernight_ai.Auth.{scope_permits}
use evernight_ai.Agent.{AgentRunStatus-discrete, AgentTraceEvent, run_stopped}
use evernight_ai.Value.{unhashable}
use evernight_ai.Agent.Trace.{checkpoint_trace_tail}
use evernight_ai.Agent.Replay.{restore_checkpoint_data}
use evernight_ai.Agent.Runs.{
  Runs, RunRow, acquires, acquire_lease, heartbeat_lease, release_lease, save_state, run, lease_of,
  dated, query_states, row_of, get_execution_lease,
}
use evernight_ai.Agent.Runs.Leases.{any_acquires, lease_on, stale_lease_fenced}
use evernight_ai.Agent.Recovery.{Stores, is_protected, recover_interrupted_agent_runs}
use evernight_ai.Agent.Recovery.Settled.{recover_interrupted_agent_runs_settles}
use evernight_ai.Agent.Recovery.Returns.{Returns}
use evernight_ai.Agent.Recovery.Rows.{is_running}
use evernight_ai.Agent.Lifecycle.{
  Registers, pause_running_states, System, new_system, goes, stays, enters, exits, closes, wakes,
  progresses, loop_test, notify, after_exit, enter_run, exit_run, start_closing, is_drained,
}
use evernight_ai.Agent.Lifecycle.Drained.{MustEnd, behind_wait_drained, shutdown_completes}
use evernight_ai.Agent.Lifecycle.Paused.{pause_running_states_settles}
use evernight_ai.Tests.Agents.{run_1}

abbrev row_1 : RunRow
row_1 = record {
  payload = run_1;
  created_at = 5;
  lease_owner = none;
  lease_expires_at = none;
  heartbeat_at = none;
  lease_generation = 0;
}

abbrev one_run : Runs
one_run = ("r1", row_1) ∷ []

abbrev leased_run : Runs
leased_run =
    (
      "r1",
      record row_1 {
        lease_owner = some "w1";
        lease_expires_at = some 40;
        heartbeat_at = some 10;
        lease_generation = 1;
      },
    )
    ∷ []

-- The second worker gets the lease once it has expired.
stale_lease_fenced_example :
    ((x : Error) × (save_state
          (run leased_run ((none, acquires "r1" "w2" 30 50) ∷ []))
          (some (lease_on run_1 "w1" 1))
          run_1
          60
          none
        ≡ err x))
    × (heartbeat_lease
          (run leased_run ((none, acquires "r1" "w2" 30 50) ∷ []))
          "r1"
          "w1"
          1
          30
          60
          none
        ≡ (run leased_run ((none, acquires "r1" "w2" 30 50) ∷ []), false))
    × (release_lease (run leased_run ((none, acquires "r1" "w2" 30 50) ∷ [])) "r1" "w1" 1 none
        ≡ run leased_run ((none, acquires "r1" "w2" 30 50) ∷ []))
unfolding acquire_lease any_acquires lookup insert scope_permits
stale_lease_fenced_example =
    stale_lease_fenced one_run leased_run ((none, acquires "r1" "w2" 30 50) ∷ []) run_1 "w1" 1 30 10
      60 none none refl refl refl

-- The second run has no lease.
abbrev stores_1 : Stores
stores_1 = record {
  runs = leased_run ++ (("r2", record row_1 { payload = record run_1 { run_id = "r2" } }) ∷ []);
  traces = [];
  attempts = some [];
}

abbrev last_stores : Result (Stores × ℕ) → Stores
last_stores (err x) = stores_1
last_stores (ok p) = p.0

recover_interrupted_agent_runs_settles_example :
    (lookup "r1" stores_1.runs ≡ lookup "r1" leased_run)
    × (is_protected
          (some
            (record { owner = "w1"; expires_at = some 40; heartbeat_at = some 10; generation = 1 }))
          20
          0
          run_1
        ≡ true)
unfolding recover_interrupted_agent_runs query_states AgentRunStatus-discrete get_execution_lease
    row_of lookup insert lease_of dated sorted_by scope_permits restore_checkpoint_data
    checkpoint_trace_tail
recover_interrupted_agent_runs_settles_example =
    recover_interrupted_agent_runs_settles stores_1
      (last_stores (recover_interrupted_agent_runs stores_1 20 0)) 20 0 1 "r1"
      (record row_1 {
        lease_owner = some "w1";
        lease_expires_at = some 40;
        heartbeat_at = some 10;
        lease_generation = 1;
      })
      (refl, (refl, tt)) refl refl refl

-- A run: a stop whose reason is a list keeps the recovery from ending.
abbrev listed_stop : AgentTraceEvent
listed_stop = record {
  sequence = some 1;
  event_id = some "e1";
  event_type = run_stopped;
  summary = none;
  error_type = none;
  error_message = none;
  metadata = ("reason", unhashable true) ∷ [];
  message = none;
  response = none;
  tool_call = none;
  tool_result = none;
  approval_request = none;
  details = [];
}

recover_listed_stop :
    recover_interrupted_agent_runs (record stores_1 { traces = ("r1", listed_stop ∷ []) ∷ [] }) 60 0
    ≡ err Error.type_error
unfolding recover_interrupted_agent_runs query_states AgentRunStatus-discrete get_execution_lease
    row_of lookup insert lease_of dated sorted_by scope_permits restore_checkpoint_data
    checkpoint_trace_tail
recover_listed_stop = refl

abbrev closed_system : System
closed_system = record {
  lifecycle = record { closing = true; active_count = 0 };
  inside = 0;
  asleep = 0;
  notified = 0;
  behind_wait = true;
}

behind_wait_drained_example :
    (closed_system.inside ≡ 0)
    × (closed_system.lifecycle.active_count ≡ 0)
    × (enter_run closed_system.lifecycle ≡ err Error.agent_shutdown)
unfolding enter_run exit_run start_closing is_drained loop_test notify after_exit
behind_wait_drained_example =
    behind_wait_drained closed_system
      (goes (enters {s = new_system} refl)
        (goes closes (goes (progresses (exits refl)) (goes (progresses (wakes refl)) stays))))
      refl

abbrev waiting_system : System
waiting_system = record {
  lifecycle = record { closing = true; active_count = 1 };
  inside = 1;
  asleep = 1;
  notified = 0;
  behind_wait = false;
}

shutdown_completes_example : MustEnd waiting_system
unfolding enter_run start_closing loop_test is_drained
shutdown_completes_example =
    shutdown_completes waiting_system (goes (enters {s = new_system} refl) (goes closes stays)) refl

abbrev registers_1 : Registers
registers_1 = record { runs = one_run; traces = none; attempts = none }

abbrev last_registers : Result Registers → Registers
last_registers (err x) = registers_1
last_registers (ok r) = r

abbrev last_row : Option RunRow → RunRow
last_row none = row_1
last_row (some r) = r

abbrev paused_row : RunRow
paused_row = last_row (lookup "r1" (last_registers (pause_running_states registers_1 9)).runs)

pause_running_states_settles_example : is_running paused_row.payload ≡ false
unfolding pause_running_states query_states AgentRunStatus-discrete lookup insert sorted_by
    scope_permits restore_checkpoint_data checkpoint_trace_tail
pause_running_states_settles_example =
    pause_running_states_settles registers_1 (last_registers (pause_running_states registers_1 9)) 9
      "r1" paused_row (refl, tt) refl refl

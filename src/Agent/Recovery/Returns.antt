-- ===== src/Agent/Recovery/Returns.antt =====
-- A recovery does not raise.
use evernight_ai.Prelude.{
  ℕ, String, ◌≡◌, true, none, map, arith, eq_iff, if◌then◌else◌, nat_eq, string_eq, option_eq,
  pair_eq, is_some, any, Result, ok,
}
use evernight_ai.Dict.{lookup, insert}
use evernight_ai.Dict.Laws.{lookup-insert}
use evernight_ai.Agent.{ToolExecutionAttempt, execution_status_eq}
use evernight_ai.Agent.Attempts.{Attempts}
use evernight_ai.Agent.Runs.{Runs, RunRow}
use evernight_ai.Agent.Events.{is_target}
use evernight_ai.Agent.Recovery.Readable.{AreReadable}
use evernight_ai.Agent.Recovery.{Stores}

-- The call returns.
abbrev pub Returns {κ} : {R : Type κ} → Result R → Type κ
Returns {R = R} m = (r : R) × (m ≡ ok r)

-- The table has an attempt with the key.
abbrev HasAttempt : Attempts → ToolExecutionAttempt → Type 0
HasAttempt table a = any (is_target none a) table ≡ true

abbrev written : ToolExecutionAttempt → Attempts → Attempts
written a table = map (λ b. if is_target none a b then a else b) table

-- The table has a row for the run.
abbrev pub HasRun : Runs → String → Type 0
HasRun runs k = is_some (lookup k runs) ≡ true

HasRun-self : (runs : Runs) (j : String) (r : RunRow) → HasRun (insert j r runs) j
HasRun-self runs j r = ground (arith, lookup-insert j j r runs, eq_iff j j)

-- A call that returns, keeps every run of the table, and leaves readable events.
abbrev Keeps : Runs → Result Stores → Type 0
Keeps runs m =
    (next : Stores) × (m ≡ ok next)
    × ((k : String) → HasRun runs k → HasRun next.runs k)
    × AreReadable next.traces

-- The same, with the number of runs.
abbrev KeepsCounted : Runs → Result (Stores × ℕ) → Type 0
KeepsCounted runs m =
    (next : Stores) × (n : ℕ) × (m ≡ ok (next, n))
    × ((k : String) → HasRun runs k → HasRun next.runs k)
    × AreReadable next.traces

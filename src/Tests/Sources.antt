-- ===== src/Tests/Sources.antt =====
-- The register of tools, at concrete inputs.
use evernight_ai.Prelude.{refl, none, [], ◌∷◌, nat_eq, string_eq, option_eq, pair_eq}
use evernight_ai.Dict.{lookup}
use evernight_ai.Tool.Register.{
  Snapshot, Registration, empty_snapshot, unregisters, replaces_source, replace_source, step, run,
}
use evernight_ai.Tool.Register.Sources.{ReplacedAt, replace_source_exact}
use evernight_ai.Tool.Register.Consistency.{
  IsConsistent, empty-IsConsistent, step-IsConsistent, run-IsConsistent,
}
use evernight_ai.Tool.Register.Ownership.{SameTool, run-SameTool}
use evernight_ai.Tests.Tools.{read_tool, echo}

abbrev read_registration : Registration
read_registration = record { tool = read_tool; executor = echo; preflight_policy = none }

-- The source `mcp` manages the tool `read`.
abbrev with_source : Snapshot
with_source = record {
  tools = ("read", read_tool) ∷ [];
  executors = ("read", echo) ∷ [];
  preflight_policies = [];
  source_owners = ("read", "mcp") ∷ [];
}

abbrev without_tools : Snapshot
without_tools = record { tools = []; executors = []; preflight_policies = []; source_owners = [] }

replace_source_exact_example : ReplacedAt with_source "mcp" none without_tools "read"
unfolding replace_source lookup
replace_source_exact_example =
    replace_source_exact with_source without_tools "mcp" [] (refl, tt) refl "read"

step-IsConsistent_example :
    IsConsistent (step (replaces_source "mcp" (read_registration ∷ [])) empty_snapshot)
step-IsConsistent_example =
    step-IsConsistent (replaces_source "mcp" (read_registration ∷ [])) empty_snapshot
      empty-IsConsistent

abbrev managed : Snapshot
managed = run (replaces_source "mcp" (read_registration ∷ []) ∷ []) empty_snapshot

run-SameTool_example :
    SameTool managed
      (run (unregisters "read" ∷ replaces_source "other" (read_registration ∷ []) ∷ []) managed)
      "read"
unfolding run lookup
run-SameTool_example =
    run-SameTool (unregisters "read" ∷ replaces_source "other" (read_registration ∷ []) ∷ [])
      managed "mcp" "read"
      (run-IsConsistent (replaces_source "mcp" (read_registration ∷ []) ∷ []) empty_snapshot
        empty-IsConsistent)
      refl (refl, (refl, tt))

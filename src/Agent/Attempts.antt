-- ===== src/Agent/Attempts.antt =====
-- application/agent_recovery.py: the numbered attempts to run a tool call.
pub mod Latest
use evernight_ai.Prelude.{
  ℕ, zero, suc, ◌+◌, ◌-◌, ◌*◌, ◌/◌, ◌≤◌, ◌<◌, max, String, ◌≡◌, refl, sym, ap, ◌∙◌, ◌≢◌, ◌↔◌, ◌⊎◌,
  inl, inr, Bool, true, false, not, ◌&&◌, ◌||◌, Option, none, some, List, [], ◌∷◌, ◌++◌, map,
  reverse, arith, eq_iff, ltb, leb, eqb, if◌then◌else◌, text_ltb, Eq, ◌==◌, nat_eq, nat_beq_iff,
  string_eq, option_eq, pair_eq, discrete_eq, string-discrete, nat-discrete, beq_refl, if_either,
  Bool-cases, Option-cases, is_some, or_else, when, text_ltb_asym, text_le_trans, length, keep, any,
  all, take, drop, get_elem?, All, length-append, length-keep-le, length-take, All-append,
  All-behind, All-keep, All-take, keep_sound, keep-append, keep_none, length-drop-le, All-keep_both,
  All-map, Result, ok, err, Error, ◌>>=◌, ◌>>◌, require, >>=-eq-ok, Result-cases, ok-injective,
}
use evernight_ai.Dict.{Dict, lookup, insert}
use evernight_ai.Tool.{ToolReplayPolicy, safe, idempotent, non_replayable}
use evernight_ai.Agent.{
  ToolExecutionAttempt, ToolExecutionStatus, ToolExecutionResolution, scheduled, started, completed,
  failed, unknown, retry, execution_status_eq, resolution_eq,
}

abbrev pub Attempts : Type 0
Attempts = List ToolExecutionAttempt

-- The loop's body: the attempt stays if nothing of its call is newer.
unfoldable pub newer : Option ToolExecutionAttempt → ToolExecutionAttempt → Bool
newer none a = true
newer (some current) a = ltb current.attempt a.attempt

unfoldable pub note_attempt :
    Dict String ToolExecutionAttempt → ToolExecutionAttempt → Dict String ToolExecutionAttempt
unfolding newer
note_attempt latest a =
    if newer (lookup a.tool_call_id latest) a then insert a.tool_call_id a latest else latest

unfoldable pub latest_from :
    Dict String ToolExecutionAttempt → Attempts → Dict String ToolExecutionAttempt
unfolding note_attempt
latest_from latest [] = latest
latest_from latest (a ∷ l) = latest_from (note_attempt latest a) l

-- `_latest_tool_execution_attempts`
unfoldable pub latest_tool_execution_attempts : Attempts → Dict String ToolExecutionAttempt
unfolding latest_from
latest_tool_execution_attempts l = latest_from [] l

-- `_round_tool_execution_attempts`
unfoldable pub round_tool_execution_attempts : Attempts → ℕ → Attempts
round_tool_execution_attempts l tool_round = keep (λ a. a.tool_round == some tool_round) l

-- `_has_unscoped_tool_execution`
unfoldable pub has_unscoped_tool_execution : Attempts → String → Bool
has_unscoped_tool_execution l k = any (λ a. not (is_some a.tool_round) && (a.tool_call_id == k)) l

highest : String → Attempts → ℕ
highest k [] = 0
highest k (a ∷ l) =
    let rest = highest k l in if a.tool_call_id == k then max a.attempt rest else rest

-- `_next_tool_execution_attempt`
unfoldable pub next_tool_execution_attempt : Attempts → String → ℕ
unfolding highest
next_tool_execution_attempt l k = highest k l + 1

unfoldable pub replays : ToolReplayPolicy → Bool
replays safe = true
replays idempotent = true
replays non_replayable = false

unfoldable pub attempt_can_resume : ToolExecutionAttempt → Bool
unfolding replays
attempt_can_resume a =
    if a.status == scheduled
    then true
    else if (a.status == completed) || (a.status == failed)
    then true
    else if a.resolution == some retry
    then true
    else replays a.replay_policy

-- `_tool_call_can_resume`
unfoldable pub tool_call_can_resume : String → Dict String ToolExecutionAttempt → Bool
unfolding attempt_can_resume
tool_call_can_resume k latest = elim (lookup k latest) [
  | none ↦ true
  | some a ↦ attempt_can_resume a
]

-- `_mark_started_executions_unknown`, for each attempt.
unfoldable pub mark_unknown : ToolExecutionAttempt → ToolExecutionAttempt
mark_unknown a = if a.status == started then record a { status = unknown } else a

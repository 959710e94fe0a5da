-- ===== src/Lib.antt =====
-- Verification of EvernightAI, a backend for conversations with language models: it stores
-- sessions, contexts and memories per owner, composes the messages that a provider is sent,
-- registers tools and decides which tool calls may run, and queues image tasks for workers. The
-- paths below start at the repository's root.
--
-- The program's parts interact as follows. A request comes with a principal, whom an API key may
-- stand for; the principal's scope goes with every call to the registers of sessions, contexts and
-- memories. For a chat, the organizer takes the stored messages of a context, and a pipeline of
-- strategies cuts them down to what the model takes. The model's answer may call tools: the tool
-- manager looks the tool up in the register, reads the mode that the owner set, asks the tool's
-- preflight policy and the safety policy, and only then runs the executor. An agent run does such
-- rounds in a loop and records each in its state and in a trace; a process works on a run under a
-- lease, and what another process left behind is restored from the trace at startup. Image tasks
-- wait in a store until a worker claims them under a lease.
--
-- Files, and the code that each models (below src/EvernightAI):
--   Prelude, Dict, Value   Python's tests, lists, exceptions, `dict` and JSON-like values
--   Auth, Auth/Policy      core/schema/auth.py, core/domain/auth.py
--   Registry               the registers of core/domain/{session,context,memory}.py, once
--   Session                core/domain/session.py: SessionRegister.list_sessions, SessionManager
--   Memory                 core/domain/memory.py: MemoryRegister, MemoryManager
--   Memory/Query           BasicMemoryStrategy
--   Context/Retry          application/retry.py
--   Context                core/domain/context.py: ContextRegister, ContextManager, and
--                          append_message of core/protocol/context.py
--   Content                core/schema/content.py, core/schema/context.py
--   Context/Organizer      ContextOrganizer
--   Context/Groups         the message groups, the system prefix and the protected messages
--   Context/Selection      _preserve_system_prefix and TokenBudgetContextStrategy._within_budget
--   Context/Strategy       the four strategies and their compositions
--   Tool                   core/schema/tool.py
--   Tool/Register          ToolRegister of core/domain/tool.py
--   Tool/PolicyStore       core/domain/tool_policy.py
--   Tool/Safety            BasicToolSafetyPolicy
--   Tool/Manager           ToolManager
--   ImageTask              core/domain/image_task.py, core/schema/image_task.py
--   Agent                  core/schema/agent.py, core/schema/trace.py
--   Agent/State            application/agent_state.py
--   Agent/Attempts, Agent/Trace, Agent/Replay, Agent/Checkpoint, Agent/Recovery
--                          application/agent_recovery.py: the attempts of tool calls, the part of
--                          a trace to replay, its replay, the checkpoint, the recovery at startup
--   Agent/Runs             SQLiteAgentRunStateRegister of infra/adapters/agent/sqlite.py
--   Agent/Events           SQLiteAgentTraceRegister, SQLiteToolExecutionRegister
--   Agent/Lifecycle        application/agent_lifecycle.py
--   ApiKey                 core/domain/api_key.py, infra/adapters/api_key.py and
--                          core/schema/api_key.py
--   Skill, Skill/Template  core/domain/skill.py, core/schema/skill.py and
--                          infra/adapters/skill/sqlite.py
--   Skill/Render           SkillManager.render, application/skill_prompt.py
--   Tests                  the theorems at concrete inputs, and runs
--
-- State is passed explicitly: an operation takes the dictionary or the snapshot of its object and
-- returns the next one, `Result` where the code raises; a `step` function takes one call, and a
-- call that raises leaves the state as it was, but the restoring of skill templates, which keeps
-- what it had restored. Each operation is the function of the same name, in the module of its
-- class. Clocks, the identity of a new message, token estimators, summarizers, tool executors and
-- preflight policies are arguments, since they are objects that the program is handed. Times are
-- natural numbers. An SQL statement is what it does to the rows of its table, and a table is a
-- dictionary by its primary key or a list of rows. The coroutines of the agent lifecycle are a
-- step relation: what happens under the lock of its condition is one step, a shutdown that waits
-- sleeps, and only `notify_all` wakes it.
--
-- Loops over lists are structural. Two loops of the context code jump ahead in the list:
-- `safe_from` and `groups_from` run on fuel, and get the length of the list, which is enough since
-- every round uses up at least one message; the theorems speak of the functions with that fuel.
--
-- Not modelled, since they are I/O, wiring or other languages: the HTTP and command line
-- interfaces, the adapters to providers, sandboxes and SQLite but the registers of agent runs, API
-- keys and skill templates, configuration, and the web frontend. The loop that executes an agent
-- run, providers, the shell policy and the authorized interface have no model yet. Free-form
-- metadata is left out where the modelled code only hands it on. A memory's relevance and
-- confidence, floats between 0 and 1, are natural numbers of a unit of which every float is a
-- multiple; Python's case folding, stripping, splitting into words and search in texts are a
-- record of functions that the selection of memories is given.
pub mod Prelude
pub mod Dict
pub mod Value
pub mod Auth
pub mod Registry
pub mod Tool
pub mod Content
pub mod Session
pub mod Memory
pub mod Context
pub mod Agent
pub mod ApiKey
pub mod Skill
pub mod ImageTask
pub mod Tests

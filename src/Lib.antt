-- ===== src/Lib.antt =====
-- A company of software agents: each agent is served by a supervisor, which owns the agent's address,
-- its lifecycle, its tasks and their records, and which stands between a provider (a language model
-- that answers with text and action intents) and the outside: a message gateway, and the other
-- agents, to which it delegates over the A2A protocol.
--
-- The parts and their files:
-- - Address: core/address/address.go. New, Parse, Name and Tenant of an address `name/tenant`.
-- - Policy: core/policy/engine.go and token.go. Classify decides an action intent in two stages, the
--   role and the risk; tokens are issued and are consumed when they are validated. Payload: payload.go.
-- - Fsm: core/supervisor/state.go, the lifecycle of a supervisor with its count of workers.
-- - Context: core/supervisor/context.go, the transcript cut to a budget.
-- - Task: the record of a task (core/supervisor/store.go) and the count of its rounds. Port: the
--   data of core/port that a supervisor exchanges.
-- - Store: core/supervisor/store.go, the files of task records: Store.save, load, load_all and
--   delete are Save, Load, LoadAll and Delete; save_records and load_records are save and load.
-- - Supervisor: core/supervisor/supervisor.go and watcher.go. World has the configuration, the state
--   and the monad of the methods. Action has executeAction, executeDelegation and outcomeForPeer;
--   Watchers parkOnPeer, repark, watchPeer and the watcher table; Intents splitFinishTask and
--   runIntents; Rounds runRounds; Resume executeResume and resumeFromPeer; FollowUp seedFollowUp;
--   Execute Execute and Cancel; Recovery RecoverOpenTasks.
-- - Mcp: transport/mcp/sink.go, registry.go and tools.go, the server through whose tools a provider's
--   turn records its intents. Steps and Drained put an adapter's turn among the steps of others.
--   Advertised has the schemas of the tools, Logging the outcomes in logging.go.
-- - Schema: config/schema.go, the company file. Names has its regular expressions, Yaml the decoded
--   values, Agent and Servers the fields of an agent, Load the function Load.
-- - Pi: adapters/pi. Flat, Probe and Allowlist are mcp_probe.go and toolsAllowlist; Stream is
--   parseStream and Turn is RunTask of adapter.go.
-- - A2a: transport/a2a, the directory of peers, the client that implements Delegator, the retries of a
--   cancel and the interceptors of the server.
-- - Ui: cmd/company/company_ui.go and supervisorUIAdapter of cmd/company/wire.go; Routes has the API
--   routes of ui/handler.go, Events its stream of events and Served what the clients get.
-- - Gateway: gateways/telegram/gateway.go.
-- - Cli: adapters/claudecode and adapters/opencode. Text cuts their output, Turn is the RunTask that
--   they share, Claude and Opencode are how each reads its output, its arguments and its probe.
-- - Wire: cmd/company/wire.go. Agents is the loop of materializeAgents over the agents, with New of
--   transport/a2a/server.go; Startup is the rest of it.
-- - Tests: concrete inputs.
-- The proofs on the supervisor go through two general results: Keeps, with Closed, shows that what
-- the primitive steps preserve is preserved by every method, and Total that every method ends.
--
-- A method is a function from a World (the disk, the machine, the issued tokens, the events and
-- effects so far, the watchers) to an outcome and a World. What a supervisor is told from outside (the
-- provider's answers, the results of sends, of delegations and of polls, whether the consumer of the
-- events goes on, random tokens, the clock) is given by the functions of Env, at a counter of the
-- questions asked; the theorems hold for all of them. A call that leaves the process is an Effect.
-- Go's panics are the outcome `panic`, with the deferred functions written out.
--
-- Parameters. The a2a package's TaskState.Terminal is a field of Task.Protocol, with its documented
-- values at the named states. The operations of the file system and the JSON encoder fail by the
-- function Faults; a rename replaces its target or changes nothing, and a failed write leaves a torn
-- temporary file. Text formatting (quoting, decimal numbers) is given by functions of Env. Reading and
-- decoding the company file, its paths and the existence of files are arguments of Schema.Load.load. The
-- JSON events of pi, the sessions with MCP servers and the course of a process are arguments in Pi; the
-- network and the handler of the a2a library are the records Network and Outside; the environment, the
-- ports, the directories and the answers of the probes at the start of a company are the record
-- Machine; decoding the lines of claude and opencode is an argument in Cli; base64url is an
-- argument in Ui, injective and without dots where a theorem needs it. Random tokens are arguments.
--
-- Bounds. The loop of runRounds has as fuel the cap on rounds, the length of an inherited transcript
-- and one: each further round adds a provider turn, and the loop is left at the cap. Integers of the
-- configuration are not negative. The retries of a cancel have fuel: 401 rounds suffice where a wait
-- takes its five milliseconds.
--
-- Not modelled: mutexes and parallel executions (an execution is one sequence of steps), the ticker
-- of a watcher (its tick is a step), the loggers; how the command line tools read their arguments; the
-- argument list and the model probe of pi, the temporary files and the environment of a process, the
-- HTTP servers and main.go, which are input and output around this core.
pub mod Common
pub mod Fsm
pub mod Port
pub mod Task
pub mod Policy
pub mod Address
pub mod Context
pub mod Store
pub mod Supervisor
pub mod Mcp
pub mod Schema
pub mod Pi
pub mod A2a
pub mod Ui
pub mod Wire
pub mod Cli
pub mod Gateway
pub mod Tests

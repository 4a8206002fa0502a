-- ===== src/Lib.antt =====
-- A model of NILScript, a language in which an agent proposes writes to a business system, with
-- the theorems that make it correct. Paths are from the repository's root.
--
-- The parts and how they interact. A program is admitted by the kernel's validator and walked by
-- the kernel's executor, which drives an adapter through the SDK's client. An approval of a
-- proposal is held and decided in the control plane's store, which also keeps the events, the
-- adapters and the versioned automations; the automation dispatcher fires the plan of an armed
-- version and records the run in that store. Refusals are repaired, and committed steps unwound,
-- by the command line's library; bulk writes go through the data plane.
--
-- Kernel (src/nilscript/kernel). Kernel/Program is models.py, Kernel/Graph is graph.py with
-- `_successor_targets`, Kernel/References is references.py, Kernel/Diagnostics and Kernel/Context
-- are the files of those names. Kernel/Validator and its children are validator.py, one child for
-- each pass (`_check_references`, `_check_whitelist`, `_check_arguments`,
-- `_check_output_references`, `_check_reachability`), and Kernel/Acyclicity is
-- `_check_acyclicity`. Kernel/Admission has what the verdict promises. Kernel/Executor is
-- executor.py: Steps is `_walk` and `_execute`, Unwind is `_compensate` and `execute`; the
-- `self._…` fields that a walk changes are the record `Walk`. Kernel/Prerequisites is
-- `plan_prerequisites` and Kernel/PrerequisiteSaga is `run_prerequisite_saga` of
-- prerequisites.py.
-- Kernel/Guards is guards.py: Words and Tokens are `_TOKEN`, `_tokenize` and `_rewrite_has`, Compare
-- is what Python's operators do to the values, Parser is `_Parser`, Evaluate is `evaluate_guard`;
-- Grammar is the grammar at the top of that file by itself, for comparison.
-- SDK (src/nilscript/sdk). Sdk/Breaker, Sdk/Transport (`_request`), Sdk/Events (`EventDeduper`),
-- Sdk/Grants (`scope_allows`), Sdk/Ceilings (`floor_tier`) and Sdk/Idempotency are the files of
-- those names.
-- Control plane (src/nilscript/controlplane/store.py). Each child of ControlPlane is one table
-- with the operations of `EventStore` on it: Events (`ingest`), Approvals, Adapters, Automations,
-- Runs. A table is the list of its rows; a statement is one function on it, since the store's
-- lock makes every operation atomic.
-- ControlPlane/Decisions is `post_decision` and `_execute_approved` of app.py, and ControlPlane/Api
-- its endpoints that write to the registries, behind `_registry_authed`.
-- Automation (src/nilscript/automation). Automation/Dispatch is `fire_manual` and
-- Automation/Composed is `fire_composed` of dispatch.py; Automation/Triggers is triggers.py, with the
-- calendar in Clock and the cron fields in Cron; Automation/Scheduler is scheduler.py,
-- Automation/Skeleton, Automation/Authoring and Automation/Compose are the files of those names.
-- MCP server (src/nilscript/mcp). Mcp/Gate is `_remember`, `_gate_decision` and `commit` of tools.py,
-- and Mcp/Tenant is tenant.py with the lookup of registry.py.
-- Command line (src/nilscript/cli/repair.py). Cli/Repair is `run_repair_loop` and
-- `run_saga_unwind`.
-- Data plane (src/nilscript/dataplane). DataPlane/Bulk is `run_bulk` of bulk.py, and
-- DataPlane/Export is `ExportStore` of export.py.
-- Base has the names that the other modules share.
--
-- What is outside the repository is an argument: the HTTP client and the clock of the transport,
-- the runner of a plan or of a stage, the host of the repair loop, the callbacks of a bulk write,
-- SHA-256, the parses by pydantic. The executor takes the client, which stands for the adapter, and
-- the guard engine as arguments; `guard_engine` of Kernel/Guards/Evaluate is the engine of the code.
-- The gate takes the calls of the control plane as arguments.
--
-- Fuel. The topological sort takes as much fuel as there are nodes, and pops no node twice. A
-- walk of the executor takes 256 units, the largest size of a pipeline: a step and a nested walk
-- take one unit each and lead to a later place of the topological order. The search of V6 takes
-- the number of all targets and two. The planner of prerequisites takes the number of verbs with
-- prerequisites and two, since the verbs of a path do not repeat. A guard's tokenizer and its
-- rewriting take the length of the text, and its parser five units for each token and five, since
-- five calls at most stand between two that take a token. Batches and approval polls are
-- bounded by the length of the list and the number of polls.
--
-- Not modelled: messages and display texts; the splitting of `carry`; the wire shapes of the
-- sentences; the handlers of controlplane/app.py that ingest events, run and tick, draft composed
-- plans or only read; the queries and intents of mcp/tools.py; the rest of the data plane, of the
-- command line and of the MCP server; the demonstrations. Numbers with a fraction, texts beyond
-- ASCII in references, guards and cron fields, Python's limits on recursion, and the interleaving of
-- the branches of a parallel node are not modelled either.
pub mod Base
pub mod Sdk
pub mod Kernel
pub mod ControlPlane
pub mod Automation
pub mod DataPlane
pub mod Cli
pub mod Mcp

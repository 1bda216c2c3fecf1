-- ===== src/Lib.antt =====
-- Konf: an operating layer for agents. The substrate (crates/konflux-substrate) executes workflows
-- of tool calls; the runtime (crates/konf-runtime) decides what may run: it keeps the process
-- table, checks capabilities, injects bindings, applies guards, and meters budgets.
--
-- The parts and their files:
--   * Capability: crates/konflux-substrate/src/envelope.rs and capability.rs. `Capability::matches`
--     is `matches`, `CapSet::check_access` is `check_access`, `CapSet::attenuate` is `attenuate`.
--     Covers says what a pattern means, Access what a set allows, Attenuate what delegation keeps.
--   * Envelope: the `Envelope` of envelope.rs, with `respond` and `for_tool_dispatch`.
--   * Process: crates/konf-runtime/src/process.rs, the table of runs. Count is about
--     the numbers of runs, Collect about `gc`, Parents about the parents of runs.
--   * Scope: crates/konf-runtime/src/scope.rs. Check is about `check_tool`, Child and Descent about
--     `child_scope`, Limits about `validate_start` and `ResourceLimits::validate`, Transport about
--     `to_envelope` and `from_envelope`.
--   * Guard: crates/konf-runtime/src/guard.rs. Evaluate is about `GuardedTool`, Paths about
--     `resolve_path`, Glob and its children about `glob_matches`.
--   * Context: crates/konf-runtime/src/context.rs, `VirtualizedTool`.
--   * Budget: crates/konf-runtime/src/budget.rs, `BudgetTable`.
--   * Journal and EventBus: the records of crates/konflux-substrate/src/journal.rs,
--     crates/konf-runtime/src/interaction.rs and event_bus.rs; Execution: execution_context.rs.
--   * Wrapping: the layers round a tool, from dispatcher.rs and `Runtime::build_scoped_engine` of
--     runtime.rs. Layers is about one tool, Scoped about the engine of a scope.
--   * Dispatcher: crates/konf-runtime/src/dispatcher.rs, `dispatch_tool` step by step. Cases says
--     how it can go, Effects what its caller, the journal and the bus see of it, Safe what stands before a tool, Replay what a repeated key gives, Metadata
--     what the envelope carries on.
--   * WorkflowTool: crates/konf-runtime/src/workflow_tool.rs, a workflow called as a tool.
--   * RedbJournal: crates/konf-runtime/src/journal/redb.rs. Keys is about the index of idempotency
--     keys, Queries about `query` and `recent`, Indexes about what a deletion leaves of the rows
--     and indexes, Valid about sequences of appends and deletions.
--   * Runtime: the life of a run in crates/konf-runtime/src/runtime.rs, `start`, the end of its
--     task, `cancel` and `gc`. Steps has these in any order, where the check of a start and its
--     entry into the table are two steps. Counts and Limit are about the running runs of a
--     namespace, Cancel about `cancel`, Finish about the end of a run.
--   * Schema: crates/konflux-substrate/src/parser/schema.rs, the parsed workflow.
--   * Validator: crates/konflux-substrate/src/parser/validator.rs. Tools and Nodes are about
--     `validate_node`, Acyclicity, Failure, Reached and Total about `dfs`, Sound about `validate`.
--   * Workflow: crates/konflux-substrate/src/workflow.rs, the compiled workflow. Engine: the
--     configuration in engine.rs. Template: template.rs, the inputs of a step; Template.Pure is
--     about references.
--   * Executor: crates/konflux-substrate/src/executor.rs, with the errors of error.rs and
--     `can_run`. Backoff is `calculate_backoff`, Retry is `invoke_with_retry`, Edges is
--     `evaluate_edges_targets`, Call is `execute_step`, Node is the task of `spawn_node`, Loop is
--     the loop of `execute` as a step relation. Their children are about how these go:
--     Retry.Course and Retry.Delays, Edges.Order and Edges.Picked, Call.Allowed, Node.Total,
--     Node.Messages and Node.Endless, Loop.Rule (what each step keeps), Loop.Todo and Loop.Accounts (the messages
--     and the counters), Loop.Bounds, Loop.Complete and Loop.Lost.
--   * Expr: crates/konflux-substrate/src/expr.rs, the evaluator of conditions. Values has the
--     values and their comparison, Basic the literals and references, Eval the operators,
--     Conditions the evaluator as the executor calls it. Parts, Fuel and Total are about the
--     fuel, Laws about `||`.
--   * Scheduler: crates/konf-runtime/src/scheduler.rs, the durable timers. Tables is about the
--     two tables, Reach about sequences of operations, Firing and Fires about `tick`, Race about
--     `cancel`.
--   * RunnerIntents: crates/konf-runtime/src/runner_intents.rs. Keys is about the ids, Listing
--     about the lists, Collect about `gc`, Replay about sequences of operations.
--   * Shared: Boolean tests, lists, text, results, maps, JSON values and signed numbers.
-- A workflow is validated before it runs (Validator, on a Schema) and compiled (Workflow). Runtime
-- starts it under a scope, with an engine of wrapped tools (Wrapping); the Executor runs its steps.
-- The Scheduler starts workflows at their times, and RunnerIntents keeps what is to be run again
-- after a restart. A dispatch checks a call against its scope (Scope), wraps the tool in its
-- bindings (Context) and its guards (Guard), hands it an Envelope with the scope's patterns
-- (Capability), and writes the call to a journal (Journal, RedbJournal). A workflow can be such a
-- tool (WorkflowTool).
--
-- Conventions: text is a list of code points, UUIDs and times are natural numbers, durations of the
-- executor are in nanoseconds, and a fresh UUID or the current time is an argument of the function
-- that asks for it. A concurrent map or a table behind a lock is a value that each operation takes
-- and returns; operations under one lock are atomic steps. Where a function lets go of the state
-- between two of its steps, what happens there is an argument of it (`start`, and `gc` of
-- RunnerIntents), or the steps are separate ones of a relation or a sequence. What the surroundings
-- of a task or of an attempt do is a function of the turn's or the attempt's number. Fallible code
-- returns a `Result`. Numbers of w bits wrap at 2 ^ w.
--
-- Fuel: the loop of `glob_matches` takes (length of the text + 1) * (length of the pattern + 1)
-- rounds; each round shortens the pattern, or moves the retry position on and starts at most a
-- whole pattern again, so it ends before the fuel does. The depth first search of the validator
-- takes one more than the number of nodes: each call that goes deeper has visited one more of
-- them. The fuel of `cancel` bounds the depth of the children; as no run has a parent, one unit
-- is enough. The attempts of `invoke_with_retry` recur on the number that is left. The task of a
-- node takes fuel for its turns: where its steps have ranks that fall along the edges and gotos,
-- (rank + 1) * (repetitions + 1) turns are enough, and Node.Endless shows that without such ranks
-- no fuel is. The loop of `execute` is a relation and has no fuel. `evaluate` takes the length of
-- the expression and one: an expression in another is shorter.
--
-- Not modelled: HTTP and MCP front ends, process start-up, the tool crates and storage (pure
-- I/O); what the tools answer is a function given to the model. Of runtime.rs the journal entries
-- about runs, start_streaming and the polling of wait; of redb.rs the queries by run and by
-- session, the aggregates, the reconciliation of interrupted runs and failures of the database.
-- Of the executor the streams and the times that it reports; of workflow.rs `Workflow::validate`.
-- minijinja is an argument of Template; floats and the debug format of values are arguments of
-- Expr. Not modelled of the parser are the compiler and the dependency graph.

pub mod Shared
pub mod Capability
pub mod Envelope
pub mod Process
pub mod Scope
pub mod Guard
pub mod Context
pub mod Budget
pub mod Journal
pub mod EventBus
pub mod Execution
pub mod RedbJournal
pub mod Wrapping
pub mod Dispatcher
pub mod WorkflowTool
pub mod Runtime
pub mod Schema
pub mod Validator
pub mod Workflow
pub mod Scheduler
pub mod RunnerIntents
pub mod Template
pub mod Engine
pub mod Executor
pub mod Expr

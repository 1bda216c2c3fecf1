-- ===== src/Runtime.antt =====
-- The life of a run in crates/konf-runtime/src/runtime.rs: `start` up to the spawned task, the end
-- of the task, `cancel` and `gc`. A run id is fresh and a time read by the caller; what the engine
-- returns is given to the end of the task. The journal's entries about runs are left out. Times are
-- nanoseconds, and the counters of type `u64` wrap.
pub mod Steps
pub mod Counts
pub mod Limit
pub mod Cancel
pub mod Finish
mod Tests
use konf.Shared.{
  ℕ, zero, suc, ◌+◌, ◌-◌, ◌/◌, ◌%◌, ◌^◌, Bool, true, false, not, Option, none, some, List, [], ◌∷◌,
  if◌then◌else◌, Text, Json, Result, ok, err,
}
use konf.Process.{
  WorkflowRun, ProcessTable, RunStatus, running, completed, failed, cancelled, get, insert, update,
  children_of, gc, is_running, is_terminal,
}
use konf.Scope.{
  ExecutionScope, RuntimeError, run_not_found, run_not_running, validate_start, capability_patterns,
}
use konf.EventBus
use konf.EventBus.{RunEvent, run_started, run_completed, run_failed, run_cancelled}

pub record Runtime : Type 0 where
  pub table : ProcessTable
  pub total_completed : ℕ
  pub total_failed : ℕ
  pub total_cancelled : ℕ

-- The entry that `start` makes. The parent is never set.
abbrev pub run_of : (run_id now : ℕ) (workflow_id : Text) (scope : ExecutionScope) → WorkflowRun
run_of run_id now workflow_id scope = record {
  id = run_id;
  parent_id = none;
  workflow_id = workflow_id;
  namespace = scope.namespace;
  actor = scope.actor;
  capabilities = capability_patterns scope;
  metadata = [];
  started_at = now;
  status = running;
  completed_at = none;
  active_nodes = [];
  steps_executed = 0;
  cancel_token = false;
}

-- The arguments of a call of `start`, with what it mints and reads.
pub record Start : Type 0 where
  pub run_id : ℕ
  pub now : ℕ
  pub workflow_id : Text
  pub scope : ExecutionScope

abbrev pub entry_of : Start → WorkflowRun
entry_of s = run_of s.run_id s.now s.workflow_id s.scope

-- The second half of `start`, up to the journal: the run enters the table and is announced.
unfoldable pub enter : Start → Runtime → Runtime × List RunEvent
enter s self = (
  record self { table = insert (entry_of s) self.table },
  run_started s.run_id s.workflow_id s.scope.namespace none s.now ∷ [],
)

abbrev pub enter_after :
    Start
    → (between : Runtime → Runtime) → Runtime
    → Result (Unit {0}) RuntimeError
    → Result ℕ RuntimeError × Runtime × List RunEvent
enter_after s between self (err e) = (err e, self, [])
enter_after s between self (ok u) =
    let (self', events) = enter s (between self) in (ok s.run_id, self', events)

-- `Runtime::start`, up to the journal. The table is checked first, and the run enters it later,
-- without a lock: `between` is what the other tasks do in the meantime.
unfoldable pub start :
    Start
    → (between : Runtime → Runtime) → Runtime
    → Result ℕ RuntimeError × Runtime × List RunEvent
start s between self = enter_after s between self (validate_start s.scope self.table)

-- What the engine's run came to. An error has its text, and says whether it is a cancellation.
pub data RunResult : Type 0 where
  output : Json → RunResult
  failure : (cancellation : Bool) (error : Text) → RunResult

abbrev pub started_at_or : ℕ → Option WorkflowRun → ℕ
started_at_or now none = now
started_at_or now (some run) = run.started_at

abbrev pub terminal_status : ℕ → RunResult → RunStatus
terminal_status duration_ms (output v) = completed duration_ms v
terminal_status duration_ms (failure true error) = cancelled error duration_ms
terminal_status duration_ms (failure false error) = failed error duration_ms

abbrev pub ended : (now duration_ms : ℕ) → RunResult → WorkflowRun → WorkflowRun
ended now duration_ms result run = record run {
  completed_at = some now;
  status = terminal_status duration_ms result;
}

abbrev pub add_one : ℕ → ℕ
add_one n = (n + 1) % 2 ^ 64

abbrev pub counted : RunResult → Runtime → Runtime
counted (output v) self = record self { total_completed = add_one self.total_completed }
counted (failure true error) self = record self { total_cancelled = add_one self.total_cancelled }
counted (failure false error) self = record self { total_failed = add_one self.total_failed }

abbrev pub announced : (run_id duration_ms : ℕ) → RunResult → RunEvent
announced run_id duration_ms (output v) = run_completed run_id duration_ms
announced run_id duration_ms (failure true error) = run_cancelled run_id error
announced run_id duration_ms (failure false error) = run_failed run_id duration_ms error

abbrev pub duration_of : (run_id now : ℕ) → Runtime → ℕ
duration_of run_id now self = (now - started_at_or now (get run_id self.table)) / 1_000_000

-- The end of the task that `start` spawns, once the engine has returned.
unfoldable pub finish : (run_id now : ℕ) → RunResult → Runtime → Runtime × List RunEvent
finish run_id now result self =
    let duration_ms = duration_of run_id now self in
    (
      counted result
          (record self { table = update run_id (ended now duration_ms result) self.table }),
      announced run_id duration_ms result ∷ [],
    )

abbrev pub with_token : WorkflowRun → WorkflowRun
with_token run = record run { cancel_token = true }

abbrev pub Cancelled : Type 0
Cancelled = Result (Unit {0}) RuntimeError × ProcessTable

-- The calls for the children that are not over; their results are dropped.
unfoldable pub cancel_children :
    (ℕ → ProcessTable → Cancelled) → ProcessTable → ProcessTable → ProcessTable
cancel_children cancel [] table = table
cancel_children cancel (child ∷ children) table =
    cancel_children cancel children
      (if is_terminal child.status then table else (cancel child.id table).1)

abbrev pub cancel_found :
    (ℕ → ProcessTable → Cancelled) → (run_id : ℕ) → Option WorkflowRun → ProcessTable → Cancelled
cancel_found cancel run_id none table = (err (run_not_found run_id), table)
cancel_found cancel run_id (some run) table =
    if is_running run.status
    then (let marked = update run_id with_token table in
        (ok tt, cancel_children cancel (children_of run_id marked) marked))
    else (err (run_not_running run_id), table)

-- `Runtime::cancel`, on fuel for the depth of the children; where it is used up nothing is done.
unfoldable pub cancel : ℕ → ℕ → ProcessTable → Cancelled
cancel zero run_id table = (ok tt, table)
cancel (suc fuel) run_id table = cancel_found (cancel fuel) run_id (get run_id table) table

-- `Runtime::gc`; the caller has taken the maximal age from the time.
unfoldable pub collect : (cutoff : ℕ) → Runtime → Runtime
collect cutoff self = record self { table = gc cutoff self.table }

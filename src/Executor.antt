-- ===== src/Executor.antt =====
-- crates/konflux-substrate/src/executor.rs: the shared parts of the executor, with the errors of
-- error.rs. Backoff and Retry are the calls of one tool, Edges the choice of the next steps, Node
-- the task that runs a node, and Loop the loop that starts the tasks.
pub mod Backoff
pub mod Retry
pub mod Call
pub mod Edges
pub mod Node
pub mod Loop
use konf.Shared.{
  ℕ, suc, ◌||◌, Bool, true, false, Option, none, some, List, [], ◌∷◌, if◌then◌else◌, leb, ltb, ◌==◌,
  length, Text, text, Table, insert, lookup, is_some, Json,
}
use konf.Capability.{ToolError}
use konf.Validator.{ValidationError}
use konf.Workflow.{Step, JoinPolicy}

pub data ParseError : Type 0 where
  invalid_yaml : (message : Text) → ParseError
  missing_field invalid_value : Text → Text → ParseError

pub data ExecutionError : Type 0 where
  node_failed : (workflow_id node message : Text) → ExecutionError
  timed_out : (workflow_id node : Text) (timeout_ms : ℕ) → ExecutionError
  max_steps_exceeded : (workflow_id : Text) (max : ℕ) → ExecutionError
  join_failed : (workflow_id node message : Text) → ExecutionError
  cancelled : (workflow_id : Text) → ExecutionError

pub data KonfluxError : Type 0 where
  parse : ParseError → KonfluxError
  validation : ValidationError → KonfluxError
  execution : ExecutionError → KonfluxError
  tool : ToolError → KonfluxError
  capability_denied : Text → KonfluxError

-- What the tasks of a workflow share.
pub record State : Type 0 where
  pub outputs : Table Json
  pub errors : Table Text

unfoldable pub set_output : Text → Json → State → State
set_output node_id value self = record self { outputs = insert node_id value self.outputs }

unfoldable pub set_error : Text → Text → State → State
set_error node_id message self = record self { errors = insert node_id message self.errors }

unfoldable pub is_completed : State → Text → Bool
is_completed self node_id =
    is_some (lookup node_id self.outputs) || is_some (lookup node_id self.errors)

-- How many of the dependencies are completed.
unfoldable pub completed_deps : State → List Text → ℕ
completed_deps state [] = 0
completed_deps state (dep ∷ deps) =
    let n = completed_deps state deps in if is_completed state dep then suc n else n

unfoldable pub join_allows : JoinPolicy → (completed all : ℕ) → Bool
join_allows JoinPolicy.all completed n = completed == n
join_allows JoinPolicy.any completed n = ltb 0 completed
join_allows (JoinPolicy.quorum min) completed n = leb min completed
join_allows JoinPolicy.lenient completed n = true

-- `Executor::can_run`
unfoldable pub can_run : Step → State → Bool
can_run step state =
    if length step.depends_on == 0
    then true
    else join_allows step.join (completed_deps state step.depends_on) (length step.depends_on)

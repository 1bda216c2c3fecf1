-- ===== src/WorkflowTool.antt =====
-- crates/konf-runtime/src/workflow_tool.rs: a workflow as a tool. `Runtime::run`, with the workflow,
-- is the function `run`; how a UUID and a number are printed is given in a record.
pub mod Nested
mod Tests
use konf.Shared.{
  ℕ, Bool, false, none, List, [], ◌∷◌, ◌++◌, Text, text, Json, Result, ok, err, ◌>>=◌,
}
use konf.Capability.{ToolError, execution_failed}
use konf.Envelope.{Envelope, respond}
use konf.Scope.{
  ExecutionScope, RuntimeError, run_not_found, run_not_running, resource_limit, capability_denied,
  deadline_exceeded, tool_failed, engine_error, join_failed, journal_error, child_scope,
  from_envelope,
}
use konf.Execution.{ExecutionContext, context_of}

pub record Printer : Type 0 where
  pub uuid : ℕ → Text
  pub decimal : ℕ → Text

-- The `Display` text of a runtime error. The engine's and the journal's errors carry theirs.
unfoldable pub describe_runtime : Printer → RuntimeError → Text
describe_runtime p (run_not_found id) = text "workflow run not found: " ++ p.uuid id
describe_runtime p (run_not_running id) =
    text "workflow run " ++ (p.uuid id ++ text " is not running")
describe_runtime p (resource_limit limit value) =
    text "resource limit exceeded: " ++ (limit ++ (text " (max " ++ (p.decimal value ++ text ")")))
describe_runtime p (capability_denied what) = text "capability denied: " ++ what
describe_runtime p (deadline_exceeded tool) =
    text "deadline exceeded for tool '" ++ (tool ++ text "'")
describe_runtime p (tool_failed tool message) =
    text "tool '" ++ (tool ++ (text "' failed: " ++ message))
describe_runtime p (engine_error what) = text "engine error: " ++ what
describe_runtime p (join_failed what) = text "join failed: " ++ what
describe_runtime p (journal_error what) = text "journal: " ++ what

abbrev pub Run : Type 0
Run = Json → ExecutionScope → ExecutionContext → Result Json RuntimeError

-- `map_err` with the prefix of the message.
abbrev pub failed_with {ℓ} :
    {A : Type ℓ} → Printer → Text → Result A RuntimeError → Result A ToolError
failed_with p prefix (ok a) = ok a
failed_with p prefix (err e) = err (execution_failed (prefix ++ describe_runtime p e) false)

abbrev pub child_refused : Text
child_refused = text "Failed to create child scope: "

-- The scope that the workflow runs under.
unfoldable pub nested_scope : Printer → Envelope Json → Result ExecutionScope ToolError
nested_scope p env =
    let caller = from_envelope env in
    failed_with p child_refused (child_scope caller caller.capabilities none)

abbrev pub workflow_failed : Text → Text
workflow_failed id = text "Workflow '" ++ (id ++ text "' failed: ")

-- `WorkflowTool::invoke`
unfoldable pub workflow_tool :
    (p : Printer) (fresh now : ℕ) (id : Text) (run : Run)
    → Envelope Json
    → Result (Envelope Json) ToolError
workflow_tool p fresh now id run env = nested_scope p env >>= λ child.
    failed_with p (workflow_failed id) (run env.payload child (context_of env)) >>= λ output.
    ok (respond fresh now env output)

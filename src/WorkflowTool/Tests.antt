-- ===== src/WorkflowTool/Tests.antt =====
-- A workflow that an agent calls as a tool, and the theorems about its scope.
use konf.Shared.{none, [], ◌∷◌, text, Table, Json, null, string}
use konf.Process.{user_agent}
use konf.Scope.{ExecutionScope, default_limits}
use konf.Execution.{new_root}
use konf.Dispatcher.{Moment, Call}
use konf.WorkflowTool.{Printer}

abbrev bound : Table Json
bound = (text "namespace", string (text "konf:a")) ∷ []

abbrev agent : ExecutionScope
agent = record {
  namespace = text "konf:a";
  capabilities = record { pattern = text "memory:*"; bindings = bound } ∷ [];
  limits = default_limits;
  actor = record { id = text "bot"; role = user_agent };
  depth = 3;
}

abbrev call : Call
call = record {
  tool_name = text "workflow:demo";
  input = null;
  scope = agent;
  ctx = new_root 1 (text "s");
  registry = [];
}

abbrev moment : Moment
moment = record {
  now = 0;
  envelope_id = 1;
  emitted_at = 0;
  interaction_id = 2;
  started_at = 0;
  ended_at = 0;
  state_before_hash = none;
  state_after_hash = none;
}

abbrev printer : Printer
printer = record { uuid = λ n. []; decimal = λ n. [] }

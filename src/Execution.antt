-- ===== src/Execution.antt =====
-- crates/konf-runtime/src/execution_context.rs: what a dispatch carries besides its scope. A fresh
-- UUID is an argument of `new_root`.
use mathlib.Core.Option
use konf.Shared.{ℕ, Option, none, some, Text, text, Json, as_str, lookup}
use konf.Envelope.{Envelope}
use konf.Scope.{unwrap_or}

pub record ExecutionContext : Type 0 where
  pub trace_id : ℕ
  pub parent_interaction_id : Option ℕ
  pub session_id : Text
  pub deadline : Option ℕ
  pub idempotency_key : Option Text

unfoldable pub with_trace : (trace_id : ℕ) (session_id : Text) → ExecutionContext
with_trace trace_id session_id = record {
  trace_id = trace_id;
  parent_interaction_id = none;
  session_id = session_id;
  deadline = none;
  idempotency_key = none;
}

unfoldable pub new_root : (fresh : ℕ) (session_id : Text) → ExecutionContext
new_root fresh session_id = record {
  trace_id = fresh;
  parent_interaction_id = none;
  session_id = session_id;
  deadline = none;
  idempotency_key = none;
}

-- `ExecutionContext::from_envelope`
unfoldable pub context_of : Envelope Json → ExecutionContext
context_of env = record {
  trace_id = env.trace_id;
  parent_interaction_id = env.parent_id;
  session_id =
      unwrap_or (Option.bind (lookup (text "session_id") env.metadata) as_str)
        (text "workflow_tool");
  deadline = env.deadline;
  idempotency_key = env.idempotency_key;
}

-- `ExecutionContext::child`
unfoldable pub child_context :
    ExecutionContext → (parent_interaction_id : ℕ) (session_id : Option Text) → ExecutionContext
child_context self parent_interaction_id session_id = record {
  trace_id = self.trace_id;
  parent_interaction_id = some parent_interaction_id;
  session_id = unwrap_or session_id self.session_id;
  deadline = self.deadline;
  idempotency_key = none;
}

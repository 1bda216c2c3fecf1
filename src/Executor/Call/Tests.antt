-- ===== src/Executor/Call/Tests.antt =====
-- A workflow of two steps whose tools are called through the registry, and the theorem about the
-- calls.
use konf.Shared.{
  ◌≡◌, ◌*◌, refl, sym, ap, subst, true, Json, false, none, some, [], ◌∷◌, if◌then◌else◌, text,
  text_eq, string, object, field, end, lookup, insert, insert_field, get_field, strip_suffix, ok,
  err, In, here, there,
}
use konf.Capability.{capability_denied, check_access, matches, from_patterns, check_tool_access}
use konf.Envelope.{Envelope, for_tool_dispatch}
use konf.Engine.{default_config}
use konf.Template.{resolve_inputs, resolve_from, resolve_expr, resolve_ref, follow_path}
use konf.Guard.{split}
use konf.Workflow.{Workflow, Step, ref, new_workflow, add_step, new_step}
use konf.Executor.{tool, State, set_output}
use konf.Executor.Backoff.{millisecond, from_millis, as_millis}
use konf.Executor.Retry.{
  invoked, tool_end, Surroundings, max_attempts, duration_at, answer_at, attempts_from,
  invoke_with_retry, is_past,
}
use konf.Executor.Edges.{evaluate_edges_targets, sort_edges, follow}
use konf.Executor.Node.{
  node, World, follow_targets, after_value, after_execution, take_turn, run_node,
}
use konf.Executor.Call.{
  CallWorld, Called, node_started, attempted, node_completed, resolved, tool_in_registry,
  tool_capabilities, step_envelope, prepared, call, execute_step,
}
use konf.Executor.Call.Allowed.{Allowed, execute_step-Allowed}

-- A tool that answers with its input.
abbrev echo : Surroundings
echo = record {
  cancelled_at = λ attempt. false;
  time_at = λ attempt. 0;
  called_at = λ attempt. 0;
  answer = λ attempt duration env. some (ok env);
}

abbrev world : CallWorld
world = record {
  render = λ s vars. ok s;
  registry = λ name. if text_eq name (text "echo") then some echo else none;
  parse_uuid = λ s. none;
  fresh_trace = 7;
  fresh_id = 8;
  now = 9;
  describe = λ e. [];
}

abbrev greeting : Step
greeting = record (new_step (text "a") (text "echo")) {
  input = (text "said", ref (text "input.text")) ∷ [];
}

abbrev asked : State
asked = record {
  outputs = (text "input", object (field (text "text") (string (text "hello")) end)) ∷ [];
  errors = [];
}

-- The tool is called with the text of the workflow's input.
greeting_run : execute_step default_config (text "echo" ∷ []) [] (text "w") world greeting asked ≡ (
  some (ok (object (field (text "said") (string (text "hello")) end))),
  node_started (text "a") (text "echo")
      ∷ attempted (invoked 1 (30_000 * millisecond))
      ∷ attempted (tool_end 1)
      ∷ node_completed
          (text "a")
          (text "echo")
          (object (field (text "said") (string (text "hello")) end))
      ∷ [],
)
unfolding execute_step call prepared resolved tool_in_registry tool_capabilities step_envelope
    for_tool_dispatch resolve_inputs resolve_from resolve_expr resolve_ref follow_path split text_eq
    lookup insert insert_field check_tool_access check_access matches from_patterns new_step
    get_field strip_suffix invoke_with_retry attempts_from max_attempts is_past duration_at
    answer_at from_millis as_millis
greeting_run = refl

-- Without the capability the start of the step is all that is reported.
greeting_denied :
    execute_step default_config (text "mail" ∷ []) [] (text "w") world greeting asked ≡ (
      some (err (tool (capability_denied (text "echo")))),
      node_started (text "a") (text "echo") ∷ [],
    )
unfolding execute_step call prepared resolved resolve_inputs resolve_from resolve_expr resolve_ref
    follow_path split text_eq lookup insert check_tool_access check_access matches from_patterns
    new_step get_field strip_suffix
greeting_denied = refl

abbrev one : Workflow
one = add_step (new_workflow (text "w") (text "W") (text "a")) greeting

-- The task of the step, with the calls of its tool.
abbrev node_world : World
node_world = record {
  cancelled_at = λ turn. false;
  others = λ turn state. state;
  execute = λ turn s state.
      (execute_step default_config (text "echo" ∷ []) [] (text "w") world s state).0;
  evaluate_as_bool = λ outputs condition. ok true;
  describe = λ e. [];
}

abbrev said : Json
said = object (field (text "said") (string (text "hello")) end)

composed_run :
    run_node one node_world 1 0 greeting 0 asked
    ≡ some (record {
      state = set_output (text "a") said asked;
      sent = node (text "a") ∷ [];
      result = ok (record { output = some said; steps = 1 });
    })
unfolding run_node take_turn after_execution after_value follow_targets new_step
    evaluate_edges_targets sort_edges follow
composed_run = rw (ap (λ (c : Called). c.0) greeting_run) refl

execute_step-Allowed_example :
    (callee : Surroundings) × (env : Envelope Json) × Allowed default_config
      (text "echo" ∷ [])
      []
      (text "w")
      world
      greeting
      asked
      callee
      env
    × In
        (invoked 1 (30_000 * millisecond))
        (invoke_with_retry default_config greeting (text "w") callee env).1
execute_step-Allowed_example =
    execute_step-Allowed default_config (text "echo" ∷ []) [] (text "w") world greeting asked 1
      (30_000 * millisecond) called
  where
    called :
        In
          (attempted (invoked 1 (30_000 * millisecond)))
          (execute_step default_config (text "echo" ∷ []) [] (text "w") world greeting asked).1
    called =
        subst (λ (r : Called). In (attempted (invoked 1 (30_000 * millisecond))) r.1)
          (sym greeting_run) (there (here refl))

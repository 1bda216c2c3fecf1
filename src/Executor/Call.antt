-- ===== src/Executor/Call.antt =====
-- `execute_step`: what comes before the call of a step's tool, and what is reported of it. The
-- renderer, the registry, the parser of UUIDs, the fresh ids and the clock are arguments; the
-- registry gives what the attempts to call the tool meet. The times in the reports are left out.
pub mod Allowed
mod Tests
use mathlib.Core.Option
use konf.Shared.{
  ℕ, ◌++◌, Option, none, some, List, [], ◌∷◌, map, Text, text, Json, object, Fields, end,
  insert_field, as_str, Table, lookup, Result, ok, err, ok_or, ◌>>=◌, ◌>>◌,
}
use konf.Capability.{ToolError, capability_denied, not_found, check_tool_access, validate_grant}
use konf.Envelope.{Envelope, for_tool_dispatch}
use konf.Engine.{EngineConfig}
use konf.Scope.{unwrap_or}
use konf.Workflow.{Step}
use konf.Template.{resolve_inputs}
use konf.Executor.{KonfluxError, execution, tool, ExecutionError, State}
use konf.Executor.Retry.{RetryEvent, Surroundings, Attempts, invoke_with_retry}

pub record CallWorld : Type 0 where
  pub render : Text → Table Json → Result Text Text
  pub registry : (tool_name : Text) → Option Surroundings
  pub parse_uuid : Text → Option ℕ
  pub fresh_trace : ℕ
  pub fresh_id : ℕ
  pub now : ℕ
  pub describe : KonfluxError → Text

-- What a hook is told, and the attempts between.
pub data NodeEvent : Type 0 where
  node_started : (node_id tool : Text) → NodeEvent
  attempted : RetryEvent → NodeEvent
  node_completed : (node_id tool : Text) (output : Json) → NodeEvent
  node_failed : (node_id tool error : Text) → NodeEvent

abbrev pub map_err {ℓ} : {A E F : Type ℓ} → (E → F) → Result A E → Result A F
map_err f (ok a) = ok a
map_err f (err e) = err (f e)

-- `resolved_inputs.into_iter().collect()`
abbrev pub collect : Table Json → Fields
collect [] = end
collect ((k, v) ∷ t) = insert_field k v (collect t)

abbrev pub Called : Type 0
Called = Option (Result Json KonfluxError) × List NodeEvent

module _ (config : EngineConfig) (capabilities : List Text) (metadata : Table Json)
    (workflow_id : Text) (world : CallWorld) (step : Step) where
  abbrev pub inputs_failed : Text → KonfluxError
  inputs_failed problem = execution (
      ExecutionError.node_failed workflow_id step.id (text "Failed to resolve inputs: " ++ problem))

  unfoldable pub resolved : State → Result (Table Json) KonfluxError
  resolved state = map_err inputs_failed (resolve_inputs world.render state.outputs step.input)

  unfoldable pub tool_in_registry : Result Surroundings KonfluxError
  tool_in_registry = ok_or (world.registry step.tool) (tool (not_found step.tool))

  abbrev pub too_wide : Text → KonfluxError
  too_wide e = tool (capability_denied e)

  -- The step's grant, if it has one, must be covered by the capabilities.
  unfoldable pub tool_capabilities : Option (List Text) → Result (List Text) KonfluxError
  tool_capabilities none = ok capabilities
  tool_capabilities (some grant) =
      map_err too_wide (validate_grant grant capabilities) >>= λ _. ok grant

  abbrev pub metadata_text : Text → Option Text
  metadata_text key = Option.bind (lookup key metadata) as_str

  abbrev pub or_fresh : Option ℕ → ℕ
  or_fresh none = world.fresh_trace
  or_fresh (some id) = id

  unfoldable pub step_envelope : Table Json → List Text → Envelope Json
  step_envelope inputs granted =
      for_tool_dispatch world.fresh_id world.now step.tool (object (collect inputs)) granted
        (or_fresh (Option.bind (metadata_text (text "trace_id")) world.parse_uuid))
        (unwrap_or (metadata_text (text "namespace")) (text "unknown"))
        (unwrap_or (metadata_text (text "actor_id")) (text "unknown"))
        (unwrap_or (metadata_text (text "session_id")) (text "unknown"))

  -- The steps before the call, each of which can return an error.
  unfoldable pub prepared : State → Result (Surroundings × Envelope Json) KonfluxError
  prepared state = resolved state >>= λ inputs.
      map_err tool (check_tool_access step.tool capabilities) >>= λ _.
      tool_in_registry >>= λ callee.
      tool_capabilities step.grant >>= λ granted. ok (callee, step_envelope inputs granted)

  abbrev pub started : NodeEvent
  started = node_started step.id step.tool

  -- The report on a call that has ended. A panic leaves none.
  abbrev pub reported : Option (Result (Envelope Json) KonfluxError) → List NodeEvent
  reported none = []
  reported (some (ok output)) = node_completed step.id step.tool output.payload ∷ []
  reported (some (err e)) = node_failed step.id step.tool (world.describe e) ∷ []

  abbrev pub payload_of :
      Option (Result (Envelope Json) KonfluxError) → Option (Result Json KonfluxError)
  payload_of none = none
  payload_of (some (ok output)) = some (ok output.payload)
  payload_of (some (err e)) = some (err e)

  abbrev pub after_call : Attempts → Called
  after_call (r, es) = (payload_of r, started ∷ map attempted es ++ reported r)

  unfoldable pub call : Result (Surroundings × Envelope Json) KonfluxError → Called
  call (err e) = (some (err e), started ∷ [])
  call (ok (callee, env)) = after_call (invoke_with_retry config step workflow_id callee env)

  unfoldable pub execute_step : State → Called
  execute_step state = call (prepared state)

-- ===== src/Dispatcher.antt =====
-- crates/konf-runtime/src/dispatcher.rs: the dispatch of a single tool. `S` is the state of the
-- journal. The UUIDs that a dispatch mints and the times that it reads are given to it in a record;
-- so are the hashes of the tool's state, which the tool itself provides. Times are nanoseconds.
pub mod Cases
pub mod Effects
pub mod Safe
pub mod Replay
pub mod Metadata
mod Tests
use konf.Shared.{
  ℕ, ◌-◌, ◌/◌, Bool, false, Option, none, some, List, [], ◌∷◌, ◌++◌, if◌then◌else◌, ltb, Text, text,
  Table, Json, pos_int, number, string, object, field, end, lookup, insert, is_some, Result, ok,
  err, is_ok,
}
use konf.Capability
use konf.Capability.{ToolError, invalid_input, execution_failed, timeout, access_denied}
use konf.Envelope.{Envelope, for_tool_dispatch}
use konf.Guard.{Tool}
use konf.Scope.{
  ExecutionScope, RuntimeError, capability_denied, deadline_exceeded, tool_failed, check_tool,
  capability_patterns, name_of_role,
}
use konf.Wrapping.{ToolGuardEntry, wrap}
use konf.Execution.{ExecutionContext}
use konf.EventBus.{RunEvent, tool_invoked, journal_appended}
use konf.Journal.{
  Interaction, tool_dispatch, InteractionStatus, success, failure, JournalEntry, JournalRow,
  JournalStore, JournalError,
}

-- How serde writes an interaction, and how a number is printed.
pub record Formats : Type 0 where
  pub interaction_json : Interaction → Json
  pub decimal : ℕ → Text

-- The `Display` text of an error.
unfoldable pub describe : Formats → ToolError → Text
describe formats (invalid_input message f) = text "invalid input: " ++ message
describe formats (execution_failed message retryable) = text "execution failed: " ++ message
describe formats (timeout after_ms) =
    text "timeout after " ++ (formats.decimal after_ms ++ text "ms")
describe formats (Capability.capability_denied capability) =
    text "capability denied: " ++ capability
describe formats (access_denied message) = text "access denied: " ++ message
describe formats (Capability.not_found tool_id) = text "tool not found: " ++ tool_id

-- What a dispatch reads from its surroundings.
pub record Moment : Type 0 where
  pub now : ℕ
  pub envelope_id : ℕ
  pub emitted_at : ℕ
  pub interaction_id : ℕ
  pub started_at : ℕ
  pub ended_at : ℕ
  pub state_before_hash : Option Text
  pub state_after_hash : Option Text

pub record Dispatcher (S : Type 0) : Type 0 where
  pub tool_guards : Table ToolGuardEntry
  pub journal : Option (JournalStore S)

-- The arguments of `dispatch_tool`.
pub record Call : Type 0 where
  pub tool_name : Text
  pub input : Json
  pub scope : ExecutionScope
  pub ctx : ExecutionContext
  pub registry : Table Tool

-- What a dispatch leaves: its result, the journal, and the events in order.
pub record Dispatched (S : Type 0) : Type 0 where
  pub result : Result Json RuntimeError
  pub state : S
  pub events : List RunEvent

abbrev pub scoped_key : Text → Option Text → Option Text
scoped_key tool_name none = none
scoped_key tool_name (some k) = some (tool_name ++ (text ":" ++ k))

abbrev pub past_deadline : ℕ → Option ℕ → Bool
past_deadline now none = false
past_deadline now (some deadline) = ltb deadline now

abbrev pub metadata_of : Call → Table Json
metadata_of call = insert (text "depth") (number (pos_int call.scope.depth)) (
    insert (text "session_id") (string call.ctx.session_id)
      (insert (text "actor_role") (string (name_of_role call.scope.actor.role)) []))

-- The envelope that the wrapped tool is called with.
unfoldable pub dispatch_envelope : Moment → Call → Envelope Json
dispatch_envelope moment call =
    record (for_tool_dispatch moment.envelope_id moment.emitted_at call.tool_name call.input
      (capability_patterns call.scope) call.ctx.trace_id call.scope.namespace call.scope.actor.id
      call.ctx.session_id) {
        deadline = call.ctx.deadline;
        idempotency_key = call.ctx.idempotency_key;
        metadata = metadata_of call;
      }

abbrev pub status_of : Formats → Result (Envelope Json) ToolError → InteractionStatus
status_of formats (ok env) = success
status_of formats (err e) = failure (describe formats e)

abbrev pub rules_fired : Call → Table Json → List Text
rules_fired call bindings =
    (text "cap_check:" ++ call.tool_name)
    ∷ (if is_some (lookup (text "namespace") bindings)
        then (text "ns_inject:" ++ call.scope.namespace) ∷ []
        else [])

unfoldable pub interaction_of :
    Formats → Moment → Call → Table Json → Result (Envelope Json) ToolError → Interaction
interaction_of formats moment call bindings result = record {
  id = moment.interaction_id;
  parent_id = call.ctx.parent_interaction_id;
  trace_id = call.ctx.trace_id;
  run_id = none;
  node_id = none;
  actor = call.scope.actor;
  namespace = call.scope.namespace;
  target = text "tool:" ++ call.tool_name;
  kind = tool_dispatch;
  attributes = object (
      field (text "tool_name") (string call.tool_name) (
        field (text "duration_ms")
          (number (pos_int ((moment.ended_at - moment.started_at) / 1_000_000))) end));
  edge_rules_fired = rules_fired call bindings;
  status = status_of formats result;
  summary = none;
  timestamp = moment.started_at;
  step_index = 0;
  stream_id = call.ctx.session_id;
  state_before_hash = moment.state_before_hash;
  state_after_hash = moment.state_after_hash;
  references = [];
  in_reply_to = none;
}

unfoldable pub entry_of :
    Formats → Moment → Call → Table Json → Result (Envelope Json) ToolError → JournalEntry
entry_of formats moment call bindings result = record {
  run_id = none;
  session_id = call.ctx.session_id;
  namespace = call.scope.namespace;
  event_type = text "interaction";
  payload = formats.interaction_json (interaction_of formats moment call bindings result);
  valid_to = none;
  idempotency_key = scoped_key call.tool_name call.ctx.idempotency_key;
}

abbrev pub payload_of : Formats → Text → Result (Envelope Json) ToolError → Result Json RuntimeError
payload_of formats tool_name (ok env) = ok env.payload
payload_of formats tool_name (err e) = err (tool_failed tool_name (describe formats e))

-- The nil UUID is 0.
abbrev pub appended : Text → Result ℕ JournalError → List RunEvent
appended namespace (ok sequence) = journal_appended sequence (text "interaction") namespace 0 ∷ []
appended namespace (err e) = []

abbrev pub row_found : Result (Option JournalRow) JournalError → Option JournalRow
row_found (ok row) = row
row_found (err e) = none

abbrev pub missing : Text → RuntimeError
missing tool_name =
    capability_denied (text "tool '" ++ (tool_name ++ text "' not found in engine registry"))

module _ {S : Type 0} where
  abbrev pub cached : Option (JournalStore S) → Option Text → S → Option JournalRow
  cached (some journal) (some key) s = row_found (journal.get_by_idempotency_key key s)
  cached _ _ s = none

  abbrev pub append_to : Option (JournalStore S) → Text → JournalEntry → S → S × List RunEvent
  append_to none namespace entry s = (s, [])
  append_to (some journal) namespace entry s =
      let (s', r) = journal.append entry s in (s', appended namespace r)

  abbrev pub stop : RuntimeError → S → Dispatched S
  stop e s = record { result = err e; state = s; events = [] }

  abbrev pub replay : JournalRow → S → Dispatched S
  replay row s = record { result = ok row.payload; state = s; events = [] }

  unfoldable pub invoke :
      Formats
      → Dispatcher S
      → Moment
      → Call
      → Table Json
      → Result (Envelope Json) ToolError
      → S
      → Dispatched S
  invoke formats self moment call bindings result s =
      let (s', events) =
        append_to self.journal call.scope.namespace (entry_of formats moment call bindings result)
          s in
      record {
        result = payload_of formats call.tool_name result;
        state = s';
        events =
            tool_invoked call.tool_name call.scope.namespace moment.ended_at (is_ok result)
            ∷ events;
      }

  abbrev pub unless_cached : Option JournalRow → Dispatched S → S → Dispatched S
  unless_cached none invoked s = invoked
  unless_cached (some row) invoked s = replay row s

  unfoldable pub dispatch_wrapped :
      Formats → Dispatcher S → Moment → Call → Table Json → Tool → S → Dispatched S
  dispatch_wrapped formats self moment call bindings raw s =
      if past_deadline moment.now call.ctx.deadline
      then stop (deadline_exceeded call.tool_name) s
      else unless_cached
          (cached self.journal (scoped_key call.tool_name call.ctx.idempotency_key) s)
          (invoke formats self moment call bindings
            (wrap call.tool_name self.tool_guards bindings raw (dispatch_envelope moment call)) s)
          s

  unfoldable pub dispatch_granted :
      Formats → Dispatcher S → Moment → Call → Table Json → Option Tool → S → Dispatched S
  dispatch_granted formats self moment call bindings none s = stop (missing call.tool_name) s
  dispatch_granted formats self moment call bindings (some raw) s =
      dispatch_wrapped formats self moment call bindings raw s

  unfoldable pub dispatch_checked :
      Formats → Dispatcher S → Moment → Call → Result (Table Json) RuntimeError → S → Dispatched S
  dispatch_checked formats self moment call (err e) s = stop e s
  dispatch_checked formats self moment call (ok bindings) s =
      dispatch_granted formats self moment call bindings (lookup call.tool_name call.registry) s

  -- `Dispatcher::dispatch_tool`
  unfoldable pub dispatch_tool : Formats → Dispatcher S → Moment → Call → S → Dispatched S
  dispatch_tool formats self moment call s =
      dispatch_checked formats self moment call (check_tool call.scope call.tool_name) s

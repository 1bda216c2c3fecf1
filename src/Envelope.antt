-- ===== src/Envelope.antt =====
-- crates/konflux-substrate/src/envelope.rs: the typed envelope. UUIDs and times are numbers; a
-- fresh UUID and the current time are arguments of the functions that ask for them.
use konf.Shared.{ℕ, ◌+◌, ◌%◌, ◌^◌, Option, none, some, List, [], Text, text, Table, Json}
use konf.Capability.{CapSet, from_patterns}

pub data QoSClass : Type 0 where
  critical normal best_effort : QoSClass

-- The newtypes around a UUID or a string (`EnvelopeId`, `TraceId`, `ActorId`, …) are the bare
-- values.
pub record Envelope {ℓ} (P : Type ℓ) : Type ℓ where
  pub id : ℕ
  pub trace_id : ℕ
  pub parent_id : Option ℕ
  pub actor_id : Text
  pub namespace : Text
  pub capabilities : CapSet
  pub target : Text
  pub payload_type : Text
  pub payload : P
  pub emitted_at : ℕ
  pub step_index : ℕ
  pub stream_id : Text
  pub deadline : Option ℕ
  pub idempotency_key : Option Text
  pub qos_class : Option QoSClass
  pub references : Option (List ℕ)
  pub metadata : Table Json

-- `step_index` is a `u64`.
unfoldable pub respond {ℓ κ} :
    {P : Type ℓ} {Q : Type κ} (fresh now : ℕ) → Envelope P → Q → Envelope Q
respond fresh now self payload = record {
  id = fresh;
  trace_id = self.trace_id;
  parent_id = some self.id;
  actor_id = self.actor_id;
  namespace = self.namespace;
  capabilities = self.capabilities;
  target = self.target;
  payload_type = self.payload_type;
  payload = payload;
  emitted_at = now;
  step_index = (self.step_index + 1) % 2 ^ 64;
  stream_id = self.stream_id;
  deadline = self.deadline;
  idempotency_key = none;
  qos_class = self.qos_class;
  references = none;
  metadata = self.metadata;
}

unfoldable pub for_tool_dispatch :
    (fresh now : ℕ) (target : Text) (payload : Json) (capabilities : List Text) (trace_id : ℕ)
    (namespace actor_id stream_id : Text)
    → Envelope Json
for_tool_dispatch fresh now target payload capabilities trace_id namespace actor_id stream_id =
    record {
      id = fresh;
      trace_id = trace_id;
      parent_id = none;
      actor_id = actor_id;
      namespace = namespace;
      capabilities = from_patterns capabilities;
      target = target;
      payload_type = text "tool_input";
      payload = payload;
      emitted_at = now;
      step_index = 0;
      stream_id = stream_id;
      deadline = none;
      idempotency_key = none;
      qos_class = none;
      references = none;
      metadata = [];
    }

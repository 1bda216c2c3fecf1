-- ===== src/Context/Tests.antt =====
-- Runs of `VirtualizedTool`, and the theorems about it at concrete inputs.
use konf.Shared.{
  ◌≡◌, refl, none, [], ◌∷◌, text, Table, lookup, Json, string, object, field, end, ok, text_eq,
  as_object, insert_field,
}
use konf.Envelope.{Envelope}
use konf.Guard.{Tool}
use konf.Context.{inject_bindings, virtualized, with_payload}
use konf.Context.Inject.{
  KeysDistinct, or_else, payload_field, inject_bindings-field, virtualized-ok,
}

abbrev bound : Table Json
bound = (text "namespace", string (text "konf:a")) ∷ []

abbrev call : Envelope Json
call = record {
  id = 1;
  trace_id = 2;
  parent_id = none;
  actor_id = text "bot";
  namespace = text "konf:a";
  capabilities = record { capabilities = [] };
  target = text "memory:search";
  payload_type = text "tool_input";
  payload = object (field (text "namespace") (string (text "konf:admin")) end);
  emitted_at = 3;
  step_index = 0;
  stream_id = text "s";
  deadline = none;
  idempotency_key = none;
  qos_class = none;
  references = none;
  metadata = [];
}

abbrev seen : Envelope Json
seen = record call { payload = object (field (text "namespace") (string (text "konf:a")) end) }

overridden : inject_bindings bound call ≡ ok seen
unfolding inject_bindings as_object insert_field text_eq
overridden = refl

bound_distinct : KeysDistinct bound
unfolding lookup
bound_distinct = (refl, tt)

inject_bindings-field_example :
    (payload_field (text "namespace") seen.payload
      ≡ or_else (lookup (text "namespace") bound) (payload_field (text "namespace") call.payload))
    × (seen ≡ with_payload call seen.payload)
inject_bindings-field_example =
    inject_bindings-field bound call seen (text "namespace") bound_distinct overridden

abbrev echo : Tool
echo env = ok env

echoed : virtualized bound echo call ≡ ok seen
unfolding virtualized inject_bindings as_object insert_field text_eq
echoed = refl

virtualized-ok_example :
    (e : Envelope Json) × (inject_bindings bound call ≡ ok e) × (echo e ≡ ok seen)
virtualized-ok_example = virtualized-ok bound echo call seen echoed

-- ===== src/Context.antt =====
-- crates/konf-runtime/src/context.rs: `VirtualizedTool`, which writes the bindings of a grant into
-- a tool's input. The bindings, a `HashMap`, are a table in which every key stands once.
pub mod Inject
mod Tests
use konf.Shared.{
  Option, none, some, List, [], ◌∷◌, Text, text, Table, Json, Fields, object, as_object,
  insert_field, Result, ok, err, ◌>>=◌,
}
use konf.Capability.{ToolError, invalid_input}
use konf.Envelope.{Envelope}
use konf.Guard.{Tool}

-- The loop of `inject_bindings` over the bindings.
insert_all : Table Json → Fields → Fields
insert_all [] fs = fs
insert_all ((k, v) ∷ bindings) fs = insert_all bindings (insert_field k v fs)

inject_payload : Table Json → Option Fields → Result Json ToolError
inject_payload bindings none =
    err (invalid_input (text "payload must be a JSON object when bindings are present") none)
inject_payload bindings (some fs) = ok (object (insert_all bindings fs))

abbrev with_payload : Envelope Json → Json → Envelope Json
with_payload env payload = record env { payload = payload }

unfoldable pub inject_bindings : Table Json → Envelope Json → Result (Envelope Json) ToolError
unfolding insert_all inject_payload
inject_bindings [] env = ok env
inject_bindings (b ∷ bindings) env =
    inject_payload (b ∷ bindings) (as_object env.payload) >>= λ p. ok (with_payload env p)

-- `VirtualizedTool::invoke`
unfoldable pub virtualized : Table Json → Tool → Tool
virtualized bindings inner env = inject_bindings bindings env >>= inner

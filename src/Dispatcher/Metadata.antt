-- ===== src/Dispatcher/Metadata.antt =====
-- What of a scope and of a context the dispatcher's envelope carries on.
use mathlib.Core.Option
use konf.Shared.{◌≡◌, refl, ap, ◌∙◌, none, map, text_eq, lookup, insert, as_str, as_u64}
use konf.Capability.{patterns, from_patterns}
use konf.Envelope.{for_tool_dispatch}
use konf.Process.{ActorRole}
use konf.Scope.{ExecutionScope, capability_patterns, default_limits, grant, from_envelope}
use konf.Scope.Transport.{bare, patterns-from_patterns, role_of_name-name_of_role}
use konf.Execution.{context_of}
use konf.Dispatcher.{Moment, Call, dispatch_envelope}

-- A scope as it comes out of an envelope.
abbrev pub carried : ExecutionScope → ExecutionScope
carried s = record {
  namespace = s.namespace;
  capabilities = bare s;
  limits = default_limits;
  actor = s.actor;
  depth = s.depth;
}

-- The scope that a tool reads from the dispatcher's envelope has the namespace, the patterns, the
-- actor and the depth of the scope that the call was made under. The bindings of the grants and the
-- limits are lost.
pub from_envelope-dispatch_envelope :
    (moment : Moment) (call : Call)
    → from_envelope (dispatch_envelope moment call) ≡ carried call.scope
unfolding from_envelope dispatch_envelope for_tool_dispatch lookup insert Option.bind as_str as_u64
    text_eq
from_envelope-dispatch_envelope moment call =
    ap
      (λ (r : ActorRole). record {
        namespace = call.scope.namespace;
        capabilities = map grant (patterns (from_patterns (capability_patterns call.scope)));
        limits = default_limits;
        actor = record { id = call.scope.actor.id; role = r };
        depth = call.scope.depth;
      })
      (role_of_name-name_of_role call.scope.actor.role)
    ∙ ap
        (λ ps. record {
          namespace = call.scope.namespace;
          capabilities = map grant ps;
          limits = default_limits;
          actor = call.scope.actor;
          depth = call.scope.depth;
        })
        (patterns-from_patterns (capability_patterns call.scope))

-- The context that a tool reads from it has the trace, the session, the deadline and the key of the
-- call's context, and no parent.
pub context_of-dispatch_envelope :
    (moment : Moment) (call : Call)
    → context_of (dispatch_envelope moment call) ≡ record call.ctx { parent_interaction_id = none }
unfolding context_of dispatch_envelope for_tool_dispatch lookup insert Option.bind as_str text_eq
context_of-dispatch_envelope moment call = refl

-- ===== src/Scope/Transport.antt =====
-- What of a scope survives the way through an envelope.
use mathlib.Core.Option
use konf.Shared.{ℕ, ◌≡◌, refl, ap, List, [], ◌∷◌, map, Text, text_eq, lookup, Json}
use konf.Capability.{patterns, from_patterns}
use konf.Envelope.{for_tool_dispatch}
use konf.Process.{
  ActorRole, infra_admin, product_admin, user, infra_agent, product_agent, user_agent, system,
}
use konf.Scope.{
  CapabilityGrant, grant, ExecutionScope, capability_patterns, role_of_name, name_of_role,
  from_envelope, to_envelope, default_limits,
}

-- A role's name is read back as the role.
pub role_of_name-name_of_role : (r : ActorRole) → role_of_name (name_of_role r) ≡ r
unfolding role_of_name name_of_role text_eq
role_of_name-name_of_role infra_admin = refl
role_of_name-name_of_role product_admin = refl
role_of_name-name_of_role user = refl
role_of_name-name_of_role infra_agent = refl
role_of_name-name_of_role product_agent = refl
role_of_name-name_of_role user_agent = refl
role_of_name-name_of_role system = refl

abbrev pub bare : ExecutionScope → List CapabilityGrant
bare s = map grant (capability_patterns s)

pub patterns-from_patterns : (ps : List Text) → patterns (from_patterns ps) ≡ ps
unfolding patterns from_patterns
patterns-from_patterns [] = refl
patterns-from_patterns (p ∷ ps) = rw (patterns-from_patterns ps)

-- An envelope that `to_envelope` builds brings back the namespace, the patterns and the actor's id.
-- The bindings of the grants, the limits, the depth and the actor's role do not come back: the scope
-- that is read has none of the bindings, the default limits, depth 0 and the role of the system.
pub from_envelope-to_envelope :
    (fresh now : ℕ) (s : ExecutionScope) (target : Text) (payload : Json) (trace_id : ℕ)
    (stream_id : Text)
    → from_envelope (to_envelope fresh now s target payload trace_id stream_id) ≡ record {
      namespace = s.namespace;
      capabilities = bare s;
      limits = default_limits;
      actor = record { id = s.actor.id; role = system };
      depth = 0;
    }
unfolding from_envelope to_envelope for_tool_dispatch lookup Option.bind
from_envelope-to_envelope fresh now s target payload trace_id stream_id =
    ap
      (λ ps. record {
        namespace = s.namespace;
        capabilities = map grant ps;
        limits = default_limits;
        actor = record { id = s.actor.id; role = system };
        depth = 0;
      })
      (patterns-from_patterns (capability_patterns s))

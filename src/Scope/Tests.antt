-- ===== src/Scope/Tests.antt =====
-- Runs of the scope code, and the theorems about it at concrete inputs.
use konf.Shared.{
  ◌+◌, ◌<◌, ◌≡◌, refl, ◌↔◌, true, none, [], ◌∷◌, arith, Text, text, Json, string, In, ok, is_ok,
  text_eq, strip_suffix, starts_with_then, starts_with, char_is, ends_with, Table,
}
use konf.Capability.{matches, new}
use konf.Process.{user_agent, system, active_count_in_namespace, select}
use konf.Scope.{
  CapabilityGrant, grant, ExecutionScope, ResourceLimits, default_limits, check_tool, grant_matches,
  covered_by, child_of, child_scope, validate_start, validate_limits, role_of_name, name_of_role,
  from_envelope, to_envelope, covered_by,
}
use konf.Scope.Check.{GrantsTool, check_tool-iff-GrantsTool}
use konf.Scope.Child.{covered_by-eq-matches}
use konf.Scope.Descent.{
  Descends, root, child, child_scope_iff, check_tool-Descends, Descends-max_child_depth,
}
use konf.Scope.Limits.{validate_limits_iff}
use konf.Scope.Transport.{bare, role_of_name-name_of_role, from_envelope-to_envelope}

abbrev bound : Table Json
bound = (text "namespace", string (text "konf:a")) ∷ []

abbrev memory : CapabilityGrant
memory = record { pattern = text "memory:*"; bindings = bound }

abbrev search : CapabilityGrant
search = grant (text "memory:search")

abbrev agent : ExecutionScope
agent = record {
  namespace = text "konf:a";
  capabilities = memory ∷ search ∷ [];
  limits = default_limits;
  actor = record { id = text "bot"; role = user_agent };
  depth = 0;
}

abbrev tool : Text
tool = text "memory:search"

search_accepted : check_tool agent tool ≡ ok bound
unfolding check_tool grant_matches matches text_eq strip_suffix starts_with_then starts_with char_is
search_accepted = refl

check_tool-iff-GrantsTool_example :
    (is_ok (check_tool agent tool) ≡ true) ↔ GrantsTool agent.capabilities tool
check_tool-iff-GrantsTool_example = check_tool-iff-GrantsTool agent tool

covered_by-eq-matches_example :
    covered_by (text "a:b:*") (text "a:*") ≡ matches (new (text "a:*")) (text "a:b:*")
covered_by-eq-matches_example = covered_by-eq-matches (text "a:b:*") (text "a:*")

child_scope_iff_example :
    (child_scope agent (search ∷ []) none ≡ ok (child_of agent (search ∷ []) none)) ↔ (
      ((g : CapabilityGrant) → In g (search ∷ []) → GrantsTool agent.capabilities g.pattern)
      × (child_of agent (search ∷ []) none ≡ child_of agent (search ∷ []) none))
child_scope_iff_example =
    child_scope_iff agent (search ∷ []) none (child_of agent (search ∷ []) none)

abbrev helper : ExecutionScope
helper = child_of agent (search ∷ []) none

helper_accepted : child_scope agent (search ∷ []) none ≡ ok helper
unfolding child_scope covered_by matches text_eq strip_suffix starts_with_then starts_with char_is
    ends_with
helper_accepted = refl

helper_started : validate_start helper [] ≡ ok tt
unfolding validate_start active_count_in_namespace select
helper_started = refl

helper-Descends : Descends agent 1 helper
helper-Descends = child (search ∷ []) none [] (root refl) helper_accepted helper_started

helper_searches : is_ok (check_tool helper tool) ≡ true
unfolding check_tool grant_matches matches text_eq strip_suffix starts_with_then starts_with char_is
helper_searches = refl

check_tool-Descends_example : is_ok (check_tool agent tool) ≡ true
check_tool-Descends_example = check_tool-Descends tool helper-Descends helper_searches

Descends-max_child_depth_example :
    (agent.depth + 1 < 10) × (helper.limits ≡ agent.limits) × (helper.actor ≡ agent.actor)
Descends-max_child_depth_example = Descends-max_child_depth (omega arith) helper-Descends

abbrev no_steps : ResourceLimits
no_steps = record default_limits { max_steps = 0 }

validate_limits_iff_example : (validate_limits no_steps ≡ ok tt) ↔ (
    (0 < no_steps.max_steps)
    × (0 < no_steps.max_workflow_timeout_ms)
    × (0 < no_steps.max_concurrent_nodes)
    × (0 < no_steps.max_child_depth)
    × (0 < no_steps.max_active_runs_per_namespace)
    × (0 < no_steps.event_bus_capacity))
validate_limits_iff_example = validate_limits_iff no_steps

role_of_name-name_of_role_example : role_of_name (name_of_role user_agent) ≡ user_agent
role_of_name-name_of_role_example = role_of_name-name_of_role user_agent

from_envelope-to_envelope_example :
    from_envelope (to_envelope 1 2 agent tool (string tool) 3 (text "s")) ≡ record {
      namespace = text "konf:a";
      capabilities = bare agent;
      limits = default_limits;
      actor = record { id = text "bot"; role = system };
      depth = 0;
    }
from_envelope-to_envelope_example =
    from_envelope-to_envelope 1 2 agent tool (string tool) 3 (text "s")

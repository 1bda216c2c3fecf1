-- ===== src/Scope.antt =====
-- crates/konf-runtime/src/scope.rs: execution scopes, and the errors of
-- crates/konf-runtime/src/error.rs. A `HashMap` of bindings is a table.
pub mod Check
pub mod Child
pub mod Limits
pub mod Descent
pub mod Transport
mod Tests
use mathlib.Core.Option
use konf.Shared.{
  ℕ, ◌+◌, Bool, true, false, not, ◌&&◌, ◌||◌, Option, none, some, List, [], ◌∷◌, ◌++◌, map,
  if◌then◌else◌, leb, ◌==◌, Text, text, text_eq, starts_with, strip_suffix, ends_with, char_is,
  get_elem?, length, any, Table, lookup, Json, as_str, as_u64, Result, ok, err, ◌>>=◌, ◌>>◌,
}
use konf.Capability
use konf.Capability.{matches, new, star, colon_star, patterns}
use konf.Envelope.{Envelope, for_tool_dispatch}
use konf.Process.{
  Actor, ActorRole, infra_admin, product_admin, user, infra_agent, product_agent, user_agent,
  system, ProcessTable, active_count_in_namespace,
}

pub data RuntimeError : Type 0 where
  run_not_found run_not_running : ℕ → RuntimeError
  resource_limit : Text → ℕ → RuntimeError
  capability_denied : Text → RuntimeError
  deadline_exceeded : Text → RuntimeError
  tool_failed : Text → Text → RuntimeError
  engine_error join_failed journal_error : Text → RuntimeError

pub record CapabilityGrant : Type 0 where
  pub pattern : Text
  pub bindings : Table Json

-- `CapabilityGrant::new`
abbrev pub grant : Text → CapabilityGrant
grant pattern = record { pattern = pattern; bindings = [] }

unfoldable pub grant_matches : CapabilityGrant → Text → Option (Table Json)
grant_matches self tool_name =
    if matches (new self.pattern) tool_name then some self.bindings else none

pub record ResourceLimits : Type 0 where
  pub max_steps : ℕ
  pub max_workflow_timeout_ms : ℕ
  pub max_concurrent_nodes : ℕ
  pub max_child_depth : ℕ
  pub max_active_runs_per_namespace : ℕ
  pub event_bus_capacity : ℕ

abbrev pub default_limits : ResourceLimits
default_limits = record {
  max_steps = 1000;
  max_workflow_timeout_ms = 300_000;
  max_concurrent_nodes = 50;
  max_child_depth = 10;
  max_active_runs_per_namespace = 20;
  event_bus_capacity = 1024;
}

abbrev require_positive : ℕ → Text → Result (Unit {0}) Text
require_positive n message = if n == 0 then err message else ok tt

unfoldable pub validate_limits : ResourceLimits → Result (Unit {0}) Text
validate_limits self = do
  require_positive self.max_steps (text "max_steps must be > 0 (prevents infinite loops)")
  require_positive self.max_workflow_timeout_ms
      (text "max_workflow_timeout_ms must be > 0 (prevents runaway workflows)")
  require_positive self.max_concurrent_nodes (text "max_concurrent_nodes must be > 0")
  require_positive self.max_child_depth (text "max_child_depth must be > 0")
  require_positive self.max_active_runs_per_namespace
      (text "max_active_runs_per_namespace must be > 0")
  require_positive self.event_bus_capacity (text "event_bus_capacity must be > 0")

pub record ExecutionScope : Type 0 where
  pub namespace : Text
  pub capabilities : List CapabilityGrant
  pub limits : ResourceLimits
  pub actor : Actor
  pub depth : ℕ

abbrev pub not_granted : Text → Text → RuntimeError
not_granted tool_name namespace =
    capability_denied
      (text "tool '" ++ (tool_name ++ (text "' not granted in scope '" ++ (namespace ++ text "'"))))

-- The loop of `check_tool`: the first grant that matches gives its bindings.
first_match : List CapabilityGrant → Text → Option (Table Json)
first_match [] tool_name = none
first_match (g ∷ gs) tool_name =
    let rest = first_match gs tool_name in
    elim (grant_matches g tool_name) [ none ↦ rest | some bindings ↦ some bindings ]

unfoldable pub check_tool : ExecutionScope → Text → Result (Table Json) RuntimeError
unfolding first_match
check_tool self tool_name = elim (first_match self.capabilities tool_name) [
  | none ↦ err (not_granted tool_name self.namespace)
  | some bindings ↦ ok bindings
]

-- The closure of `child_scope`: whether a parent's pattern covers a child's.
under_prefix : Text → Text → Text → Bool
under_prefix parent parent_prefix child =
    if not (ends_with child colon_star)
    then matches (new parent) child
    else elim (strip_suffix child colon_star) [
      | none ↦ false
      | some child_prefix ↦
          starts_with child_prefix parent_prefix
          && (text_eq child_prefix parent_prefix
              || char_is (get_elem? child_prefix (length parent_prefix)) b':')
    ]

pub covered_by : Text → Text → Bool
unfolding under_prefix
covered_by child parent =
    if text_eq parent star
    then true
    else if text_eq parent child
    then true
    else elim (strip_suffix parent colon_star) [
      | none ↦ false
      | some parent_prefix ↦ under_prefix parent parent_prefix child
    ]

abbrev pub grant_refused : Text → Text → RuntimeError
grant_refused pattern namespace = capability_denied (
    text "capability '"
    ++ (pattern
        ++ (text "' cannot be granted — parent scope '"
            ++ (namespace ++ text "' does not have it"))))

-- The loop of `child_scope` over the child's grants.
check_child : List CapabilityGrant → Text → List CapabilityGrant → Result (Unit {0}) RuntimeError
check_child parent namespace [] = ok tt
check_child parent namespace (g ∷ gs) =
    let rest = check_child parent namespace gs in
    if any (λ (p : CapabilityGrant). covered_by g.pattern p.pattern) parent
    then rest
    else err (grant_refused g.pattern namespace)

abbrev pub unwrap_or : Option Text → Text → Text
unwrap_or none d = d
unwrap_or (some t) d = t

abbrev pub child_of : ExecutionScope → List CapabilityGrant → Option Text → ExecutionScope
child_of self child_capabilities child_namespace = record {
  namespace = unwrap_or child_namespace self.namespace;
  capabilities = child_capabilities;
  limits = self.limits;
  actor = self.actor;
  depth = self.depth + 1;
}

unfoldable pub child_scope :
    ExecutionScope → List CapabilityGrant → Option Text → Result ExecutionScope RuntimeError
unfolding check_child
child_scope self child_capabilities child_namespace =
    check_child self.capabilities self.namespace child_capabilities
    >> ok (child_of self child_capabilities child_namespace)

unfoldable pub validate_start : ExecutionScope → ProcessTable → Result (Unit {0}) RuntimeError
validate_start self table =
    let active = active_count_in_namespace self.namespace table in
    if leb self.limits.max_active_runs_per_namespace active
    then err (
        resource_limit (text "max_active_runs_per_namespace")
          self.limits.max_active_runs_per_namespace)
    else if leb self.limits.max_child_depth self.depth
    then err (resource_limit (text "max_child_depth") self.limits.max_child_depth)
    else ok tt

unfoldable pub capability_patterns : ExecutionScope → List Text
capability_patterns self = map (λ (g : CapabilityGrant). g.pattern) self.capabilities

-- The match of `from_envelope` on the role's name.
unfoldable pub role_of_name : Text → ActorRole
role_of_name s =
    if text_eq s (text "infra_admin")
    then infra_admin
    else if text_eq s (text "product_admin")
    then product_admin
    else if text_eq s (text "user")
    then user
    else if text_eq s (text "infra_agent")
    then infra_agent
    else if text_eq s (text "product_agent")
    then product_agent
    else if text_eq s (text "user_agent")
    then user_agent
    else if text_eq s (text "system")
    then system
    else user

-- The name that the dispatcher and `Runtime::build_execution_metadata` write for a role.
unfoldable pub name_of_role : ActorRole → Text
name_of_role infra_admin = text "infra_admin"
name_of_role product_admin = text "product_admin"
name_of_role user = text "user"
name_of_role infra_agent = text "infra_agent"
name_of_role product_agent = text "product_agent"
name_of_role user_agent = text "user_agent"
name_of_role system = text "system"

unfoldable pub role_in : Table Json → ActorRole
role_in metadata = elim (Option.bind (lookup (text "actor_role") metadata) as_str) [
  | none ↦ system
  | some s ↦ role_of_name s
]

unfoldable pub depth_in : Table Json → ℕ
depth_in metadata = elim (Option.bind (lookup (text "depth") metadata) as_u64) [
  | none ↦ 0
  | some n ↦ n
]

unfoldable pub from_envelope : Envelope Json → ExecutionScope
unfolding role_in depth_in
from_envelope env = record {
  namespace = env.namespace;
  capabilities = map grant (patterns env.capabilities);
  limits = default_limits;
  actor = record { id = env.actor_id; role = role_in env.metadata };
  depth = depth_in env.metadata;
}

unfoldable pub to_envelope :
    (fresh now : ℕ) → ExecutionScope → Text → Json → ℕ → Text → Envelope Json
to_envelope fresh now self target payload trace_id stream_id =
    for_tool_dispatch fresh now target payload (capability_patterns self) trace_id self.namespace
      self.actor.id stream_id

-- The match of `scope_from_role` on the role's name.
unfoldable pub role_for_auth : Text → ActorRole
role_for_auth s =
    if text_eq s (text "infra_admin")
    then infra_admin
    else if text_eq s (text "product_admin") || text_eq s (text "admin")
    then product_admin
    else if text_eq s (text "user")
    then user
    else if text_eq s (text "infra_agent")
    then infra_agent
    else if text_eq s (text "product_agent") || text_eq s (text "agent")
    then product_agent
    else if text_eq s (text "user_agent")
    then user_agent
    else if text_eq s (text "system")
    then system
    else user

abbrev suffixed : Text → Option Text → Text
suffixed product_namespace none = product_namespace
suffixed product_namespace (some suffix) = product_namespace ++ (text ":" ++ suffix)

unfoldable pub scope_from_role :
    (actor_id role_name product_namespace : Text) (role_capabilities : List Text)
    (namespace_suffix : Option Text) (limits : ResourceLimits)
    → ExecutionScope
scope_from_role actor_id role_name product_namespace role_capabilities namespace_suffix limits =
    record {
      namespace = suffixed product_namespace namespace_suffix;
      capabilities = map grant role_capabilities;
      limits = limits;
      actor = record { id = actor_id; role = role_for_auth role_name };
      depth = 0;
    }

unfoldable pub dev_scope : Text → ExecutionScope
dev_scope product_namespace =
    scope_from_role (text "dev_user") (text "infra_admin") product_namespace (text "*" ∷ []) none
      default_limits

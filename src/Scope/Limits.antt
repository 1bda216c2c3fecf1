-- ===== src/Scope/Limits.antt =====
-- `ResourceLimits::validate` and `ExecutionScope::validate_start`.
use konf.Shared.{◌<◌, ◌≡◌, ◌↔◌, arith, ok}
use konf.Process.{ProcessTable, active_count_in_namespace}
use konf.Scope.{ResourceLimits, ExecutionScope, validate_limits, validate_start}

-- A run may start exactly if the namespace has room for one more and the scope is not too deep.
pub validate_start_iff :
    (s : ExecutionScope) (table : ProcessTable)
    → (validate_start s table ≡ ok tt) ↔ (
        (active_count_in_namespace s.namespace table < s.limits.max_active_runs_per_namespace)
        × (s.depth < s.limits.max_child_depth))
unfolding validate_start
validate_start_iff s table = (λ h. (ground arith, ground arith), λ h. ground arith)

-- The limits are accepted exactly if none of the six is zero.
pub validate_limits_iff :
    (l : ResourceLimits)
    → (validate_limits l ≡ ok tt) ↔ (
        (0 < l.max_steps)
        × (0 < l.max_workflow_timeout_ms)
        × (0 < l.max_concurrent_nodes)
        × (0 < l.max_child_depth)
        × (0 < l.max_active_runs_per_namespace)
        × (0 < l.event_bus_capacity))
unfolding validate_limits
validate_limits_iff l = (
  λ h. (ground arith, ground arith, ground arith, ground arith, ground arith, ground arith),
  λ h. ground arith,
)

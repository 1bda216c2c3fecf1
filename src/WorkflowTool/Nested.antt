-- ===== src/WorkflowTool/Nested.antt =====
-- The scope that a workflow has when it is called as a tool.
use konf.Shared.{◌≡◌, refl, ap, ◌∙◌, none, ok}
use konf.Capability.Covers.{exactly}
use konf.Scope.{ExecutionScope, child_scope, child_of}
use konf.Scope.Descent.{child_scope_iff}
use konf.Dispatcher.{Moment, Call, dispatch_envelope}
use konf.Dispatcher.Metadata.{carried, from_envelope-dispatch_envelope}
use konf.WorkflowTool.{Printer, failed_with, child_refused, nested_scope}

-- A scope may hand on all that it has.
child_scope_self :
    (s : ExecutionScope) → child_scope s s.capabilities none ≡ ok (child_of s s.capabilities none)
child_scope_self s =
    (child_scope_iff s s.capabilities none (child_of s s.capabilities none)).1
      (λ g i. (g, i, exactly refl), refl)

-- What `child_scope` makes of all that the envelope carries of the scope `s`.
abbrev nested : ExecutionScope → ExecutionScope
nested s = child_of (carried s) (carried s).capabilities none

-- A workflow that is called as a tool through the dispatcher runs one deeper than its caller, with
-- the caller's namespace, actor and patterns, but without the bindings of the caller's grants and
-- with the default limits. Its scope is never refused.
pub nested_scope-dispatch_envelope :
    (p : Printer) (moment : Moment) (call : Call)
    → nested_scope p (dispatch_envelope moment call) ≡ ok (nested call.scope)
unfolding nested_scope
nested_scope-dispatch_envelope p moment call =
    ap (λ (s : ExecutionScope). failed_with p child_refused (child_scope s s.capabilities none))
      (from_envelope-dispatch_envelope moment call)
    ∙ ap (failed_with p child_refused) (child_scope_self (carried call.scope))

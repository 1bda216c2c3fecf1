-- ===== src/Executor/Edges.antt =====
-- `evaluate_edges_targets`: which steps follow a step. How a condition is evaluated over the outputs
-- is the argument `evaluate_as_bool`.
pub mod Order
pub mod Picked
mod Tests
use konf.Shared.{
  ℕ, ◌++◌, Bool, true, false, Option, none, some, List, [], ◌∷◌, if◌then◌else◌, ltb_ℤ, not, Text,
  text, trim, strip_prefix, strip_suffix, Result, ok, err, ◌>>=◌,
}
use konf.Workflow.{Edge, EdgeTarget, return, Step}
use konf.Executor.{KonfluxError, execution, node_failed}

-- `sort_by_key` is stable: an edge goes before those of its own priority that stood behind it.
unfoldable pub insert_edge : Edge → List Edge → List Edge
insert_edge e [] = e ∷ []
insert_edge e (f ∷ es) = if ltb_ℤ f.priority e.priority then f ∷ insert_edge e es else e ∷ f ∷ es

unfoldable pub sort_edges : List Edge → List Edge
sort_edges [] = []
sort_edges (e ∷ es) = insert_edge e (sort_edges es)

abbrev pub or_else : Text → Option Text → Text
or_else s none = s
or_else s (some t) = t

abbrev pub without_suffix : Option Text → Option Text
without_suffix none = none
without_suffix (some s) = strip_suffix s (text "}}")

-- The condition without its braces.
unfoldable pub cleaned : Text → Text
cleaned condition =
    trim (or_else condition (without_suffix (strip_prefix (trim condition) (text "{{"))))

abbrev pub condition_failed : Step → (workflow_id problem : Text) → KonfluxError
condition_failed step workflow_id problem =
    execution (node_failed workflow_id step.id (text "Condition evaluation failed: " ++ problem))

abbrev pub Targets : Type 0
Targets = Result (List EdgeTarget) KonfluxError

module _ (evaluate_as_bool : Text → Result Bool Text) (step : Step) (workflow_id : Text) where
  -- What follows from the condition of an edge.
  abbrev pub decide : Result Bool Text → EdgeTarget → List EdgeTarget → Targets → Targets
  decide (ok true) target targets rest = ok (targets ++ target ∷ [])
  decide (ok false) target targets rest = rest
  decide (err problem) target targets rest = err (condition_failed step workflow_id problem)

  -- The loop over the sorted edges.
  unfoldable pub follow : List Edge → List EdgeTarget → Targets
  follow [] targets = ok targets
  follow (e ∷ es) targets = elim e.condition [
    | none ↦ follow es (targets ++ e.target ∷ [])
    | some condition ↦
        decide (evaluate_as_bool (cleaned condition)) e.target targets (follow es targets)
  ]

  abbrev pub or_return : List EdgeTarget → List EdgeTarget
  or_return [] = return ∷ []
  or_return (t ∷ ts) = t ∷ ts

  unfoldable pub evaluate_edges_targets : Targets
  unfolding sort_edges insert_edge follow
  evaluate_edges_targets = follow (sort_edges step.edges) [] >>= λ targets. ok (or_return targets)

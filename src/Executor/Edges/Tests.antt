-- ===== src/Executor/Edges/Tests.antt =====
-- A step with three edges.
use konf.Shared.{
  ℕ, ◌≡◌, refl, Bool, true, false, Option, none, some, [], ◌∷◌, if◌then◌else◌, Text, text, text_eq,
  Result, ok, pos, trim, strip_prefix, strip_suffix,
}
use konf.Workflow.{Step, Edge, step, new_step}
use konf.Executor.Edges.{insert_edge, sort_edges, cleaned, follow, evaluate_edges_targets}
use konf.Executor.Edges.Picked.{Picked, evaluate_edges_targets-Picked}

abbrev edge : ℕ → Option Text → Text → Edge
edge priority condition target = record {
  target = step target;
  condition = condition;
  priority = pos priority;
}

-- The edges are not in the order of their priorities.
abbrev branching : Step
branching = record (new_step (text "a") (text "echo")) {
  edges =
      edge 3 none (text "late")
      ∷ edge 2 (some (text "{{ done }}")) (text "yes")
      ∷ edge 1 none (text "always")
      ∷ [];
}

abbrev evaluate : Text → Result Bool Text
evaluate condition = if text_eq condition (text "done") then ok true else ok false

both_taken :
    evaluate_edges_targets evaluate branching (text "w")
    ≡ ok (step (text "always") ∷ step (text "yes") ∷ [])
unfolding evaluate_edges_targets sort_edges insert_edge follow cleaned text_eq trim strip_prefix
    strip_suffix new_step
both_taken = refl

evaluate_edges_targets-Picked_example :
    Picked evaluate branching (text "w") (evaluate_edges_targets evaluate branching (text "w"))
evaluate_edges_targets-Picked_example = evaluate_edges_targets-Picked evaluate branching (text "w")

-- ===== src/Process/Tests.antt =====
-- A collection of the process table, and the theorem about it.
use konf.Shared.{ℕ, ◌≡◌, refl, Option, some, none, [], ◌∷◌, text, null, false}
use konf.Process.{
  WorkflowRun, RunStatus, running, completed, user_agent, ProcessTable, get, gc, select, remove,
  is_terminal,
}
use konf.Process.Collect.{Distinct}

abbrev run_with : ℕ → RunStatus → Option ℕ → WorkflowRun
run_with id status completed_at = record {
  id = id;
  parent_id = none;
  workflow_id = text "w";
  namespace = text "konf:a";
  actor = record { id = text "bot"; role = user_agent };
  capabilities = [];
  metadata = [];
  started_at = 0;
  status = status;
  completed_at = completed_at;
  active_nodes = [];
  steps_executed = 0;
  cancel_token = false;
}

abbrev table : ProcessTable
table =
    run_with 1 (completed 5 null) (some 10)
    ∷ run_with 2 running none
    ∷ run_with 3 (completed 5 null) (some 90)
    ∷ []

table-Distinct : Distinct table
unfolding get
table-Distinct = (refl, (refl, (refl, tt)))

collected : gc 50 table ≡ run_with 2 running none ∷ run_with 3 (completed 5 null) (some 90) ∷ []
unfolding gc select remove is_terminal
collected = refl

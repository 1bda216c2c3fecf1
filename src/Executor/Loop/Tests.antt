-- ===== src/Executor/Loop/Tests.antt =====
-- Executions of small workflows.
use konf.Shared.{
  ℕ, ◌<◌, ◌≤◌, ◌≡◌, ◌≢◌, refl, ap, false, Option, none, true, some, [], ◌∷◌, text, text_eq,
  text_eq_iff, member, null, ok, arith, length,
}
use konf.Engine.{EngineConfig, default_config}
use konf.Workflow
use konf.Workflow.{
  Workflow, new_workflow, add_step, new_step, step, return, with_edge, find_step, get_step,
}
use konf.Executor.{State, set_output}
use konf.Executor.Edges.{evaluate_edges_targets, sort_edges, insert_edge, follow}
use konf.Executor.Node.{
  node, spawn_next, NodeExecutionResult, World, Finished, spawns, follow_targets, after_value,
  after_execution, take_turn, run_node,
}
use konf.Executor.Loop.{
  Task, task_of, send, Main, looping, done, sends, joins, receives, before_loop, start, Reach,
  begins, goes, received, joined, spawn_ready, try_launch,
}
use konf.Executor.Loop.Bounds.{Bounded, Reach-Bounded}
use konf.Executor.Loop.Complete.{Quiet, Reach-complete}
use konf.Executor.Loop.Lost.{Asks, lost, Reach-lost}

abbrev first_step : Workflow.Step
first_step = new_step (text "a") (text "echo")

abbrev second_step : Workflow.Step
second_step = new_step (text "b") (text "echo")

abbrev single : Workflow
single = add_step (new_workflow (text "w") (text "W") (text "a")) first_step

abbrev result : NodeExecutionResult
result = record { output = some null; steps = 1 }

-- A task that only says that its node is finished.
abbrev plain : ℕ → Workflow.Step → Task
plain n s = record { todo = send (node s.id) ∷ []; result = ok result }

abbrev at_start : Main
at_start = before_loop default_config single plain null first_step

abbrev idle_task : Task
idle_task = record { todo = []; result = ok result }

abbrev told : Main
told = record at_start { messages = node first_step.id ∷ []; tasks = idle_task ∷ [] }

abbrev counted : Main
counted = record told { messages = []; total_finished = 1 }

abbrev at_end : Main
at_end = record counted { tasks = []; steps_count = 1; final_output = null }

start-Reach : Reach default_config single plain null (looping at_start)
unfolding start get_step find_step add_step new_workflow new_step text_eq
start-Reach = begins

told-Reach : Reach default_config single plain null (looping told)
told-Reach =
    goes start-Reach
      (sends [] [] (plain 0 first_step) (node first_step.id) [] refl refl (omega arith))

counted-Reach : Reach default_config single plain null (looping counted)
unfolding received spawn_ready try_launch member text_eq new_step
counted-Reach =
    goes told-Reach
      (receives (first_step.id ∷ []) (node first_step.id) [] refl (λ id. (λ i. i, λ i. i)))

end-Reach : Reach default_config single plain null (done at_end)
unfolding joined
end-Reach = goes counted-Reach (joins [] [] idle_task refl refl)

one_step : length single.steps ≡ 1
unfolding add_step new_workflow
one_step = refl

Reach-Bounded_example : Bounded default_config single counted
Reach-Bounded_example =
    Reach-Bounded default_config single plain null counted (omega arith) counted-Reach

Reach-complete_example : (at_end.tasks ≡ []) × (at_end.messages ≡ []) × Quiet single at_end
Reach-complete_example =
    Reach-complete default_config single plain (λ n s. refl) (omega (arith, one_step)) null at_end
      end-Reach

-- One task at a time, and an entry that asks for another step.
abbrev narrow : EngineConfig
narrow = record default_config { max_concurrent_nodes = 1 }

abbrev asking_step : Workflow.Step
asking_step = with_edge (with_edge (new_step (text "a") (text "echo")) (step (text "b"))) return

abbrev double : Workflow
double = add_step (add_step (new_workflow (text "w") (text "W") (text "a")) asking_step) second_step

abbrev world : World
world = record {
  cancelled_at = λ turn. false;
  others = λ turn state. state;
  execute = λ turn s state. some (ok null);
  evaluate_as_bool = λ outputs condition. ok true;
  describe = λ e. [];
}

-- Each task is what `run_node` makes of its step.
abbrev task_or : Option Finished → Task
task_or none = idle_task
task_or (some f) = task_of f

abbrev from_input : State
from_input = set_output (text "input") null (record { outputs = []; errors = [] })

asking : ℕ → Workflow.Step → Task
asking n s = task_or (run_node double world 3 0 s 0 from_input)

abbrev entry_end : Finished
entry_end = record {
  state = set_output (text "a") null from_input;
  sent = spawn_next (text "b") ∷ node asking_step.id ∷ [];
  result = ok result;
}

entry_run : run_node double world 3 0 asking_step 0 from_input ≡ some entry_end
unfolding run_node take_turn after_execution after_value follow_targets spawns add_step new_workflow
    new_step with_edge evaluate_edges_targets sort_edges insert_edge follow
entry_run = refl

entry_asks : Asks narrow double asking null asking_step world 3 (text "b") entry_end result
unfolding asking
entry_asks = record {
  ran = entry_run;
  begun = ap task_or entry_run;
  asked_for = refl;
  ended = refl;
}

first_found : get_step double double.entry ≡ some asking_step
unfolding get_step find_step add_step new_workflow new_step with_edge text_eq
first_found = refl

second_found : get_step double (text "b") ≡ some second_step
unfolding get_step find_step add_step new_workflow new_step text_eq with_edge
second_found = refl

other_name : text "b" ≢ asking_step.id
unfolding with_edge new_step text_eq
other_name e =
    let same : text_eq (text "b") (text "a") ≡ true = (text_eq_iff (text "b") (text "a")).1 e in
    absurd (cc same)

free : second_step.depends_on ≡ []
unfolding new_step
free = refl

buffered : 0 < narrow.finished_channel_size
buffered = omega arith

few : result.steps ≤ narrow.max_steps
few = omega arith

Reach-lost_example :
    let m =
      lost narrow double asking null asking_step world 3
        (text "b")
        entry_end
        result
        refl
        buffered
        few
        first_found
        entry_asks in
    Reach narrow double asking null (done m) × ¬ Quiet double m
Reach-lost_example =
    Reach-lost narrow double asking null asking_step world 3 (text "b") entry_end result refl
      buffered few first_found entry_asks second_step other_name second_found free

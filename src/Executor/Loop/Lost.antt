-- ===== src/Executor/Loop/Lost.antt =====
-- What can get lost where only one task may run.
use konf.Shared.{
  ℕ, ◌+◌, ◌<◌, ◌≤◌, ◌≡◌, ◌≢◌, refl, ap, ap₂, subst, true, false, some, List, [], ◌∷◌, ltb, arith,
  Text, text_eq_iff, length, member, here, Json, Result, ok, map, ◌∙◌,
}
use konf.Engine.{EngineConfig}
use konf.Workflow
use konf.Workflow.{Workflow, get_step}
use konf.Executor.{KonfluxError, State, can_run}
use konf.Executor.Node.{
  FinishedInfo, node, spawn_next, NodeExecutionResult, World, Finished, run_node,
}
use konf.Executor.Loop.{
  Action, write, send, Task, task_of, writes, Main, looping, done, output_or, is_full, spawn_ready,
  received, joined, Step, sends, joins, receives, before_loop, start_with, start, Reach, begins,
  goes,
}
use konf.Executor.Loop.Complete.{Quiet}

module _ (config : EngineConfig) (workflow : Workflow) (begin : ℕ → Workflow.Step → Task)
    (input : Json) (entry : Workflow.Step) where
  abbrev pub at_start : Main
  at_start = before_loop config workflow begin input entry

  -- The task of the entry is what `run_node` makes of it, with no turn of another task between. It
  -- asks for the target, says that the entry is finished, and ends with a value.
  pub record Asks (world : World) (fuel : ℕ) (target : Text) (f : Finished)
      (r : NodeExecutionResult) : Type 0 where
    pub ran : run_node workflow world fuel 0 entry 0 at_start.state ≡ some f
    pub begun : begin 0 entry ≡ task_of f
    pub asked_for : f.sent ≡ spawn_next target ∷ node entry.id ∷ []
    pub ended : f.result ≡ ok r

module _ (config : EngineConfig) (workflow : Workflow) (begin : ℕ → Workflow.Step → Task)
    (input : Json) (entry : Workflow.Step) (world : World) (fuel : ℕ) (target : Text) (f : Finished)
    (r : NodeExecutionResult) (one : config.max_concurrent_nodes ≡ 1)
    (buffered : 0 < config.finished_channel_size) (few : r.steps ≤ config.max_steps)
    (found : get_step workflow workflow.entry ≡ some entry)
    (asks : Asks config workflow begin input entry world fuel target f r) where
  -- The tasks of the loop, one after the other.
  abbrev with_todo : List Action → Task
  with_todo todo = record { todo = todo; result = ok r }

  abbrev entry_start : Main
  entry_start = at_start config workflow begin input entry

  abbrev requests : List Action
  requests = send (spawn_next target) ∷ send (node entry.id) ∷ []

  task_of-entry : begin 0 entry ≡ with_todo (write (λ state. f.state) ∷ requests)
  task_of-entry =
      asks.begun
      ∙ ap₂
          (λ (ms : List FinishedInfo) (result : Result NodeExecutionResult KonfluxError). record {
            todo = write (λ state. f.state) ∷ map send ms;
            result = result;
          })
          asks.asked_for asks.ended

  abbrev written : Main
  written = record entry_start { state = f.state; tasks = with_todo requests ∷ [] }

  abbrev asked : Main
  asked = record written {
    messages = spawn_next target ∷ [];
    tasks = with_todo (send (node entry.id) ∷ []) ∷ [];
  }

  -- The request has been received, and the loop was full.
  abbrev noted : Main
  noted = record asked { messages = []; reachable = target ∷ entry.id ∷ [] }

  abbrev told : Main
  told = record noted { messages = node entry.id ∷ []; tasks = with_todo [] ∷ [] }

  abbrev counted : Main
  counted = record told { messages = []; total_finished = 1 }

  abbrev pub lost : Main
  lost = record counted {
    tasks = [];
    steps_count = 0 + r.steps;
    final_output = output_or entry_start.final_output r.output;
  }

  full : (m : Main) (t : Task) → m.tasks ≡ t ∷ [] → is_full config workflow begin m ≡ true
  full m t q = ground (arith, ap (length {0}) q)

  start-Reach : Reach config workflow begin input (looping entry_start)
  unfolding start
  start-Reach =
      subst (Reach config workflow begin input) (ap (start_with config workflow begin input) found)
        begins

  written-Reach : Reach config workflow begin input (looping written)
  written-Reach = goes start-Reach (
      writes [] [] (with_todo (write (λ state. f.state) ∷ requests)) (λ state. f.state) requests
        (ap (λ (t : Task). t ∷ []) task_of-entry) refl)

  asked-Reach : Reach config workflow begin input (looping asked)
  asked-Reach = goes written-Reach (
      sends [] [] (with_todo requests) (spawn_next target) (send (node entry.id) ∷ []) refl refl
        (omega arith))

  received_request :
      received config workflow begin
        (entry.id ∷ [])
        (spawn_next target)
        (record asked { messages = [] })
      ≡ looping noted
  unfolding received
  received_request = rw (full noted (with_todo (send (node entry.id) ∷ [])) refl)

  noted-Reach : Reach config workflow begin input (looping noted)
  noted-Reach = goes asked-Reach (
      subst (Step config workflow begin asked) received_request
        (receives (entry.id ∷ []) (spawn_next target) [] refl (λ id. (λ i. i, λ i. i))))

  told-Reach : Reach config workflow begin input (looping told)
  told-Reach = goes noted-Reach (
      sends [] [] (with_todo (send (node entry.id) ∷ [])) (node entry.id) [] refl refl
        (omega arith))

  received-node :
      received config workflow begin
        (target ∷ entry.id ∷ [])
        (node entry.id)
        (record told { messages = [] })
      ≡ looping counted
  unfolding received spawn_ready
  received-node = rw (full counted (with_todo []) refl)

  counted-Reach : Reach config workflow begin input (looping counted)
  counted-Reach = goes told-Reach (
      subst (Step config workflow begin told) received-node
        (receives (target ∷ entry.id ∷ []) (node entry.id) [] refl (λ id. (λ i. i, λ i. i))))

  joined_entry : joined config workflow begin (ok r) (record counted { tasks = [] }) ≡ done lost
  unfolding joined
  joined_entry = rw (within r.steps few)
    where
      within : (n : ℕ) → n ≤ config.max_steps → ltb config.max_steps (0 + n) ≡ false
      within n h = ground arith

  can_run-free : (s : Workflow.Step) (state : State) → s.depends_on ≡ [] → can_run s state ≡ true
  unfolding can_run
  can_run-free s state free = ground (arith, ap (length {0}) free)

  -- Where the configuration allows one task only, and the task that `run_node` makes of the entry
  -- asks for a node, says that the entry is finished and ends with a value, an execution can end without an error although a
  -- node that its entry asked for, and that waits for no other, was never started: the request and
  -- the end of the entry are received while the task of the entry counts as running, and when it
  -- has been joined, as many tasks have finished as were started.
  pub Reach-lost :
      (s : Workflow.Step)
      → target ≢ entry.id
      → get_step workflow target ≡ some s
      → s.depends_on ≡ []
      → Reach config workflow begin input (done lost) × ¬ Quiet workflow lost
  unfolding member
  Reach-lost s other step_found free = (
    goes counted-Reach (
        subst (Step config workflow begin counted) joined_entry
          (joins [] [] (with_todo []) refl refl)),
    λ quiet.
        let fresh : member target (entry.id ∷ []) ≡ false =
          ground (arith, text_eq_iff target entry.id) in
        absurd (cc (quiet target (here refl) s step_found fresh, can_run-free s lost.state free)),
  )

-- ===== src/Executor/Loop.antt =====
-- The loop of `Executor::execute`, as a step relation. A task that runs is what it still has to do,
-- that is to write to the shared state and to send its messages, and the result that it ends with.
-- How a task goes is given by the argument `begin`, at its number and its step; run_node of Node
-- says what it sends. A step of the relation is one of a task, or a turn of the loop: the
-- runtime of the tasks chooses among them.
pub mod Rule
mod Tests
pub mod Lost
pub mod Complete
pub mod Todo
pub mod Accounts
pub mod Bounds
use konf.Shared.{
  ℕ, suc, ◌+◌, ◌<◌, ◌≡◌, ◌++◌, ◌↔◌, Bool, true, false, ◌&&◌, Option, none, some, List, [], ◌∷◌,
  if◌then◌else◌, ltb, leb, ◌==◌, length, map, Text, text, member, In, Json, null, Result, ok, err,
}
use konf.Engine.{EngineConfig}
use konf.Workflow
use konf.Workflow.{Workflow, get_step}
use konf.Executor.{
  KonfluxError, execution, cancelled, max_steps_exceeded, join_failed, node_failed, State,
  set_output, can_run,
}
use konf.Executor.Node.{FinishedInfo, node, spawn_next, Finished, NodeExecutionResult}

pub data Action : Type 0 where
  write : (State → State) → Action
  send : FinishedInfo → Action

pub record Task : Type 0 where
  pub todo : List Action
  pub result : Result NodeExecutionResult KonfluxError

-- A task whose turns are over, and did not overlap with those of others.
abbrev pub task_of : Finished → Task
task_of f = record { todo = write (λ _. f.state) ∷ map send f.sent; result = f.result }

-- The variables of `execute`. `reachable` and `executed` are sets; `tasks` are those that have not
-- been joined, and `messages` those that have not been received.
pub record Main : Type 0 where
  pub reachable : List Text
  pub executed : List Text
  pub total_spawned : ℕ
  pub total_finished : ℕ
  pub steps_count : ℕ
  pub final_output : Json
  pub tasks : List Task
  pub messages : List FinishedInfo
  pub state : State

-- The loop runs on, or it has broken off and the output is sent, or it has returned an error.
pub data Running : Type 0 where
  looping done : Main → Running
  failed : KonfluxError → Running

abbrev pub is_empty : List Task → Bool
is_empty [] = true
is_empty (t ∷ ts) = false

-- The end of a turn.
abbrev pub settle : Main → Running
settle m = if (m.total_spawned == m.total_finished) && is_empty m.tasks then done m else looping m

abbrev pub output_or : Json → Option Json → Json
output_or v none = v
output_or v (some w) = w

module _ (config : EngineConfig) (workflow : Workflow) (begin : ℕ → Workflow.Step → Task) where
  -- A step is marked as executed, and its task is started.
  abbrev pub launch : Workflow.Step → Main → Main
  launch s m = record m {
    executed = s.id ∷ m.executed;
    total_spawned = m.total_spawned + 1;
    tasks = m.tasks ++ begin m.total_spawned s ∷ [];
  }

  unfoldable pub launch_found : Option Workflow.Step → Main → Main
  launch_found none m = m
  launch_found (some s) m = if can_run s m.state then launch s m else m

  unfoldable pub try_launch : Text → Main → Main
  unfolding launch_found
  try_launch id m = if member id m.executed then m else launch_found (get_step workflow id) m

  abbrev pub is_full : Main → Bool
  is_full m = leb config.max_concurrent_nodes (length m.tasks)

  -- The loop over the reachable nodes.
  unfoldable pub spawn_ready : List Text → Main → Main
  spawn_ready [] m = m
  spawn_ready (id ∷ ids) m = if is_full m then m else spawn_ready ids (try_launch id m)

  abbrev pub request : Text → Main → Main
  request id m = if is_full m then m else try_launch id m

  -- A message that is received; `order` is the order in which the reachable nodes are visited.
  unfoldable pub received : List Text → FinishedInfo → Main → Running
  received order (node id) m =
      settle (spawn_ready order (record m { total_finished = m.total_finished + 1 }))
  received order (spawn_next id) m = settle (request id (record m { reachable = id ∷ m.reachable }))

  abbrev pub steps_after : Main → NodeExecutionResult → ℕ
  steps_after m r = m.steps_count + r.steps

  abbrev pub too_many : KonfluxError
  too_many = execution (max_steps_exceeded workflow.id config.max_steps)

  -- A task that is joined.
  unfoldable pub joined : Result NodeExecutionResult KonfluxError → Main → Running
  joined (err e) m = failed e
  joined (ok r) m =
      if ltb config.max_steps (steps_after m r)
      then failed too_many
      else settle (record m {
        steps_count = steps_after m r;
        final_output = output_or m.final_output r.output;
      })

  abbrev pub replace : List Task → Task → List Task → Main → Main
  replace before task after m = record m { tasks = before ++ task ∷ after }

  pub data Step (m : Main) : Running → Type 0 where
    writes :
        (before after : List Task) (task : Task) (f : State → State) (todo : List Action)
        → m.tasks ≡ before ++ task ∷ after
        → task.todo ≡ write f ∷ todo
        → Step m (
            looping (record m {
              state = f m.state;
              tasks = before ++ record task { todo = todo } ∷ after;
            }))
    sends :
        (before after : List Task) (task : Task) (msg : FinishedInfo) (todo : List Action)
        → m.tasks ≡ before ++ task ∷ after
        → task.todo ≡ send msg ∷ todo
        → length m.messages < config.finished_channel_size
        → Step m (
            looping (record m {
              messages = m.messages ++ msg ∷ [];
              tasks = before ++ record task { todo = todo } ∷ after;
            }))
    joins :
        (before after : List Task) (task : Task)
        → m.tasks ≡ before ++ task ∷ after
        → task.todo ≡ []
        → Step m (joined task.result (record m { tasks = before ++ after }))
    receives :
        (order : List Text) (msg : FinishedInfo) (rest : List FinishedInfo)
        → m.messages ≡ msg ∷ rest
        → ((id : Text) → In id order ↔ In id m.reachable)
        → Step m (received order msg (record m { messages = rest }))
    panics :
        (message : Text)
        → Step m (failed (execution (join_failed workflow.id (text "unknown") message)))
    cancels : Step m (failed (execution (cancelled workflow.id)))

  -- The variables before the loop, with the task of the entry.
  abbrev pub before_loop : Json → Workflow.Step → Main
  before_loop input entry = record {
    reachable = entry.id ∷ [];
    executed = entry.id ∷ [];
    total_spawned = 1;
    total_finished = 0;
    steps_count = 0;
    final_output = null;
    tasks = begin 0 entry ∷ [];
    messages = [];
    state = set_output (text "input") input (record { outputs = []; errors = [] });
  }

  abbrev pub no_entry : KonfluxError
  no_entry = execution (node_failed workflow.id workflow.entry (text "Entry node not found"))

  abbrev pub start_with : Json → Option Workflow.Step → Running
  start_with input none = failed no_entry
  start_with input (some entry) = looping (before_loop input entry)

  -- `Executor::execute`, up to its loop
  unfoldable pub start : Json → Running
  start input = start_with input (get_step workflow workflow.entry)

  -- What an execution of the workflow on the input can come to.
  pub data Reach (input : Json) : Running → Type 0 where
    begins : Reach input (start input)
    goes : {m : Main} {r : Running} → Reach input (looping m) → Step m r → Reach input r

-- ===== src/Executor/Node.antt =====
-- The task that `Executor::spawn_node` starts. It runs a step and goes on to the next one itself
-- where only one follows, so it has turns. What it meets in a turn is a function of the turn's
-- number: whether the run is cancelled, what the other tasks have written by then, and what
-- `execute_step` gives, where `none` is a panic. The conditions are evaluated over the outputs.
pub mod Messages
mod Tests
pub mod Total
pub mod Endless
use konf.Shared.{
  ℕ, zero, suc, ◌+◌, ◌++◌, Bool, true, false, Option, none, some, List, [], ◌∷◌, if◌then◌else◌, ltb,
  leb, length, Text, text, Json, null, string, number, pos_int, Table, Result, ok, err,
}
use konf.Workflow.{
  Workflow, get_step, Step, EdgeTarget, step, return, ErrorAction, fail, skip, fallback, goto,
  RepeatConfig,
}
use konf.Executor.{KonfluxError, execution, cancelled, node_failed, State, set_output, set_error}
use konf.Executor.Edges.{evaluate_edges_targets, Targets}

pub data FinishedInfo : Type 0 where
  node : Text → FinishedInfo
  spawn_next : Text → FinishedInfo

pub record NodeExecutionResult : Type 0 where
  pub output : Option Json
  pub steps : ℕ

pub record World : Type 0 where
  pub cancelled_at : (turn : ℕ) → Bool
  pub others : (turn : ℕ) → State → State
  pub execute : (turn : ℕ) → Step → State → Option (Result Json KonfluxError)
  pub evaluate_as_bool : Table Json → Text → Result Bool Text
  pub describe : KonfluxError → Text

-- How a turn ends: with another one, of a step and a number of repetitions, or with the task's
-- messages, in their order, and its output.
pub data Turn : Type 0 where
  go_on : Step → (iteration : ℕ) → State → Turn
  over : State → List FinishedInfo → Result (Option Json) KonfluxError → Turn

-- What a task leaves when it has ended.
pub record Finished : Type 0 where
  pub state : State
  pub sent : List FinishedInfo
  pub result : Result NodeExecutionResult KonfluxError

abbrev pub with_iteration : Option RepeatConfig → ℕ → State → State
with_iteration none iteration state = state
with_iteration (some r) iteration state = elim r.as_var [
  | none ↦ state
  | some as_var ↦ set_output as_var (number (pos_int iteration)) state
]

-- The steps among the targets, each of which is asked for.
unfoldable pub spawns : List EdgeTarget → List FinishedInfo
spawns [] = []
spawns (step id ∷ targets) = spawn_next id ∷ spawns targets
spawns (return ∷ targets) = spawns targets

abbrev pub with_steps :
    ℕ → Result (Option Json) KonfluxError → Result NodeExecutionResult KonfluxError
with_steps steps (ok output) = ok (record { output = output; steps = steps })
with_steps steps (err e) = err e

module _ (workflow : Workflow) (world : World) where
  abbrev pub ended : Step → State → Result (Option Json) KonfluxError → Turn
  ended current state result = over state (node current.id ∷ []) result

  -- A single step follows: the task goes on to it if it waits for no other step.
  unfoldable pub follow_step : Step → State → Json → Text → Option Step → Turn
  follow_step current state value target none =
      over state (spawn_next target ∷ node current.id ∷ []) (ok (some value))
  follow_step current state value target (some next) =
      if leb (length next.depends_on) 1
      then go_on next 0 state
      else over state (spawn_next target ∷ node current.id ∷ []) (ok (some value))

  unfoldable pub follow_targets : Step → State → Json → Targets → Turn
  follow_targets current state value (err e) = ended current state (err e)
  follow_targets current state value (ok (step target ∷ [])) =
      follow_step current state value target (get_step workflow target)
  follow_targets current state value (ok (return ∷ [])) = ended current state (ok (some value))
  follow_targets current state value (ok targets) =
      over state (spawns targets ++ node current.id ∷ []) (ok (some value))

  abbrev pub follow_edges : Step → State → Json → Turn
  follow_edges current state value =
      follow_targets current state value
        (evaluate_edges_targets (world.evaluate_as_bool state.outputs) current workflow.id)

  abbrev pub repeat_failed : Step → Text → KonfluxError
  repeat_failed current problem =
      execution (
        node_failed workflow.id current.id (text "Repeat condition evaluation failed: " ++ problem))

  unfoldable pub after_until : Step → ℕ → State → Json → (max : ℕ) → Result Bool Text → Turn
  after_until current iteration state value max (ok true) = follow_edges current state value
  after_until current iteration state value max (ok false) =
      if ltb (iteration + 1) max
      then go_on current (iteration + 1) state
      else follow_edges current state value
  after_until current iteration state value max (err problem) =
      ended current state (err (repeat_failed current problem))

  unfoldable pub after_value : Step → ℕ → State → Json → Option RepeatConfig → Turn
  after_value current iteration state value none = follow_edges current state value
  after_value current iteration state value (some r) =
      after_until current iteration state value r.max (world.evaluate_as_bool state.outputs r.until)

  unfoldable pub go_to : Step → State → KonfluxError → Option Step → Turn
  go_to current state e none = ended current state (err e)
  go_to current state e (some next) = go_on next 0 state

  unfoldable pub after_error : Step → State → KonfluxError → ErrorAction → Turn
  after_error current state e fail =
      ended current (set_error current.id (world.describe e) state) (err e)
  after_error current state e skip = ended current (set_output current.id null state) (ok none)
  after_error current state e (fallback value) =
      ended current (set_output current.id (string value) state) (ok (some (string value)))
  after_error current state e (goto target) = go_to current state e (get_step workflow target)

  abbrev pub panicked : Step → KonfluxError
  panicked current = execution (node_failed workflow.id current.id (text "Tool execution panicked"))

  unfoldable pub after_execution : Step → ℕ → State → Option (Result Json KonfluxError) → Turn
  after_execution current iteration state none =
      after_error current state (panicked current) current.on_error
  after_execution current iteration state (some (err e)) =
      after_error current state e current.on_error
  after_execution current iteration state (some (ok value)) =
      after_value current iteration (set_output current.id value state) value current.repeat

  unfoldable pub take_turn : (turn : ℕ) → Step → (iteration : ℕ) → State → Turn
  take_turn turn current iteration before =
      if world.cancelled_at turn
      then ended current before (err (execution (cancelled workflow.id)))
      else let state = with_iteration current.repeat iteration (world.others turn before) in
        after_execution current iteration state (world.execute turn current state)

  abbrev pub next_turn : (Step → ℕ → State → Option Finished) → (turn : ℕ) → Turn → Option Finished
  next_turn again turn (go_on next i state) = again next i state
  next_turn again turn (over state sent result) =
      some (record { state = state; sent = sent; result = with_steps (turn + 1) result })

  -- The task's loop, on fuel for its turns. `turn` counts the steps that were executed.
  unfoldable pub run_node : (fuel turn : ℕ) → Step → (iteration : ℕ) → State → Option Finished
  run_node zero turn current iteration state = none
  run_node (suc fuel) turn current iteration state =
      next_turn (run_node fuel (turn + 1)) turn (take_turn turn current iteration state)

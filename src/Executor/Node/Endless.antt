-- ===== src/Executor/Node/Endless.antt =====
-- About a step that goes to itself on an error.
use konf.Shared.{ℕ, zero, suc, ◌+◌, ◌≡◌, refl, ap, ◌∙◌, false, none, some, err}
use konf.Workflow.{Workflow, get_step, Step, goto}
use konf.Executor.{KonfluxError, State}
use konf.Executor.Node.{
  World, go_on, with_iteration, go_to, after_error, after_execution, take_turn, next_turn, run_node,
}

-- The step that stands under its own name in the workflow, and goes to itself on an error.
pub record Retries (workflow : Workflow) (s : Step) : Type 0 where
  pub found : get_step workflow s.id ≡ some s
  pub again : s.on_error ≡ goto s.id

-- The step never succeeds, and the run is never cancelled.
pub record Hopeless (world : World) (s : Step) : Type 0 where
  pub going : (turn : ℕ) → world.cancelled_at turn ≡ false
  pub fails :
      (turn : ℕ) (state : State) → (e : KonfluxError) × (world.execute turn s state ≡ some (err e))

after_failure :
    (workflow : Workflow) (world : World) (s : Step) (i : ℕ) (state : State) (e : KonfluxError)
    → Retries workflow s
    → after_execution workflow world s i state (some (err e)) ≡ go_on s 0 state
unfolding after_execution after_error go_to
after_failure workflow world s i state e r =
    ap (after_error workflow world s state e) r.again ∙ ap (go_to workflow world s state e) r.found

take_turn-again :
    (workflow : Workflow) (world : World) (s : Step) (turn i : ℕ) (before : State)
    → Retries workflow s
    → Hopeless world s
    → take_turn workflow world turn s i before
      ≡ go_on s 0 (with_iteration s.repeat i (world.others turn before))
unfolding take_turn
take_turn-again workflow world s turn i before r h =
    let state = with_iteration s.repeat i (world.others turn before) in
    let (e, failed) = h.fails turn state in
    rw (h.going turn) (
      ap (after_execution workflow world s i state) failed
      ∙ after_failure workflow world s i state e r)

-- A step that goes to itself on an error and never succeeds is executed without end, in a run that
-- is not cancelled: no number of turns ends the task.
pub run_node-endless :
    (workflow : Workflow) (world : World) (s : Step)
    → Retries workflow s
    → Hopeless world s
    → (fuel turn i : ℕ) (state : State) → run_node workflow world fuel turn s i state ≡ none
unfolding run_node
run_node-endless workflow world s r h zero turn i state = refl
run_node-endless workflow world s r h (suc fuel) turn i state =
    ap (next_turn workflow world (run_node workflow world fuel (turn + 1)) turn)
      (take_turn-again workflow world s turn i state r h)
    ∙ run_node-endless workflow world s r h fuel (turn + 1) 0
        (with_iteration s.repeat i (world.others turn state))

-- ===== src/Executor/Node/Messages.antt =====
-- About the messages of a task.
use konf.Shared.{
  some-injective, ℕ, zero, suc, ◌+◌, ◌++◌, ◌≡◌, refl, Bool, true, false, Option, none, some, List,
  [], ◌∷◌, ltb, leb, length, subst, inl, inr, Bool-cases, Text, Json, Result, ok, err,
}
use konf.Workflow.{
  Workflow, get_step, Step, EdgeTarget, step, return, ErrorAction, fail, skip, fallback, goto,
  RepeatConfig,
}
use konf.Executor.{KonfluxError, State, set_output}
use konf.Executor.Edges.{evaluate_edges_targets, Targets}
use konf.Executor.Node.{
  FinishedInfo, node, spawn_next, World, Turn, go_on, over, Finished, spawns, follow_step,
  follow_targets, after_until, after_value, go_to, after_error, after_execution, take_turn,
  next_turn, run_node, with_iteration, with_steps,
}

-- Requests for steps, and then the one message that the node `id` is finished.
abbrev pub ClosesWith : Text → List FinishedInfo → Type 0
ClosesWith id [] = ⊥
ClosesWith id (node x ∷ ms) = (x ≡ id) × (ms ≡ [])
ClosesWith id (spawn_next x ∷ ms) = ClosesWith id ms

abbrev EndsWell : Step → Turn → Type 0
EndsWell current (go_on next i state) = Unit {0}
EndsWell current (over state sent result) = ClosesWith current.id sent

spawns-ClosesWith :
    (targets : List EdgeTarget) (id : Text) → ClosesWith id (spawns targets ++ node id ∷ [])
unfolding spawns
spawns-ClosesWith [] id = (refl, refl)
spawns-ClosesWith (step t ∷ targets) id = spawns-ClosesWith targets id
spawns-ClosesWith (return ∷ targets) id = spawns-ClosesWith targets id

module _ (workflow : Workflow) (world : World) where
  follow_step-EndsWell :
      (current : Step) (state : State) (value : Json) (target : Text) (o : Option Step)
      → EndsWell current (follow_step workflow world current state value target o)
  unfolding follow_step
  follow_step-EndsWell current state value target none = (refl, refl)
  follow_step-EndsWell current state value target (some next) =
      elim (Bool-cases (leb (length next.depends_on) 1)) [
        | inl e ↦ rw e tt
        | inr e ↦ rw e (refl, refl)
      ]

  follow_targets-EndsWell :
      (current : Step) (state : State) (value : Json) (targets : Targets)
      → EndsWell current (follow_targets workflow world current state value targets)
  unfolding follow_targets
  follow_targets-EndsWell current state value (err e) = (refl, refl)
  follow_targets-EndsWell current state value (ok []) = spawns-ClosesWith [] current.id
  follow_targets-EndsWell current state value (ok (step t ∷ [])) =
      follow_step-EndsWell current state value t (get_step workflow t)
  follow_targets-EndsWell current state value (ok (return ∷ [])) = (refl, refl)
  follow_targets-EndsWell current state value (ok (step s ∷ t ∷ ts)) =
      spawns-ClosesWith (step s ∷ t ∷ ts) current.id
  follow_targets-EndsWell current state value (ok (return ∷ t ∷ ts)) =
      spawns-ClosesWith (return ∷ t ∷ ts) current.id

  follow_edges-EndsWell :
      (current : Step) (state : State) (value : Json)
      → EndsWell current (
          follow_targets workflow world current state value
            (evaluate_edges_targets (world.evaluate_as_bool state.outputs) current workflow.id))
  follow_edges-EndsWell current state value =
      follow_targets-EndsWell current state value
        (evaluate_edges_targets (world.evaluate_as_bool state.outputs) current workflow.id)

  after_until-EndsWell :
      (current : Step) (i : ℕ) (state : State) (value : Json) (max : ℕ) (r : Result Bool Text)
      → EndsWell current (after_until workflow world current i state value max r)
  unfolding after_until
  after_until-EndsWell current i state value max (ok true) =
      follow_edges-EndsWell current state value
  after_until-EndsWell current i state value max (ok false) = elim (Bool-cases (ltb (i + 1) max)) [
    | inl e ↦ rw e tt
    | inr e ↦ rw e (follow_edges-EndsWell current state value)
  ]
  after_until-EndsWell current i state value max (err problem) = (refl, refl)

  after_value-EndsWell :
      (current : Step) (i : ℕ) (state : State) (value : Json) (o : Option RepeatConfig)
      → EndsWell current (after_value workflow world current i state value o)
  unfolding after_value
  after_value-EndsWell current i state value none = follow_edges-EndsWell current state value
  after_value-EndsWell current i state value (some r) =
      after_until-EndsWell current i state value r.max
        (world.evaluate_as_bool state.outputs r.until)

  go_to-EndsWell :
      (current : Step) (state : State) (e : KonfluxError) (o : Option Step)
      → EndsWell current (go_to workflow world current state e o)
  unfolding go_to
  go_to-EndsWell current state e none = (refl, refl)
  go_to-EndsWell current state e (some next) = tt

  after_error-EndsWell :
      (current : Step) (state : State) (e : KonfluxError) (a : ErrorAction)
      → EndsWell current (after_error workflow world current state e a)
  unfolding after_error
  after_error-EndsWell current state e fail = (refl, refl)
  after_error-EndsWell current state e skip = (refl, refl)
  after_error-EndsWell current state e (fallback value) = (refl, refl)
  after_error-EndsWell current state e (goto target) =
      go_to-EndsWell current state e (get_step workflow target)

  after_execution-EndsWell :
      (current : Step) (i : ℕ) (state : State) (o : Option (Result Json KonfluxError))
      → EndsWell current (after_execution workflow world current i state o)
  unfolding after_execution
  after_execution-EndsWell current i state none =
      after_error-EndsWell current state _ current.on_error
  after_execution-EndsWell current i state (some (err e)) =
      after_error-EndsWell current state e current.on_error
  after_execution-EndsWell current i state (some (ok value)) =
      after_value-EndsWell current i (set_output current.id value state) value current.repeat

  take_turn-EndsWell :
      (turn : ℕ) (current : Step) (i : ℕ) (state : State)
      → EndsWell current (take_turn workflow world turn current i state)
  unfolding take_turn
  take_turn-EndsWell turn current i before = elim (Bool-cases (world.cancelled_at turn)) [
    | inl e ↦ rw e (refl, refl)
    | inr e ↦
        let state = with_iteration current.repeat i (world.others turn before) in
        rw e (after_execution-EndsWell current i state (world.execute turn current state))
  ]

  -- From one turn on, which is that of the given number, step, repetitions and state, another one is
  -- reached.
  pub data Arrives (k : ℕ) (last : Step) (j : ℕ) (before : State)
      : ℕ → Step → ℕ → State → Type 0 where
    arrived : Arrives k last j before k last j before
    onward :
        {turn : ℕ} {current next : Step} {i i' : ℕ} {state state' : State}
        → take_turn workflow world turn current i state ≡ go_on next i' state'
        → Arrives k last j before (turn + 1) next i' state'
        → Arrives k last j before turn current i state

  -- The last turn of a task, what it leaves, and its messages.
  pub record EndsWithNode (turn : ℕ) (current : Step) (i : ℕ) (state : State) (f : Finished)
      : Type 0 where
    pub last_turn : ℕ
    pub last : Step
    pub iteration : ℕ
    pub before : State
    pub output : Result (Option Json) KonfluxError
    pub arrives : Arrives last_turn last iteration before turn current i state
    pub ends : take_turn workflow world last_turn last iteration before ≡ over f.state f.sent output
    pub result : f.result ≡ with_steps (last_turn + 1) output
    pub messages : ClosesWith last.id f.sent

  one_more :
      {turn : ℕ} {current next : Step} {i i' : ℕ} {state state' : State} {f : Finished}
      → take_turn workflow world turn current i state ≡ go_on next i' state'
      → EndsWithNode (turn + 1) next i' state' f
      → EndsWithNode turn current i state f
  one_more q e = record {
    last_turn = e.last_turn;
    last = e.last;
    iteration = e.iteration;
    before = e.before;
    output = e.output;
    arrives = onward q e.arrives;
    ends = e.ends;
    result = e.result;
    messages = e.messages;
  }

  next_turn-EndsWithNode :
      (again : Step → ℕ → State → Option Finished) (turn : ℕ) (current : Step) (i : ℕ)
      (state : State) (t : Turn) (f : Finished)
      → take_turn workflow world turn current i state ≡ t
      → EndsWell current t
      → ((next : Step) (i' : ℕ) (state' : State)
          → again next i' state' ≡ some f
          → EndsWithNode (turn + 1) next i' state' f)
      → next_turn workflow world again turn t ≡ some f
      → EndsWithNode turn current i state f
  next_turn-EndsWithNode again turn current i state (go_on next i' state') f q well rest h =
      one_more q (rest next i' state' h)
  next_turn-EndsWithNode again turn current i state (over after sent result) f q well rest h =
      subst (EndsWithNode turn current i state) (some-injective h) (record {
        last_turn = turn;
        last = current;
        iteration = i;
        before = state;
        output = result;
        arrives = arrived;
        ends = q;
        result = refl;
        messages = well;
      })

  -- However a task ends, by a value, an error, a panic or a cancellation, its last turn is reached
  -- from its first one by turns that go on, its result and state are those of the last turn, and it
  -- has sent its requests for other steps first, and then exactly one message, that the node of its
  -- last turn's step is finished.
  pub run_node-EndsWithNode :
      (fuel turn : ℕ) (current : Step) (i : ℕ) (state : State) (f : Finished)
      → run_node workflow world fuel turn current i state ≡ some f
      → EndsWithNode turn current i state f
  unfolding run_node
  run_node-EndsWithNode zero turn current i state f h = cc
  run_node-EndsWithNode (suc fuel) turn current i state f h =
      next_turn-EndsWithNode (run_node workflow world fuel (turn + 1)) turn current i state
        (take_turn workflow world turn current i state) f refl
        (take_turn-EndsWell turn current i state)
        (λ next i' state'. run_node-EndsWithNode fuel (turn + 1) next i' state' f) h

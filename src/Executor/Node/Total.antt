-- ===== src/Executor/Node/Total.antt =====
-- About the end of a task's loop.
use konf.Shared.{
  ℕ, zero, suc, ◌+◌, ◌-◌, ◌*◌, ◌≤◌, ◌<◌, ◌≡◌, refl, sym, ap, ◌∙◌, inl, inr, Bool, true, false,
  Option, none, some, List, [], ◌∷◌, ltb, leb, length, arith, Bool-cases, Text, text_eq,
  text_eq_iff, Json, In, here, there, Result, ok, err,
}
use konf.Workflow.{
  Workflow, find_step, get_step, Step, Edge, step, return, ErrorAction, fail, skip, fallback, goto,
  RepeatConfig,
}
use konf.Executor.{KonfluxError, State, set_output}
use konf.Executor.Edges.{evaluate_edges_targets, Targets}
use konf.Executor.Edges.Picked.{picked_edge}
use konf.Executor.Node.{
  World, Turn, go_on, over, Finished, follow_step, follow_targets, after_until, after_value, go_to,
  after_error, after_execution, take_turn, next_turn, run_node, with_iteration,
}

abbrev RepeatsBelow : ℕ → Option RepeatConfig → Type 0
RepeatsBelow m none = Unit {0}
RepeatsBelow m (some r) = r.max ≤ m

-- A rank of the steps that falls along every edge and every goto of the workflow, and a bound for
-- the repetitions of its steps.
pub record Ranked (workflow : Workflow) (rank : Text → ℕ) (repeats : ℕ) : Type 0 where
  pub edges_fall :
      (s : Step) (e : Edge) (t : Text)
      → In s workflow.steps
      → In e s.edges
      → e.target ≡ step t
      → rank t < rank s.id
  pub gotos_fall :
      (s : Step) (t : Text) → In s workflow.steps → s.on_error ≡ goto t → rank t < rank s.id
  pub repeats_bounded :
      (s : Step) (r : RepeatConfig) → In s workflow.steps → s.repeat ≡ some r → r.max ≤ repeats

pub find_step-In :
    (steps : List Step) (id : Text) {s : Step}
    → find_step steps id ≡ some s
    → In s steps × (s.id ≡ id)
unfolding find_step
find_step-In [] id h = cc
find_step-In (x ∷ steps) id {s} h = elim (Bool-cases (text_eq x.id id)) [
  | inl e ↦
      let same : x ≡ s = ground arith in
      (here (sym same), ap (λ (z : Step). z.id) (sym same) ∙ (text_eq_iff x.id id).0 e)
  | inr e ↦ let (i, q) = find_step-In steps id {s = s} (ground arith) in (there i, q)
]

module _ (workflow : Workflow) (world : World) (rank : Text → ℕ) (repeats : ℕ)
    (ranked : Ranked workflow rank repeats) where
  -- What the turns of a task can still come to, from a step and its repetitions.
  abbrev measure : Step → ℕ → ℕ
  measure s i = rank s.id * suc repeats + (repeats - i)

  -- A turn that goes on goes to a step of the workflow, with a smaller measure.
  abbrev Falls : Step → ℕ → Turn → Type 0
  Falls s i (go_on next j state) = In next workflow.steps × (measure next j < measure s i)
  Falls s i (over state sent result) = Unit {0}

  lower : (s next : Step) (i : ℕ) → rank next.id < rank s.id → measure next 0 < measure s i
  lower s next i h = grind arith

  -- Going on to a step that is found under a name of smaller rank.
  found-Falls :
      (s next : Step) (i : ℕ) (state : State) (t : Text)
      → rank t < rank s.id
      → get_step workflow t ≡ some next
      → Falls s i (go_on next 0 state)
  unfolding get_step
  found-Falls s next i state t h q =
      let (j, same) = find_step-In workflow.steps t q in
      (j, lower s next i (omega (arith, ap rank same)))

  follow_step-Falls :
      (s : Step) (i : ℕ) (state : State) (value : Json) (t : Text) (o : Option Step)
      → rank t < rank s.id
      → get_step workflow t ≡ o
      → Falls s i (follow_step workflow world s state value t o)
  unfolding follow_step
  follow_step-Falls s i state value t none h q = tt
  follow_step-Falls s i state value t (some next) h q =
      elim (Bool-cases (leb (length next.depends_on) 1)) [
        | inl e ↦ rw e (found-Falls s next i state t h q)
        | inr e ↦ rw e tt
      ]

  abbrev targets_of : Step → State → Targets
  targets_of s state = evaluate_edges_targets (world.evaluate_as_bool state.outputs) s workflow.id

  single-lower :
      (s : Step) (state : State) (t : Text)
      → In s workflow.steps
      → targets_of s state ≡ ok (step t ∷ [])
      → rank t < rank s.id
  single-lower s state t i h =
      elim (picked_edge (world.evaluate_as_bool state.outputs) s workflow.id (step t ∷ []) (step t)
        h (here refl)) [
          | inl q ↦ absurd (cc q)
          | inr (e, j, same) ↦ ranked.edges_fall s e t i j same
        ]

  follow_targets-Falls :
      (s : Step) (i : ℕ) (state : State) (value : Json) (r : Targets)
      → In s workflow.steps
      → targets_of s state ≡ r
      → Falls s i (follow_targets workflow world s state value r)
  unfolding follow_targets
  follow_targets-Falls s i state value (err e) j h = tt
  follow_targets-Falls s i state value (ok []) j h = tt
  follow_targets-Falls s i state value (ok (return ∷ [])) j h = tt
  follow_targets-Falls s i state value (ok (return ∷ t ∷ ts)) j h = tt
  follow_targets-Falls s i state value (ok (step t ∷ u ∷ ts)) j h = tt
  follow_targets-Falls s i state value (ok (step t ∷ [])) j h =
      follow_step-Falls s i state value t (get_step workflow t) (single-lower s state t j h) refl

  after_until-Falls :
      (s : Step) (i : ℕ) (state : State) (value : Json) (max : ℕ) (r : Result Bool Text)
      → In s workflow.steps
      → max ≤ repeats
      → Falls s i (after_until workflow world s i state value max r)
  unfolding after_until
  after_until-Falls s i state value max (ok true) j le =
      follow_targets-Falls s i state value (targets_of s state) j refl
  after_until-Falls s i state value max (ok false) j le = elim (Bool-cases (ltb (i + 1) max)) [
    | inl e ↦ rw e (j, ground arith)
    | inr e ↦ rw e (follow_targets-Falls s i state value (targets_of s state) j refl)
  ]
  after_until-Falls s i state value max (err problem) j le = tt

  after_value-Falls :
      (s : Step) (i : ℕ) (state : State) (value : Json) (o : Option RepeatConfig)
      → In s workflow.steps
      → s.repeat ≡ o
      → Falls s i (after_value workflow world s i state value o)
  unfolding after_value
  after_value-Falls s i state value none j q =
      follow_targets-Falls s i state value (targets_of s state) j refl
  after_value-Falls s i state value (some r) j q =
      after_until-Falls s i state value r.max (world.evaluate_as_bool state.outputs r.until) j
        (ranked.repeats_bounded s r j q)

  go_to-Falls :
      (s : Step) (i : ℕ) (state : State) (e : KonfluxError) (t : Text) (o : Option Step)
      → rank t < rank s.id
      → get_step workflow t ≡ o
      → Falls s i (go_to workflow world s state e o)
  unfolding go_to
  go_to-Falls s i state e t none h q = tt
  go_to-Falls s i state e t (some next) h q = found-Falls s next i state t h q

  after_error-Falls :
      (s : Step) (i : ℕ) (state : State) (e : KonfluxError) (a : ErrorAction)
      → In s workflow.steps
      → s.on_error ≡ a
      → Falls s i (after_error workflow world s state e a)
  unfolding after_error
  after_error-Falls s i state e fail j q = tt
  after_error-Falls s i state e skip j q = tt
  after_error-Falls s i state e (fallback value) j q = tt
  after_error-Falls s i state e (goto t) j q =
      go_to-Falls s i state e t (get_step workflow t) (ranked.gotos_fall s t j q) refl

  after_execution-Falls :
      (s : Step) (i : ℕ) (state : State) (o : Option (Result Json KonfluxError))
      → In s workflow.steps
      → Falls s i (after_execution workflow world s i state o)
  unfolding after_execution
  after_execution-Falls s i state none j = after_error-Falls s i state _ s.on_error j refl
  after_execution-Falls s i state (some (err e)) j = after_error-Falls s i state e s.on_error j refl
  after_execution-Falls s i state (some (ok value)) j =
      after_value-Falls s i (set_output s.id value state) value s.repeat j refl

  take_turn-Falls :
      (turn : ℕ) (s : Step) (i : ℕ) (state : State)
      → In s workflow.steps
      → Falls s i (take_turn workflow world turn s i state)
  unfolding take_turn
  take_turn-Falls turn s i before j = elim (Bool-cases (world.cancelled_at turn)) [
    | inl e ↦ rw e tt
    | inr e ↦
        let state = with_iteration s.repeat i (world.others turn before) in
        rw e (after_execution-Falls s i state (world.execute turn s state) j)
  ]

  abbrev Ends : Option Finished → Type 0
  Ends o = (f : Finished) × (o ≡ some f)

  next_turn-Ends :
      (again : Step → ℕ → State → Option Finished) (turn : ℕ) (s : Step) (i : ℕ) (t : Turn)
      → Falls s i t
      → ((next : Step) (j : ℕ) (state : State)
          → In next workflow.steps
          → measure next j < measure s i
          → Ends (again next j state))
      → Ends (next_turn workflow world again turn t)
  next_turn-Ends again turn s i (go_on next j state) falls rest = rest next j state falls.0 falls.1
  next_turn-Ends again turn s i (over state sent result) falls rest = (_, refl)

  -- A task ends, whatever its steps give, if the steps can be ranked so that the rank falls along
  -- every edge and every goto: then it takes no more turns than the rank of its step allows, with
  -- all the repetitions of each step.
  pub run_node-Ends :
      (fuel turn : ℕ) (s : Step) (i : ℕ) (state : State)
      → In s workflow.steps
      → rank s.id * suc repeats + (repeats - i) < fuel
      → (f : Finished) × (run_node workflow world fuel turn s i state ≡ some f)
  unfolding run_node
  run_node-Ends zero turn s i state j h = elim h [ ]
  run_node-Ends (suc fuel) turn s i state j h =
      next_turn-Ends (run_node workflow world fuel (turn + 1)) turn s i
        (take_turn workflow world turn s i state) (take_turn-Falls turn s i state j)
        (λ next k state' l less. run_node-Ends fuel (turn + 1) next k state' l (omega arith))

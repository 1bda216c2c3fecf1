-- ===== src/Executor/Node/Tests.antt =====
-- A workflow of two steps, and the theorems about its task.
use konf.Shared.{
  ℕ, ◌<◌, ◌≡◌, refl, sym, ap, ◌∙◌, subst, true, false, none, some, [], ◌∷◌, Text, text, text_eq,
  null, ok, err, arith, In, here, there, if◌then◌else◌,
}
use konf.Workflow.{
  Workflow, Step, Edge, step, return, goto, fail, new_workflow, add_step, new_step, with_edge,
  find_step, get_step,
}
use konf.Executor.{KonfluxError, State, execution, node_failed, set_output}
use konf.Executor.Edges.{evaluate_edges_targets, sort_edges, insert_edge, follow}
use konf.Executor.Node.{
  node, World, Finished, follow_step, follow_targets, after_value, after_execution, take_turn,
  run_node,
}
use konf.Executor.Node.Messages.{EndsWithNode, run_node-EndsWithNode}
use konf.Executor.Node.Total.{Ranked, run_node-Ends}
use konf.Executor.Node.Endless.{Retries, run_node-endless}

abbrev first_step : Step
first_step = with_edge (new_step (text "a") (text "echo")) (step (text "b"))

abbrev second_step : Step
second_step = with_edge (new_step (text "b") (text "echo")) return

abbrev chain : Workflow
chain = add_step (add_step (new_workflow (text "w") (text "W") (text "a")) first_step) second_step

abbrev world : World
world = record {
  cancelled_at = λ turn. false;
  others = λ turn state. state;
  execute = λ turn s state. some (ok null);
  evaluate_as_bool = λ outputs condition. ok true;
  describe = λ e. [];
}

abbrev nothing : State
nothing = record { outputs = []; errors = [] }

abbrev at_end : Finished
at_end = record {
  state = set_output (text "b") null (set_output (text "a") null nothing);
  sent = node (text "b") ∷ [];
  result = ok (record { output = some null; steps = 2 });
}

chain_run : run_node chain world 3 0 first_step 0 nothing ≡ some at_end
unfolding run_node take_turn after_execution after_value follow_targets follow_step get_step
    find_step add_step new_workflow new_step with_edge evaluate_edges_targets sort_edges insert_edge
    follow text_eq
chain_run = refl

run_node-EndsWithNode_example : EndsWithNode chain world 0 first_step 0 nothing at_end
run_node-EndsWithNode_example =
    run_node-EndsWithNode chain world 3 0 first_step 0 nothing at_end chain_run

rank : Text → ℕ
rank name = if text_eq name (text "a") then 1 else 0

first_edges :
    (e : Edge) (t : Text) → In e first_step.edges → e.target ≡ step t → rank t < rank first_step.id
unfolding new_step with_edge rank text_eq
first_edges e t (here p) h =
    let b : text "b" ≡ t = ground (arith, sym (ap (λ (z : Edge). z.target) p) ∙ h) in
    subst (λ z. rank z < 1) b (omega arith)
first_edges e t (there j) h = elim j [ ]

second_edges :
    (e : Edge) (t : Text)
    → In e second_step.edges
    → e.target ≡ step t
    → rank t < rank second_step.id
unfolding new_step with_edge
second_edges e t (here p) h = absurd (cc (sym (ap (λ (z : Edge). z.target) p) ∙ h))
second_edges e t (there j) h = elim j [ ]

abbrev EdgesFall : Step → Type 0
EdgesFall s = (e : Edge) (t : Text) → In e s.edges → e.target ≡ step t → rank t < rank s.id

chain_edges : (s : Step) → In s chain.steps → EdgesFall s
unfolding add_step new_workflow
chain_edges s (here q) = subst EdgesFall (sym q) first_edges
chain_edges s (there (here q)) = subst EdgesFall (sym q) second_edges
chain_edges s (there (there j)) = elim j [ ]

-- No step of the chain has a goto or repetitions.
abbrev Plain : Step → Type 0
Plain s = (s.on_error ≡ fail) × (s.repeat ≡ none)

chain-Plain : (s : Step) → In s chain.steps → Plain s
unfolding add_step new_workflow new_step with_edge
chain-Plain s (here q) = subst Plain (sym q) (refl, refl)
chain-Plain s (there (here q)) = subst Plain (sym q) (refl, refl)
chain-Plain s (there (there j)) = elim j [ ]

chain-Ranked : Ranked chain rank 0
chain-Ranked = record {
  edges_fall = λ s e t i j h. chain_edges s i e t j h;
  gotos_fall = λ s t i h. absurd (cc ((chain-Plain s i).0, h));
  repeats_bounded = λ s r i h. absurd (cc ((chain-Plain s i).1, h));
}

first_In : In first_step chain.steps
unfolding add_step new_workflow
first_In = here refl

first_rank : rank first_step.id ≡ 1
unfolding rank new_step with_edge text_eq
first_rank = refl

run_node-Ends_example : (f : Finished) × (run_node chain world 2 0 first_step 0 nothing ≡ some f)
run_node-Ends_example =
    run_node-Ends chain world rank 0 chain-Ranked 2 0 first_step 0 nothing first_In
      (omega (arith, first_rank))

-- A step that goes to itself on an error, in a world where it fails.
abbrev stubborn : Step
stubborn = record (new_step (text "a") (text "echo")) { on_error = goto (text "a") }

abbrev loop : Workflow
loop = add_step (new_workflow (text "w") (text "W") (text "a")) stubborn

abbrev broken : KonfluxError
broken = execution (node_failed (text "w") (text "a") (text "broken"))

abbrev hopeless_world : World
hopeless_world = record world { execute = λ turn s state. some (err broken) }

stubborn-Retries : Retries loop stubborn
unfolding get_step find_step add_step new_workflow new_step text_eq
stubborn-Retries = record { found = refl; again = refl }

run_node-endless_example : run_node loop hopeless_world 1_000_000 0 stubborn 0 nothing ≡ none
run_node-endless_example =
    run_node-endless loop hopeless_world stubborn stubborn-Retries
      (record { going = λ turn. refl; fails = λ turn state. (broken, refl) }) 1_000_000 0 0 nothing

-- ===== src/Executor/Loop/Rule.antt =====
-- How a property of the loop's variables is carried through an execution.
use konf.Shared.{
  ℕ, ◌+◌, ◌<◌, ◌≤◌, ◌≡◌, refl, sym, subst, ◌++◌, ◌↔◌, inl, inr, true, false, ◌&&◌, Option, none,
  some, List, [], ◌∷◌, ltb, ◌==◌, length, arith, Bool-cases, Text, member, In, Json, Result, ok,
  err,
}
use konf.Engine.{EngineConfig}
use konf.Workflow
use konf.Workflow.{Workflow, find_step, get_step}
use konf.Executor.{KonfluxError, State, can_run}
use konf.Executor.Node.{FinishedInfo, node, spawn_next, NodeExecutionResult}
use konf.Executor.Node.Total.{find_step-In}
use konf.Executor.Loop.{
  Action, write, send, Task, Main, Running, looping, done, failed, is_empty, settle, output_or,
  launch, launch_found, try_launch, is_full, spawn_ready, request, received, joined, steps_after,
  Step, writes, sends, joins, receives, panics, cancels, before_loop, start_with, start, Reach,
  begins, goes,
}

module _ (config : EngineConfig) (workflow : Workflow) (begin : ℕ → Workflow.Step → Task) where
  -- What the loop has checked of a step before it launches it.
  pub record Launchable (m : Main) (s : Workflow.Step) : Type 0 where
    pub room : length m.tasks < config.max_concurrent_nodes
    pub fresh : member s.id m.executed ≡ false
    pub known : In s workflow.steps
    pub ready : can_run s m.state ≡ true

  -- What carries a property through the launches of a turn.
  abbrev pub Launches {ℓ} : (Main → Type ℓ) → Type ℓ
  Launches P =
      (m : Main) (s : Workflow.Step) → Launchable m s → P m → P (launch config workflow begin s m)

  launch_found-keeps {ℓ} :
      {P : Main → Type ℓ} (keep : Launches P) (o : Option Workflow.Step) (m : Main) (id : Text)
      → get_step workflow id ≡ o
      → length m.tasks < config.max_concurrent_nodes
      → member id m.executed ≡ false
      → P m
      → P (launch_found config workflow begin o m)
  unfolding launch_found get_step
  launch_found-keeps keep none m id q room fresh p = p
  launch_found-keeps keep (some s) m id q room fresh p =
      let (known, same) = find_step-In workflow.steps id q in
      elim (Bool-cases (can_run s m.state)) [
        | inl ready ↦ rw ready (
            keep m s
              (record {
                room = room;
                fresh = subst (λ z. member z m.executed ≡ false) (sym same) fresh;
                known = known;
                ready = ready;
              })
              p)
        | inr e ↦ rw e p
      ]

  pub try_launch-keeps {ℓ} :
      {P : Main → Type ℓ} (keep : Launches P) (id : Text) (m : Main)
      → length m.tasks < config.max_concurrent_nodes
      → P m
      → P (try_launch config workflow begin id m)
  unfolding try_launch
  try_launch-keeps keep id m room p = elim (Bool-cases (member id m.executed)) [
    | inl e ↦ rw e p
    | inr fresh ↦ rw fresh (launch_found-keeps keep (get_step workflow id) m id refl room fresh p)
  ]

  pub request-keeps {ℓ} :
      {P : Main → Type ℓ} (keep : Launches P) (id : Text) (m : Main)
      → P m
      → P (request config workflow begin id m)
  request-keeps keep id m p = elim (Bool-cases (is_full config workflow begin m)) [
    | inl e ↦ rw e p
    | inr e ↦ rw e (try_launch-keeps keep id m (ground arith) p)
  ]

  pub spawn_ready-keeps {ℓ} :
      {P : Main → Type ℓ} (keep : Launches P) (ids : List Text) (m : Main)
      → P m
      → P (spawn_ready config workflow begin ids m)
  unfolding spawn_ready
  spawn_ready-keeps keep [] m p = p
  spawn_ready-keeps keep (id ∷ ids) m p = elim (Bool-cases (is_full config workflow begin m)) [
    | inl e ↦ rw e p
    | inr e ↦ rw e (
        spawn_ready-keeps keep ids (try_launch config workflow begin id m)
          (try_launch-keeps keep id m (ground arith) p))
  ]

  -- A property that every step of an execution keeps. For a message, it is the property after the
  -- launches that is asked for.
  pub record Keeps (P : Main → Type 0) : Type 0 where
    pub written :
        (m : Main) (before after : List Task) (task : Task) (f : State → State) (todo : List Action)
        → m.tasks ≡ before ++ task ∷ after
        → task.todo ≡ write f ∷ todo
        → P m
        → P (record m { state = f m.state; tasks = before ++ record task { todo = todo } ∷ after })
    pub sent :
        (m : Main) (before after : List Task) (task : Task) (msg : FinishedInfo)
        (todo : List Action)
        → m.tasks ≡ before ++ task ∷ after
        → task.todo ≡ send msg ∷ todo
        → length m.messages < config.finished_channel_size
        → P m
        → P (record m {
          messages = m.messages ++ msg ∷ [];
          tasks = before ++ record task { todo = todo } ∷ after;
        })
    pub joined_ok :
        (m : Main) (before after : List Task) (task : Task) (r : NodeExecutionResult)
        → m.tasks ≡ before ++ task ∷ after
        → task.todo ≡ []
        → steps_after config workflow begin m r ≤ config.max_steps
        → P m
        → P (record m {
          tasks = before ++ after;
          steps_count = steps_after config workflow begin m r;
          final_output = output_or m.final_output r.output;
        })
    pub finished :
        (m : Main) (order : List Text) (id : Text) (rest : List FinishedInfo)
        → m.messages ≡ node id ∷ rest
        → ((x : Text) → In x order ↔ In x m.reachable)
        → P m
        → P (
            spawn_ready config workflow begin order
              (record m { messages = rest; total_finished = m.total_finished + 1 }))
    pub requested :
        (m : Main) (id : Text) (rest : List FinishedInfo)
        → m.messages ≡ spawn_next id ∷ rest
        → P m
        → P (
            request config workflow begin id
              (record m { messages = rest; reachable = id ∷ m.reachable }))

  -- The property at a point of an execution; where it has ended well, at the end of the last turn.
  abbrev pub Holds : (Main → Type 0) → Running → Type 0
  Holds P (looping m) = P m
  Holds P (failed e) = Unit {0}
  Holds P (done m) = P m × (m.total_spawned ≡ m.total_finished) × (m.tasks ≡ [])

  empty-eq : (ts : List Task) → is_empty ts ≡ true → ts ≡ []
  empty-eq [] h = refl
  empty-eq (t ∷ ts) h = cc

  settle-Holds : (P : Main → Type 0) (m : Main) → P m → Holds P (settle m)
  settle-Holds P m p =
      elim (Bool-cases ((m.total_spawned == m.total_finished) && is_empty m.tasks)) [
        | inl e ↦ rw e (p, ground arith, empty-eq m.tasks (ground arith))
        | inr e ↦ rw e p
      ]

  module _ (P : Main → Type 0) (keeps : Keeps P) where
    joined-Holds :
        (m : Main) (before after : List Task) (task : Task)
        (r : Result NodeExecutionResult KonfluxError)
        → m.tasks ≡ before ++ task ∷ after
        → task.todo ≡ []
        → P m
        → Holds P (joined config workflow begin r (record m { tasks = before ++ after }))
    unfolding joined
    joined-Holds m before after task (err e) q idle p = tt
    joined-Holds m before after task (ok r) q idle p =
        elim (Bool-cases (ltb config.max_steps (steps_after config workflow begin m r))) [
          | inl e ↦ rw e tt
          | inr e ↦ rw e (
              settle-Holds P
                (record m {
                  tasks = before ++ after;
                  steps_count = steps_after config workflow begin m r;
                  final_output = output_or m.final_output r.output;
                })
                (keeps.joined_ok m before after task r q idle (ground arith) p))
        ]

    received-Holds :
        (m : Main) (order : List Text) (msg : FinishedInfo) (rest : List FinishedInfo)
        → m.messages ≡ msg ∷ rest
        → ((id : Text) → In id order ↔ In id m.reachable)
        → P m
        → Holds P (received config workflow begin order msg (record m { messages = rest }))
    unfolding received
    received-Holds m order (node id) rest q same p =
        settle-Holds P _ (keeps.finished m order id rest q same p)
    received-Holds m order (spawn_next id) rest q same p =
        settle-Holds P _ (keeps.requested m id rest q p)

    Step-Holds : {m : Main} {r : Running} → P m → Step config workflow begin m r → Holds P r
    Step-Holds {m} p (writes before after task f todo q act) =
        keeps.written m before after task f todo q act p
    Step-Holds {m} p (sends before after task msg todo q act room) =
        keeps.sent m before after task msg todo q act room p
    Step-Holds {m} p (joins before after task q idle) =
        joined-Holds m before after task task.result q idle p
    Step-Holds {m} p (receives order msg rest q same) = received-Holds m order msg rest q same p
    Step-Holds p (panics message) = tt
    Step-Holds p cancels = tt

    abbrev Begins : Json → Type 0
    Begins input =
        (entry : Workflow.Step)
        → In entry workflow.steps
        → P (before_loop config workflow begin input entry)

    start_with-Holds :
        (input : Json) (o : Option Workflow.Step)
        → get_step workflow workflow.entry ≡ o
        → Begins input
        → Holds P (start_with config workflow begin input o)
    unfolding get_step
    start_with-Holds input none q b = tt
    start_with-Holds input (some entry) q b =
        b entry (find_step-In workflow.steps workflow.entry q).0

    -- The rule: a property that the steps keep holds all through an execution that begins with it.
    pub Reach-Holds :
        (input : Json) {r : Running}
        → ((entry : Workflow.Step)
            → In entry workflow.steps
            → P (before_loop config workflow begin input entry))
        → Reach config workflow begin input r
        → Holds P r
    unfolding start
    Reach-Holds input b begins = start_with-Holds input (get_step workflow workflow.entry) refl b
    Reach-Holds input b (goes reached st) = Step-Holds (Reach-Holds input b reached) st

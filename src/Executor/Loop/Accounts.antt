-- ===== src/Executor/Loop/Accounts.antt =====
-- The messages that are on their way.
use konf.Shared.{
  ℕ, suc, ◌+◌, ◌<◌, ◌≡◌, refl, sym, ap, subst, ◌++◌, List, [], ◌∷◌, arith, Text, In, here, there,
  In-middle, Json,
}
use konf.Engine.{EngineConfig}
use konf.Workflow
use konf.Workflow.{Workflow}
use konf.Executor.{State}
use konf.Executor.Node.{FinishedInfo, node, spawn_next}
use konf.Executor.Loop.{Action, write, send, Task, Main, before_loop}
use konf.Executor.Loop.Rule.{Keeps, Launches, spawn_ready-keeps, request-keeps}
use konf.Executor.Loop.Todo.{
  Ends, Rest, nodes_todo, nodes_tasks, nodes_sent, AllRest, Trailing, Accounted, Ends→Rest,
  Ends-nodes, nodes_tasks-append, nodes_sent-append, nodes_tasks-middle, Trailing-le,
  Trailing-request, Trailing-node, AllRest-replace, AllRest-leave, AllRest-append,
}

module _ (config : EngineConfig) (workflow : Workflow) (begin : ℕ → Workflow.Step → Task)
    (ends : (n : ℕ) (s : Workflow.Step) → Ends (begin n s).todo) where
  pub launch-Accounted : Launches config workflow begin Accounted
  unfolding nodes_tasks
  launch-Accounted m s l a =
      let task = begin m.total_spawned s in
      let more = nodes_tasks-append m.tasks (task ∷ []) in
      let one = Ends-nodes task.todo (ends m.total_spawned s) in
      record {
        counted = omega (arith, a.counted, more, one);
        resting =
            AllRest-append m.tasks task a.resting (Ends→Rest task.todo (ends m.total_spawned s));
        trailing = Trailing-le m.messages (nodes_tasks m.tasks) _ (omega (arith, more)) a.trailing;
      }

  -- What a task that acts had to do.
  acting :
      (m : Main) (before after : List Task) (task : Task) (a : Action) (todo : List Action)
      → m.tasks ≡ before ++ task ∷ after
      → task.todo ≡ a ∷ todo
      → Accounted m
      → Ends (a ∷ todo)
  acting m before after task a todo q act acc =
      subst Rest act
        (acc.resting task (subst (λ z. In task z) (sym q) (In-middle before task after)))

  -- The nodes of the tasks, before and after one of them has acted.
  nodes_before :
      (m : Main) (before after : List Task) (task : Task) {todo : List Action}
      → m.tasks ≡ before ++ task ∷ after
      → task.todo ≡ todo
      → nodes_tasks m.tasks ≡ nodes_tasks before + nodes_todo todo + nodes_tasks after
  nodes_before m before after task q act =
      omega (arith, ap nodes_tasks q, nodes_tasks-middle before after task, ap nodes_todo act)

  written-Accounted :
      (m : Main) (before after : List Task) (task : Task) (f : State → State) (todo : List Action)
      → m.tasks ≡ before ++ task ∷ after
      → task.todo ≡ write f ∷ todo
      → Accounted m
      → Accounted
          (record m { state = f m.state; tasks = before ++ record task { todo = todo } ∷ after })
  unfolding nodes_todo
  written-Accounted m before after task f todo q act a =
      let task' : Task = record task { todo = todo } in
      let same : nodes_tasks (before ++ task' ∷ after) ≡ nodes_tasks m.tasks =
        omega
          (arith, nodes_before m before after task q act, nodes_tasks-middle before after task') in
      record {
        counted = omega (arith, a.counted, same);
        resting =
            AllRest-replace before after task task' (subst AllRest q a.resting)
              (Ends→Rest todo (acting m before after task (write f) todo q act a));
        trailing = subst (Trailing m.messages) (sym same) a.trailing;
      }

  sent-Accounted :
      (m : Main) (before after : List Task) (task : Task) (msg : FinishedInfo) (todo : List Action)
      → m.tasks ≡ before ++ task ∷ after
      → task.todo ≡ send msg ∷ todo
      → Accounted m
      → Accounted (record m {
        messages = m.messages ++ msg ∷ [];
        tasks = before ++ record task { todo = todo } ∷ after;
      })
  unfolding nodes_todo nodes_sent
  sent-Accounted m before after task (spawn_next id) todo q act a =
      let task' : Task = record task { todo = todo } in
      let e = acting m before after task (send (spawn_next id)) todo q act a in
      let was = nodes_before m before after task q act in
      let now = nodes_tasks-middle before after task' in
      let same : nodes_tasks (before ++ task' ∷ after) ≡ nodes_tasks m.tasks =
        omega (arith, was, now) in
      record {
        counted = omega (arith, a.counted, same, nodes_sent-append m.messages (spawn_next id ∷ []));
        resting =
            AllRest-replace before after task task' (subst AllRest q a.resting) (Ends→Rest todo e);
        trailing = subst (Trailing (m.messages ++ spawn_next id ∷ [])) (sym same) (
            Trailing-request m.messages id (nodes_tasks m.tasks)
              (omega (arith, was, Ends-nodes todo e)) a.trailing);
      }
  sent-Accounted m before after task (node id) todo q act a =
      let task' : Task = record task { todo = todo } in
      let e = acting m before after task (send (node id)) todo q act a in
      let was = nodes_before m before after task q act in
      let now = nodes_tasks-middle before after task' in
      let fewer : nodes_tasks m.tasks ≡ suc (nodes_tasks (before ++ task' ∷ after)) =
        omega (arith, was, now) in
      record {
        counted = omega (arith, a.counted, fewer, nodes_sent-append m.messages (node id ∷ []));
        resting =
            AllRest-replace before after task task' (subst AllRest q a.resting)
              (subst Rest (sym e) tt);
        trailing =
            Trailing-node m.messages id (nodes_tasks (before ++ task' ∷ after))
              (subst (Trailing m.messages) fewer a.trailing);
      }

  joined-Accounted :
      (m m' : Main) (before after : List Task) (task : Task)
      → m.tasks ≡ before ++ task ∷ after
      → task.todo ≡ []
      → m'.tasks ≡ before ++ after
      → m'.messages ≡ m.messages
      → m'.total_finished ≡ m.total_finished
      → m'.total_spawned ≡ m.total_spawned
      → Accounted m
      → Accounted m'
  unfolding nodes_todo
  joined-Accounted m m' before after task q idle ts ms fin spawned a =
      let same : nodes_tasks m'.tasks ≡ nodes_tasks m.tasks = omega (
        arith,
        nodes_before m before after task q idle,
        ap nodes_tasks ts,
        nodes_tasks-append before after,
      ) in
      record {
        counted = omega (arith, a.counted, same, fin, spawned, ap nodes_sent ms);
        resting =
            subst AllRest (sym ts) (AllRest-leave before after task (subst AllRest q a.resting));
        trailing =
            subst (λ z. Trailing z (nodes_tasks m'.tasks)) (sym ms)
              (subst (Trailing m.messages) (sym same) a.trailing);
      }

  -- A message is received; a request leaves a node behind it that is not yet called finished.
  node-Accounted :
      (m : Main) (id : Text) (rest : List FinishedInfo)
      → m.messages ≡ node id ∷ rest
      → Accounted m
      → Accounted (record m { messages = rest; total_finished = m.total_finished + 1 })
  unfolding nodes_sent
  node-Accounted m id rest q a = record {
    counted = omega (arith, a.counted, ap nodes_sent q);
    resting = a.resting;
    trailing = subst (λ z. Trailing z (nodes_tasks m.tasks)) q a.trailing;
  }

  pub request-Accounted :
      (m : Main) (id : Text) (rest : List FinishedInfo)
      → m.messages ≡ spawn_next id ∷ rest
      → Accounted m
      → Accounted (record m { messages = rest; reachable = id ∷ m.reachable })
        × (m.total_finished < m.total_spawned)
  unfolding nodes_sent
  request-Accounted m id rest q a =
      let (some_node, t) = subst (λ z. Trailing z (nodes_tasks m.tasks)) q a.trailing in
      let count = ap nodes_sent q in
      (
        record { counted = omega (arith, a.counted, count); resting = a.resting; trailing = t },
        omega (arith, a.counted, count, some_node),
      )

  pub Accounted-Keeps : Keeps config workflow begin Accounted
  Accounted-Keeps = record {
    written = written-Accounted;
    sent = λ m before after task msg todo q act room a.
        sent-Accounted m before after task msg todo q act a;
    joined_ok = λ m before after task r q idle le a.
        joined-Accounted m _ before after task q idle refl refl refl refl a;
    finished = λ m order id rest q same a.
        spawn_ready-keeps config workflow begin launch-Accounted order _
          (node-Accounted m id rest q a);
    requested = λ m id rest q a.
        request-keeps config workflow begin launch-Accounted id _
          (request-Accounted m id rest q a).0;
  }

  pub before_loop-Accounted :
      (input : Json) (entry : Workflow.Step)
      → Accounted (before_loop config workflow begin input entry)
  unfolding nodes_tasks nodes_sent
  before_loop-Accounted input entry = record {
    counted = omega (arith, Ends-nodes (begin 0 entry).todo (ends 0 entry));
    resting = λ t i. elim i [
      | here q ↦
          subst (λ (z : Task). Rest z.todo) (sym q) (Ends→Rest (begin 0 entry).todo (ends 0 entry))
      | there j ↦ elim j [ ]
    ];
    trailing = tt;
  }

  -- A task that writes is one whose node is not yet called finished.
  pub writing :
      (m : Main) (before after : List Task) (task : Task) (f : State → State) (todo : List Action)
      → m.tasks ≡ before ++ task ∷ after
      → task.todo ≡ write f ∷ todo
      → Accounted m
      → m.total_finished < m.total_spawned
  unfolding nodes_todo
  writing m before after task f todo q act a = omega (
    arith,
    a.counted,
    nodes_before m before after task q act,
    Ends-nodes todo (acting m before after task (write f) todo q act a),
  )

silent : (ms : List FinishedInfo) (k : ℕ) → Trailing ms k → nodes_sent ms + k ≡ 0 → ms ≡ []
unfolding nodes_sent
silent [] k t none_left = refl
silent (node id ∷ ms) k t none_left = absurd (omega arith)
silent (spawn_next id ∷ ms) k t none_left = absurd (omega arith)

-- Where everything is called finished, nothing is on its way.
pub no_messages : (m : Main) → Accounted m → m.total_spawned ≡ m.total_finished → m.messages ≡ []
no_messages m a done = silent m.messages (nodes_tasks m.tasks) a.trailing (omega (arith, a.counted))

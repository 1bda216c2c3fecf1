-- ===== src/Executor/Loop/Complete.antt =====
-- What an execution that ends well has done.
use konf.Shared.{
  ap, ℕ, ◌+◌, ◌<◌, ◌≤◌, ◌≡◌, refl, sym, ◌∙◌, subst, ◌↔◌, ◌⊎◌, inl, inr, true, false, Option, none,
  some, List, [], ◌∷◌, length, arith, Bool-cases, Text, text_eq_iff, member, In, here, there,
  Distinct, Distinct-length, Json, In-map,
}
use konf.Engine.{EngineConfig}
use konf.Workflow
use konf.Workflow.{Workflow, get_step}
use konf.Executor.{can_run}
use konf.Executor.Node.{FinishedInfo}
use konf.Executor.Node.Total.{find_step-In}
use konf.Executor.Node.{node}
use konf.Executor.Loop.{
  Task, Main, done, launch_found, try_launch, is_full, spawn_ready, before_loop, Reach,
}
use konf.Executor.Loop.Rule.{
  Keeps, Launches, try_launch-keeps, spawn_ready-keeps, request-keeps, Reach-Holds,
}
use konf.Executor.Loop.Bounds.{
  Bounded, launch-Bounded, Bounded-Keeps, before_loop-Bounded, ids, length-ids,
}
use konf.Executor.Loop.Accounts.{
  Accounted-Keeps, before_loop-Accounted, request-Accounted, writing, no_messages,
}
use konf.Executor.Loop.Todo.{Ends, Accounted}

-- The node has been started, or it is no step of the workflow, or it cannot run.
abbrev pub Settled : Workflow → Main → Text → Type 0
Settled workflow m id =
    (s : Workflow.Step)
    → get_step workflow id ≡ some s
    → member id m.executed ≡ false
    → can_run s m.state ≡ false

abbrev pub Quiet : Workflow → Main → Type 0
Quiet workflow m = (id : Text) → In id m.reachable → Settled workflow m id

module _ (config : EngineConfig) (workflow : Workflow) (begin : ℕ → Workflow.Step → Task)
    (ends : (n : ℕ) (s : Workflow.Step) → Ends (begin n s).todo)
    (enough : length workflow.steps ≤ config.max_concurrent_nodes) where
  -- A full loop has started every step.
  full-Settled :
      (m : Main) (id : Text)
      → is_full config workflow begin m ≡ true
      → Bounded config workflow m
      → Settled workflow m id
  unfolding get_step
  full-Settled m id full b s found fresh =
      let (i, same) = find_step-In workflow.steps id found in
      let more : Distinct (id ∷ m.executed) = (fresh, b.distinct) in
      let known : (t : Text) → In t (id ∷ m.executed) → In t (ids workflow) = λ t j. elim j [
        | here q ↦
            subst (λ z. In z (ids workflow)) (same ∙ sym q)
              (In-map (λ (x : Workflow.Step). x.id) workflow.steps i)
        | there k ↦ b.known t k
      ] in
      let le = Distinct-length (id ∷ m.executed) (ids workflow) more known in
      let few = length-ids workflow.steps in
      absurd (ground (arith, b.tasks_spawned, b.spawned_once))

  executed-member :
      (id x : Text) (ts : List Text) → member id (x ∷ ts) ≡ false → member id ts ≡ false
  unfolding member
  executed-member id x ts h = ground arith

  launch-Settled : (id : Text) → Launches config workflow begin (λ m. Settled workflow m id)
  launch-Settled id m s l settled t found fresh =
      settled t found (executed-member id s.id m.executed fresh)

  member_head : (id x : Text) (ts : List Text) → id ≡ x → member id (x ∷ ts) ≡ true
  unfolding member
  member_head id x ts q = ground (arith, (text_eq_iff id x).1 q)

  launch_found-Settled :
      (m : Main) (id : Text) (o : Option Workflow.Step)
      → get_step workflow id ≡ o
      → Settled workflow (launch_found config workflow begin o m) id
  unfolding launch_found get_step member
  launch_found-Settled m id none q s found fresh = absurd (cc (q, found))
  launch_found-Settled m id (some t) q s found fresh =
      let same : t ≡ s = ground (arith, sym q ∙ found) in
      let named = (find_step-In workflow.steps id q).1 in
      elim (Bool-cases (can_run t m.state)) [
        | inl e ↦ absurd (cc (rw e at fresh, member_head id t.id m.executed (sym named)))
        | inr e ↦ rw e (subst (λ z. can_run z m.state ≡ false) same e)
      ]

  try_launch-Settled :
      (m : Main) (id : Text) → Settled workflow (try_launch config workflow begin id m) id
  unfolding try_launch
  try_launch-Settled m id = elim (Bool-cases (member id m.executed)) [
    | inl e ↦ rw e (λ s found fresh. absurd (cc (e, fresh)))
    | inr e ↦ rw e (launch_found-Settled m id (get_step workflow id) refl)
  ]

  spawn_ready-Settled :
      (order : List Text) (m : Main) (id : Text)
      → Bounded config workflow m
      → In id order
      → Settled workflow (spawn_ready config workflow begin order m) id
  unfolding spawn_ready
  spawn_ready-Settled [] m id b i = elim i [ ]
  spawn_ready-Settled (x ∷ order) m id b i = elim (Bool-cases (is_full config workflow begin m)) [
    | inl full ↦ rw full (full-Settled m id full b)
    | inr room ↦
        let m' = try_launch config workflow begin x m in
        rw room (elim i [
          | here q ↦
              spawn_ready-keeps config workflow begin (launch-Settled id) order m'
                (subst (Settled workflow m') (sym q) (try_launch-Settled m x))
          | there j ↦
              spawn_ready-Settled order m' id
                (try_launch-keeps config workflow begin (launch-Bounded config workflow begin) x m
                  (ground arith) b)
                j
        ])
  ]

  spawn_ready-reachable :
      (order : List Text) (m : Main)
      → (spawn_ready config workflow begin order m).reachable ≡ m.reachable
  spawn_ready-reachable order m =
      spawn_ready-keeps config workflow begin {P = λ m'. m'.reachable ≡ m.reachable} (λ m' s l q. q)
        order m refl

  same_bounds :
      (m : Main) (rest : List FinishedInfo)
      → length rest ≤ config.finished_channel_size
      → Bounded config workflow m
      → Bounded config workflow
          (record m { messages = rest; total_finished = m.total_finished + 1 })
  same_bounds m rest le b = record {
    few_tasks = b.few_tasks;
    few_steps = b.few_steps;
    tasks_spawned = b.tasks_spawned;
    spawned_once = b.spawned_once;
    distinct = b.distinct;
    known = b.known;
    few_messages = le;
  }

  -- What holds all through: a node is still to be called finished, or no more can be started.
  pub record Kept (m : Main) : Type 0 where
    pub bounded : Bounded config workflow m
    pub accounted : Accounted m
    pub progress : (m.total_finished < m.total_spawned) ⊎ Quiet workflow m

  abbrev bounds : Keeps config workflow begin (Bounded config workflow)
  bounds = Bounded-Keeps config workflow begin

  abbrev accounts : Keeps config workflow begin Accounted
  accounts = Accounted-Keeps config workflow begin ends

  launch-busy : Launches config workflow begin (λ m. m.total_finished < m.total_spawned)
  launch-busy m s l busy = omega arith

  Kept-Keeps : Keeps config workflow begin Kept
  Kept-Keeps = record {
    written = λ m before after task f todo q act k. record {
      bounded = bounds.written m before after task f todo q act k.bounded;
      accounted = accounts.written m before after task f todo q act k.accounted;
      progress =
          inl (writing config workflow begin ends m before after task f todo q act k.accounted);
    };
    sent = λ m before after task msg todo q act room k. record {
      bounded = bounds.sent m before after task msg todo q act room k.bounded;
      accounted = accounts.sent m before after task msg todo q act room k.accounted;
      progress = k.progress;
    };
    joined_ok = λ m before after task r q idle le k. record {
      bounded = bounds.joined_ok m before after task r q idle le k.bounded;
      accounted = accounts.joined_ok m before after task r q idle le k.accounted;
      progress = k.progress;
    };
    finished = λ m order id rest q same k. record {
      bounded = bounds.finished m order id rest q same k.bounded;
      accounted = accounts.finished m order id rest q same k.accounted;
      progress = inr (all_settled m order id rest q same k.bounded);
    };
    requested = λ m id rest q k. record {
      bounded = bounds.requested m id rest q k.bounded;
      accounted = accounts.requested m id rest q k.accounted;
      progress = inl (
          request-keeps config workflow begin launch-busy id
            (record m { messages = rest; reachable = id ∷ m.reachable })
            (request-Accounted config workflow begin ends m id rest q k.accounted).1);
    };
  }
    where
      all_settled :
          (m : Main) (order : List Text) (id : Text) (rest : List FinishedInfo)
          → m.messages ≡ node id ∷ rest
          → ((x : Text) → In x order ↔ In x m.reachable)
          → Bounded config workflow m
          → Quiet workflow (
              spawn_ready config workflow begin order
                (record m { messages = rest; total_finished = m.total_finished + 1 }))
      all_settled m order id rest q same b x i =
          let m' : Main = record m { messages = rest; total_finished = m.total_finished + 1 } in
          spawn_ready-Settled order m' x
            (same_bounds m rest (omega (arith, b.few_messages, ap (length {0}) q)) b)
            ((same x).1 (subst (λ z. In x z) (spawn_ready-reachable order m') i))

  before_loop-Kept :
      (input : Json) (entry : Workflow.Step)
      → In entry workflow.steps
      → Kept (before_loop config workflow begin input entry)
  before_loop-Kept input entry i = record {
    bounded =
        before_loop-Bounded config workflow begin input entry (some_step workflow.steps i enough) i;
    accounted = before_loop-Accounted config workflow begin ends input entry;
    progress = inl (omega arith);
  }
    where
      some_step : {n : ℕ} (steps : List Workflow.Step) → In entry steps → length steps ≤ n → 0 < n
      some_step [] j le = elim j [ ]
      some_step (s ∷ steps) j le = omega arith

  -- An execution that ends without an error ends with nothing left to do, if the configuration
  -- allows as many tasks as the workflow has steps: all tasks have been joined and all their
  -- messages received, and each node that was asked for has been started, or is no step of the
  -- workflow, or cannot run with what is completed by then. This is for tasks whose last act is the
  -- message that their node is finished, and for all orders in which they are served.
  pub Reach-complete :
      (input : Json) (m : Main)
      → Reach config workflow begin input (done m)
      → (m.tasks ≡ []) × (m.messages ≡ []) × Quiet workflow m
  Reach-complete input m reached =
      let (k, spawned, idle) =
        Reach-Holds config workflow begin Kept Kept-Keeps input
          (λ entry i. before_loop-Kept input entry i) reached in
      (
        idle,
        no_messages m k.accounted spawned,
        elim k.progress [ inl busy ↦ absurd (omega arith) | inr quiet ↦ quiet ],
      )

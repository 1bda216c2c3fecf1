-- ===== src/Executor/Loop/Bounds.antt =====
-- The bounds that an execution keeps to.
use konf.Shared.{
  ℕ, suc, ◌<◌, ◌≤◌, ◌≡◌, refl, sym, ap, subst, ◌++◌, List, [], ◌∷◌, length, length-append, arith,
  Text, map, member, In, here, there, In-map, Distinct, Distinct-length, Json,
}
use konf.Engine.{EngineConfig}
use konf.Workflow
use konf.Workflow.{Workflow}
use konf.Executor.Loop.{Task, Main, looping, before_loop, Reach}
use konf.Executor.Loop.Rule.{Keeps, Launches, spawn_ready-keeps, request-keeps, Reach-Holds}

abbrev pub ids : Workflow → List Text
ids workflow = map (λ (s : Workflow.Step). s.id) workflow.steps

pub record Bounded (config : EngineConfig) (workflow : Workflow) (m : Main) : Type 0 where
  pub few_tasks : length m.tasks ≤ config.max_concurrent_nodes
  pub few_messages : length m.messages ≤ config.finished_channel_size
  pub few_steps : m.steps_count ≤ config.max_steps
  pub tasks_spawned : length m.tasks ≤ m.total_spawned
  pub spawned_once : m.total_spawned ≡ length m.executed
  pub distinct : Distinct m.executed
  pub known : (id : Text) → In id m.executed → In id (ids workflow)

length-replace :
    (before after : List Task) (task task' : Task)
    → length (before ++ task ∷ after) ≡ length (before ++ task' ∷ after)
length-replace before after task task' =
    omega (arith, length-append before (task ∷ after), length-append before (task' ∷ after))

length-leave :
    (before after : List Task) (task : Task)
    → length (before ++ task ∷ after) ≡ suc (length (before ++ after))
length-leave before after task =
    omega (arith, length-append before (task ∷ after), length-append before after)

pub length-ids :
    (steps : List Workflow.Step) → length (map (λ (s : Workflow.Step). s.id) steps) ≡ length steps
length-ids [] = refl
length-ids (s ∷ steps) = omega (arith, length-ids steps)

module _ (config : EngineConfig) (workflow : Workflow) (begin : ℕ → Workflow.Step → Task) where
  abbrev Fine : Main → Type 0
  Fine = Bounded config workflow

  pub launch-Bounded : Launches config workflow begin Fine
  launch-Bounded m s l b = record {
    few_tasks = omega (arith, l.room, length-append m.tasks (begin m.total_spawned s ∷ []));
    few_messages = b.few_messages;
    few_steps = b.few_steps;
    tasks_spawned =
        omega (arith, b.tasks_spawned, length-append m.tasks (begin m.total_spawned s ∷ []));
    spawned_once = omega (arith, b.spawned_once);
    distinct = (l.fresh, b.distinct);
    known = λ id i. elim i [
      | here q ↦
          subst (λ z. In z (ids workflow)) (sym q)
            (In-map (λ (x : Workflow.Step). x.id) workflow.steps l.known)
      | there j ↦ b.known id j
    ];
  }

  same_counts :
      (m m' : Main)
      → length m'.tasks ≤ length m.tasks
      → length m'.messages ≤ config.finished_channel_size
      → m'.steps_count ≤ config.max_steps
      → m'.executed ≡ m.executed
      → m'.total_spawned ≡ m.total_spawned
      → Fine m
      → Fine m'
  same_counts m m' tasks messages steps same spawned b = record {
    few_tasks = omega (arith, b.few_tasks);
    few_messages = messages;
    few_steps = steps;
    tasks_spawned = omega (arith, b.tasks_spawned);
    spawned_once = omega (arith, b.spawned_once, ap (length {0}) same);
    distinct = subst Distinct (sym same) b.distinct;
    known = subst (λ z. (id : Text) → In id z → In id (ids workflow)) (sym same) b.known;
  }

  replaced :
      (m : Main) (before after : List Task) (task task' : Task)
      → m.tasks ≡ before ++ task ∷ after
      → length (before ++ task' ∷ after) ≤ length m.tasks
  replaced m before after task task' q =
      omega (arith, ap (length {0}) q, length-replace before after task task')

  pub Bounded-Keeps : Keeps config workflow begin Fine
  Bounded-Keeps = record {
    written = λ m before after task f todo q act b.
        same_counts m _ (replaced m before after task (record task { todo = todo }) q)
          b.few_messages b.few_steps refl refl b;
    sent = λ m before after task msg todo q act room b.
        same_counts m _ (replaced m before after task (record task { todo = todo }) q)
          (omega (arith, length-append m.messages (msg ∷ []))) b.few_steps refl refl b;
    joined_ok = λ m before after task r q idle le b.
        same_counts m _ (omega (arith, ap (length {0}) q, length-leave before after task))
          b.few_messages le refl refl b;
    finished = λ m order id rest q same b.
        spawn_ready-keeps config workflow begin launch-Bounded order _ (
          same_counts m _ (omega arith) (omega (arith, b.few_messages, ap (length {0}) q))
            b.few_steps refl refl b);
    requested = λ m id rest q b. request-keeps config workflow begin launch-Bounded id _ (
        same_counts m _ (omega arith) (omega (arith, b.few_messages, ap (length {0}) q)) b.few_steps
          refl refl b);
  }

  pub before_loop-Bounded :
      (input : Json) (entry : Workflow.Step)
      → 0 < config.max_concurrent_nodes
      → In entry workflow.steps
      → Fine (before_loop config workflow begin input entry)
  unfolding member
  before_loop-Bounded input entry some_room i = record {
    few_tasks = omega arith;
    few_messages = omega arith;
    few_steps = omega arith;
    tasks_spawned = omega arith;
    spawned_once = refl;
    distinct = (refl, tt);
    known = λ id j. elim j [
      | here q ↦
          subst (λ z. In z (ids workflow)) (sym q)
            (In-map (λ (x : Workflow.Step). x.id) workflow.steps i)
      | there k ↦ elim k [ ]
    ];
  }

  -- Where the configuration allows one task at least, all through an execution, whatever its tasks
  -- do and in whatever order they are served, no more tasks are running than it allows, no more
  -- messages are waiting than their channel holds, the steps
  -- that were counted stay within its limit, and the loop starts no node twice and none that is
  -- not a step of the workflow.
  pub Reach-Bounded :
      (input : Json) (m : Main)
      → 0 < config.max_concurrent_nodes
      → Reach config workflow begin input (looping m)
      → Bounded config workflow m
  Reach-Bounded input m some_room reached =
      Reach-Holds config workflow begin Fine Bounded-Keeps input
        (λ entry i. before_loop-Bounded input entry some_room i) reached

  pub executed-le : (m : Main) → Fine m → length m.executed ≤ length workflow.steps
  executed-le m b = omega (
    arith,
    length-ids workflow.steps,
    Distinct-length m.executed (ids workflow) b.distinct b.known,
  )

-- ===== src/Executor/Loop/Todo.antt =====
-- What the running tasks still have to do, and the messages that are on their way.
use konf.Shared.{
  ℕ, suc, ◌+◌, ◌<◌, ◌≤◌, ◌≡◌, sym, ap, subst, ◌++◌, List, [], ◌∷◌, arith, map, Text, In, here,
  there, In-append, In-append_inv, inl, inr,
}
use konf.Executor.Node.{FinishedInfo, node, spawn_next}
use konf.Executor.Node.Messages.{ClosesWith}
use konf.Executor.Loop.{Action, write, send, Task, Main}

-- What a running task has to do: it writes and asks for steps, and the last thing that it does is
-- to say that its node is finished.
abbrev pub Ends : List Action → Type 0
Ends [] = ⊥
Ends (write f ∷ todo) = Ends todo
Ends (send (spawn_next id) ∷ todo) = Ends todo
Ends (send (node id) ∷ todo) = todo ≡ []

-- The messages that `run_node` leaves are of this kind.
pub sends-Ends : (id : Text) (ms : List FinishedInfo) → ClosesWith id ms → Ends (map send ms)
sends-Ends id [] h = h
sends-Ends id (node x ∷ ms) h = ap (map send) h.1
sends-Ends id (spawn_next x ∷ ms) h = sends-Ends id ms h

-- The rest of it, which may be nothing.
abbrev pub Rest : List Action → Type 0
Rest [] = Unit {0}
Rest (a ∷ todo) = Ends (a ∷ todo)

-- How many nodes are still to be called finished.
unfoldable pub nodes_todo : List Action → ℕ
nodes_todo [] = 0
nodes_todo (write f ∷ todo) = nodes_todo todo
nodes_todo (send (spawn_next id) ∷ todo) = nodes_todo todo
nodes_todo (send (node id) ∷ todo) = suc (nodes_todo todo)

unfoldable pub nodes_tasks : List Task → ℕ
nodes_tasks [] = 0
nodes_tasks (t ∷ ts) = nodes_todo t.todo + nodes_tasks ts

unfoldable pub nodes_sent : List FinishedInfo → ℕ
nodes_sent [] = 0
nodes_sent (node id ∷ ms) = suc (nodes_sent ms)
nodes_sent (spawn_next id ∷ ms) = nodes_sent ms

abbrev pub AllRest : List Task → Type 0
AllRest ts = (t : Task) → In t ts → Rest t.todo

-- Behind each request that has been sent, a node is still to be called finished: by a message
-- behind it, or by one of the `k` that the tasks will send.
abbrev pub Trailing : List FinishedInfo → ℕ → Type 0
Trailing [] k = Unit {0}
Trailing (node id ∷ ms) k = Trailing ms k
Trailing (spawn_next id ∷ ms) k = (0 < nodes_sent ms + k) × Trailing ms k

pub record Accounted (m : Main) : Type 0 where
  pub counted : m.total_finished + nodes_sent m.messages + nodes_tasks m.tasks ≡ m.total_spawned
  pub resting : AllRest m.tasks
  pub trailing : Trailing m.messages (nodes_tasks m.tasks)

pub Ends→Rest : (todo : List Action) → Ends todo → Rest todo
Ends→Rest [] e = tt
Ends→Rest (a ∷ todo) e = e

pub Ends-nodes : (todo : List Action) → Ends todo → nodes_todo todo ≡ 1
unfolding nodes_todo
Ends-nodes [] e = absurd e
Ends-nodes (write f ∷ todo) e = Ends-nodes todo e
Ends-nodes (send (spawn_next id) ∷ todo) e = Ends-nodes todo e
Ends-nodes (send (node id) ∷ todo) e = omega (arith, ap nodes_todo e)

pub nodes_tasks-append :
    (ts us : List Task) → nodes_tasks (ts ++ us) ≡ nodes_tasks ts + nodes_tasks us
unfolding nodes_tasks
nodes_tasks-append [] us = omega arith
nodes_tasks-append (t ∷ ts) us = omega (arith, nodes_tasks-append ts us)

pub nodes_sent-append :
    (ms ns : List FinishedInfo) → nodes_sent (ms ++ ns) ≡ nodes_sent ms + nodes_sent ns
unfolding nodes_sent
nodes_sent-append [] ns = omega arith
nodes_sent-append (node id ∷ ms) ns = omega (arith, nodes_sent-append ms ns)
nodes_sent-append (spawn_next id ∷ ms) ns = nodes_sent-append ms ns

pub nodes_tasks-middle :
    (before after : List Task) (task : Task)
    → nodes_tasks (before ++ task ∷ after)
      ≡ nodes_tasks before + nodes_todo task.todo + nodes_tasks after
unfolding nodes_tasks
nodes_tasks-middle before after task = omega (arith, nodes_tasks-append before (task ∷ after))

pub Trailing-le : (ms : List FinishedInfo) (k k' : ℕ) → k ≤ k' → Trailing ms k → Trailing ms k'
Trailing-le [] k k' le t = tt
Trailing-le (node id ∷ ms) k k' le t = Trailing-le ms k k' le t
Trailing-le (spawn_next id ∷ ms) k k' le (some_node, t) = (omega arith, Trailing-le ms k k' le t)

-- A request that is sent by a task with its last message still to come.
pub Trailing-request :
    (ms : List FinishedInfo) (id : Text) (k : ℕ)
    → 0 < k
    → Trailing ms k
    → Trailing (ms ++ spawn_next id ∷ []) k
Trailing-request [] id k pos t = (omega arith, tt)
Trailing-request (node x ∷ ms) id k pos t = Trailing-request ms id k pos t
Trailing-request (spawn_next x ∷ ms) id k pos (some_node, t) =
    (omega arith, Trailing-request ms id k pos t)

pub Trailing-node :
    (ms : List FinishedInfo) (id : Text) (k : ℕ)
    → Trailing ms (suc k)
    → Trailing (ms ++ node id ∷ []) k
unfolding nodes_sent
Trailing-node [] id k t = tt
Trailing-node (node x ∷ ms) id k t = Trailing-node ms id k t
Trailing-node (spawn_next x ∷ ms) id k (some_node, t) =
    (omega (arith, nodes_sent-append ms (node id ∷ [])), Trailing-node ms id k t)

pub AllRest-replace :
    (before after : List Task) (task task' : Task)
    → AllRest (before ++ task ∷ after)
    → Rest task'.todo
    → AllRest (before ++ task' ∷ after)
AllRest-replace before after task task' all rest t i =
    elim (In-append_inv before (task' ∷ after) i) [
      | inl j ↦ all t (In-append before (task ∷ after) (inl j))
      | inr (here q) ↦ subst (λ (z : Task). Rest z.todo) (sym q) rest
      | inr (there j) ↦ all t (In-append before (task ∷ after) (inr (there j)))
    ]

pub AllRest-leave :
    (before after : List Task) (task : Task)
    → AllRest (before ++ task ∷ after)
    → AllRest (before ++ after)
AllRest-leave before after task all t i = elim (In-append_inv before after i) [
  | inl j ↦ all t (In-append before (task ∷ after) (inl j))
  | inr j ↦ all t (In-append before (task ∷ after) (inr (there j)))
]

pub AllRest-append :
    (ts : List Task) (task : Task) → AllRest ts → Rest task.todo → AllRest (ts ++ task ∷ [])
AllRest-append ts task all rest t i = elim (In-append_inv ts (task ∷ []) i) [
  | inl j ↦ all t j
  | inr (here q) ↦ subst (λ (z : Task). Rest z.todo) (sym q) rest
  | inr (there j) ↦ elim j [ ]
]

-- ===== src/Validator.antt =====
-- crates/konflux-substrate/src/parser/validator.rs: the checks on a parsed workflow. The depth
-- first search takes its path as an argument, the last step first: the code pushes the step before
-- the calls for its successors and pops it after them. The search takes fuel.
pub mod Acyclicity
pub mod Failure
pub mod Reached
pub mod Total
pub mod Tools
pub mod Nodes
pub mod Sound
mod Tests
use konf.Shared.{
  ℕ, zero, suc, ◌+◌, Bool, true, false, not, ◌&&◌, Option, none, some, List, [], ◌∷◌, ◌++◌, map,
  if◌then◌else◌, Text, text, text_eq, strip_suffix, starts_with, starts_with_then, any, length,
  onto, member, for_each, Table, lookup, Result, ok, err, ◌>>◌,
}
use konf.Capability.{star, colon_star}
use konf.Schema.{
  WorkflowSchema, NodeSchema, DoBlock, single, parallel, ParallelTaskConfig, PipeStepSchema, simple,
  with_map, full, ThenBlock, ThenBranchSchema, unconditional, multiple, conditional, CatchBlock,
  CatchBranchSchema, catch_all, branches,
}

pub data ValidationError : Type 0 where
  cycle_detected : List Text → ValidationError
  orphaned_node : Text → ValidationError
  unknown_node unknown_tool : Text → Text → ValidationError
  missing_capability : Text → ValidationError
  no_entry_node no_return_node : ValidationError

abbrev pub Checked : Type 0
Checked = Result (Unit {0}) ValidationError

abbrev pub keys : Table NodeSchema → List Text
keys nodes = map (λ (e : Text × NodeSchema). e.0) nodes

-- The closure of `check_tool`: whether the declared capability `cap` allows the tool.
unfoldable pub allows : Text → Text → Bool
allows tool cap = if text_eq cap star then true else elim (strip_suffix cap colon_star) [
  | some prefix ↦ starts_with_then tool prefix b':'
  | none ↦ text_eq cap tool
]

check_declared : List Text → Text → Checked
check_declared [] tool = ok tt
check_declared (c ∷ cs) tool =
    if any (allows tool) (c ∷ cs) then ok tt else err (missing_capability tool)

unfoldable pub check_tool : WorkflowSchema → Text → Checked
unfolding check_declared
check_tool schema tool = check_declared schema.capabilities tool

abbrev tool_of : Text × ParallelTaskConfig → Text
tool_of (name, task) = task.tool

-- The tools of a task map, in its order.
abbrev pub task_tools : Table ParallelTaskConfig → List Text
task_tools tasks = map tool_of tasks

unfoldable pub check_do : WorkflowSchema → Option DoBlock → Checked
check_do schema none = ok tt
check_do schema (some (single tool)) = check_tool schema tool
check_do schema (some (parallel tasks)) =
    for_each (λ (m : Table ParallelTaskConfig). for_each (check_tool schema) (task_tools m)) tasks

unfoldable pub check_pipe_step : WorkflowSchema → PipeStepSchema → Checked
check_pipe_step schema (simple tool) = check_tool schema tool
check_pipe_step schema (with_map []) = ok tt
check_pipe_step schema (with_map ((tool, args) ∷ more)) = check_tool schema tool
check_pipe_step schema (full tool args) = check_tool schema tool

-- The target must name a node; `from` is the node that names it.
unfoldable pub check_target : WorkflowSchema → Text → Text → Checked
check_target schema from target =
    if member target (keys schema.nodes) then ok tt else err (unknown_node target from)

-- `branch.then.as_ref().or(branch.goto.as_ref())`
abbrev pub branch_target : ThenBranchSchema → Option Text
branch_target branch = elim branch.then_step [ none ↦ branch.goto | some t ↦ some t ]

abbrev pub check_some : (Text → Checked) → Option Text → Checked
check_some check none = ok tt
check_some check (some t) = check t

unfoldable pub check_then : WorkflowSchema → Text → Option ThenBlock → Checked
check_then schema name none = ok tt
check_then schema name (some (unconditional target)) = check_target schema name target
check_then schema name (some (multiple targets)) = for_each (check_target schema name) targets
check_then schema name (some (conditional bs)) =
    for_each (λ (b : ThenBranchSchema). check_some (check_target schema name) (branch_target b)) bs

abbrev pub is_tool_action : Text → Bool
is_tool_action t =
    not (text_eq t (text "skip"))
    && (not (text_eq t (text "continue")) && not (starts_with t (text "fallback:")))

abbrev pub check_action : WorkflowSchema → Text → Checked
check_action schema t = if is_tool_action t then check_tool schema t else ok tt

unfoldable pub check_branch : WorkflowSchema → Text → CatchBranchSchema → Checked
check_branch schema name branch =
    check_some (check_target schema name) branch.then_step
    >> check_some (check_action schema) branch.do_tool

unfoldable pub check_catch : WorkflowSchema → Text → CatchBlock → Checked
check_catch schema name (catch_all target) = check_target schema name target
check_catch schema name (branches bs) = for_each (check_branch schema name) bs

unfoldable pub validate_node : WorkflowSchema → Text → NodeSchema → Checked
validate_node schema name node = do
  check_do schema node.do_block
  for_each (check_pipe_step schema) node.pipe
  check_then schema name node.then_block
  check_catch schema name node.catch

abbrev pub given : Option Text → List Text
given none = []
given (some t) = t ∷ []

abbrev pub some_of : List (Option Text) → List Text
some_of [] = []
some_of (t ∷ ts) = given t ++ some_of ts

-- The targets that the search follows, in its order.
unfoldable pub then_targets : Option ThenBlock → List Text
then_targets none = []
then_targets (some (unconditional target)) = target ∷ []
then_targets (some (multiple targets)) = targets
then_targets (some (conditional bs)) = some_of (map branch_target bs)

unfoldable pub catch_targets : CatchBlock → List Text
catch_targets (catch_all target) = target ∷ []
catch_targets (branches bs) = some_of (map (λ (b : CatchBranchSchema). b.then_step) bs)

unfoldable pub targets_of : NodeSchema → List Text
targets_of node = then_targets node.then_block ++ catch_targets node.catch

unfoldable pub successors : Table NodeSchema → Text → List Text
successors nodes current = elim (lookup current nodes) [ none ↦ [] | some node ↦ targets_of node ]

-- The sets that the search fills.
pub record Search : Type 0 where
  pub visited : List Text
  pub reachable : List Text

pub data Outcome : Type 0 where
  done : Search → Outcome
  failed : ValidationError → Outcome
  out_of_fuel : Outcome

abbrev pub then_search : Outcome → (Search → Outcome) → Outcome
then_search (done s) next = next s
then_search (failed e) next = failed e
then_search out_of_fuel next = out_of_fuel

-- The calls for the successors, one after the other.
unfoldable pub visit_all : (Text → Search → Outcome) → List Text → Search → Outcome
visit_all visit [] s = done s
visit_all visit (t ∷ ts) s = then_search (visit t s) (visit_all visit ts)

abbrev pub reach : Text → Search → Search
reach t s = record s { reachable = t ∷ s.reachable }

abbrev pub enter : Text → Search → Search
enter t s = record { visited = t ∷ s.visited; reachable = t ∷ s.reachable }

unfoldable pub dfs : ℕ → Table NodeSchema → List Text → Text → Search → Outcome
dfs zero nodes path current s = out_of_fuel
dfs (suc fuel) nodes path current s =
    let deeper =
      visit_all (dfs fuel nodes (current ∷ path)) (successors nodes current) (enter current s) in
    if member current path
    then failed (cycle_detected (onto path (current ∷ [])))
    else if member current s.visited
    then done (reach current s)
    else deeper

abbrev pub start : Search
start = record { visited = []; reachable = [] }

abbrev pub dfs_fuel : Table NodeSchema → ℕ
dfs_fuel nodes = length nodes + 1

unfoldable pub check_reached : List Text → List Text → Checked
check_reached reachable [] = ok tt
check_reached reachable (name ∷ names) =
    let rest = check_reached reachable names in
    if member name reachable then rest else err (orphaned_node name)

abbrev pub check_outcome : List Text → Outcome → Checked
check_outcome names (done s) = check_reached s.reachable names
check_outcome names (failed e) = err e
check_outcome names out_of_fuel = err no_entry_node

unfoldable pub check_reachability_and_cycles : Table NodeSchema → Text → Checked
check_reachability_and_cycles nodes entry =
    check_outcome (keys nodes) (dfs (dfs_fuel nodes) nodes [] entry start)

abbrev pub has_return : Text × NodeSchema → Bool
has_return (name, node) = elim node.return_value [ none ↦ false | some _ ↦ true ]

unfoldable pub check_terminals : Table NodeSchema → Checked
check_terminals nodes = if any has_return nodes then ok tt else err no_return_node

-- `Validator::validate`, on a workflow whose first node is `entry`.
unfoldable pub validate_from : WorkflowSchema → Text → Checked
validate_from schema entry = do
  for_each (λ (e : Text × NodeSchema). validate_node schema e.0 e.1) schema.nodes
  check_reachability_and_cycles schema.nodes entry
  check_terminals schema.nodes

validate_nodes : WorkflowSchema → Table NodeSchema → Checked
validate_nodes schema [] = err no_entry_node
validate_nodes schema ((entry, node) ∷ nodes) = validate_from schema entry

unfoldable pub validate : WorkflowSchema → Checked
unfolding validate_nodes
validate schema = validate_nodes schema schema.nodes

-- ===== src/Validator/Tools.antt =====
-- The tools and targets of the parts of a node, and the loops of `Validator::validate_node` over them.
use konf.Shared.{
  ◌≡◌, refl, sym, ap, ◌∙◌, inl, inr, ◌⊎◌, Bool, Option, none, some, ◌&&◌, List, [], ◌∷◌, ◌++◌,
  if◌then◌else◌, Bool-cases, Text, In, for_each, is_ok-then, for_each-append, Table, is_ok, ok, err,
  ◌>>◌,
}
use konf.Capability.{matches, new}
use konf.Capability.Covers.{Covers}
use konf.Schema.{
  WorkflowSchema, NodeSchema, DoBlock, single, parallel, ParallelTaskConfig, PipeStepSchema, simple,
  with_map, full, CatchBlock, CatchBranchSchema, catch_all, branches,
}
use konf.Validator.{
  allows, check_tool, task_tools, check_do, check_pipe_step, check_target, check_some,
  is_tool_action, check_action, given, Checked,
}

-- The validator's reading of a capability is the substrate's.
pub allows-eq-matches : (tool cap : Text) → allows tool cap ≡ matches (new cap) tool
unfolding allows matches
allows-eq-matches tool cap = refl

-- The workflow declares no capability, or one that covers the tool.
abbrev pub Allowed : WorkflowSchema → Text → Type 0
Allowed schema tool =
    (schema.capabilities ≡ []) ⊎ ((c : Text) × In c schema.capabilities × Covers c tool)

-- The tools that a node calls.
abbrev tools_of_tasks : List (Table ParallelTaskConfig) → List Text
tools_of_tasks [] = []
tools_of_tasks (m ∷ ms) = task_tools m ++ tools_of_tasks ms

abbrev pub do_tools : Option DoBlock → List Text
do_tools none = []
do_tools (some (single tool)) = tool ∷ []
do_tools (some (parallel tasks)) = tools_of_tasks tasks

abbrev step_tools : PipeStepSchema → List Text
step_tools (simple tool) = tool ∷ []
step_tools (with_map []) = []
step_tools (with_map ((tool, args) ∷ more)) = tool ∷ []
step_tools (full tool args) = tool ∷ []

abbrev pub pipe_tools : List PipeStepSchema → List Text
pipe_tools [] = []
pipe_tools (p ∷ ps) = step_tools p ++ pipe_tools ps

abbrev pub action_tools : Option Text → List Text
action_tools none = []
action_tools (some t) = if is_tool_action t then t ∷ [] else []

abbrev pub branch_tools : List CatchBranchSchema → List Text
branch_tools [] = []
branch_tools (b ∷ bs) = action_tools b.do_tool ++ branch_tools bs

abbrev pub catch_tools : CatchBlock → List Text
catch_tools (catch_all target) = []
catch_tools (branches bs) = branch_tools bs

abbrev pub tools_of : NodeSchema → List Text
tools_of node = do_tools node.do_block ++ (pipe_tools node.pipe ++ catch_tools node.catch)

abbrev pub tools_ok : WorkflowSchema → List Text → Bool
tools_ok schema ts = is_ok (for_each (check_tool schema) ts)

abbrev pub targets_ok : WorkflowSchema → Text → List Text → Bool
targets_ok schema name ts = is_ok (for_each (check_target schema name) ts)

pub tools_ok-append :
    (schema : WorkflowSchema) (xs ys : List Text)
    → tools_ok schema (xs ++ ys) ≡ (tools_ok schema xs && tools_ok schema ys)
tools_ok-append schema xs ys =
    ap is_ok (for_each-append (check_tool schema) xs ys)
    ∙ is_ok-then (for_each (check_tool schema) xs) (for_each (check_tool schema) ys)

pub targets_ok-append :
    (schema : WorkflowSchema) (name : Text) (xs ys : List Text)
    → targets_ok schema name (xs ++ ys) ≡ (targets_ok schema name xs && targets_ok schema name ys)
targets_ok-append schema name xs ys =
    ap is_ok (for_each-append (check_target schema name) xs ys)
    ∙ is_ok-then (for_each (check_target schema name) xs) (for_each (check_target schema name) ys)

check_tasks-tools_ok :
    (schema : WorkflowSchema) (ms : List (Table ParallelTaskConfig))
    → is_ok (
        for_each (λ (m : Table ParallelTaskConfig). for_each (check_tool schema) (task_tools m)) ms)
      ≡ tools_ok schema (tools_of_tasks ms)
unfolding for_each
check_tasks-tools_ok schema [] = refl
check_tasks-tools_ok schema (m ∷ ms) =
    is_ok-then (for_each (check_tool schema) (task_tools m))
      (for_each (λ (k : Table ParallelTaskConfig). for_each (check_tool schema) (task_tools k)) ms)
    ∙ ap (λ b. tools_ok schema (task_tools m) && b) (check_tasks-tools_ok schema ms)
    ∙ sym (tools_ok-append schema (task_tools m) (tools_of_tasks ms))

tools_ok-single :
    (schema : WorkflowSchema) (t : Text) → is_ok (check_tool schema t) ≡ tools_ok schema (t ∷ [])
unfolding for_each
tools_ok-single schema t = is_ok-one (check_tool schema t)
  where
    is_ok-one : (m : Checked) → is_ok m ≡ is_ok (m >> ok tt)
    is_ok-one (ok u) = refl
    is_ok-one (err e) = refl

pub targets_ok-single :
    (schema : WorkflowSchema) (name t : Text)
    → is_ok (check_target schema name t) ≡ targets_ok schema name (t ∷ [])
unfolding for_each
targets_ok-single schema name t = is_ok-one (check_target schema name t)
  where
    is_ok-one : (m : Checked) → is_ok m ≡ is_ok (m >> ok tt)
    is_ok-one (ok u) = refl
    is_ok-one (err e) = refl

pub check_do-tools_ok :
    (schema : WorkflowSchema) (b : Option DoBlock)
    → is_ok (check_do schema b) ≡ tools_ok schema (do_tools b)
unfolding check_do for_each
check_do-tools_ok schema none = refl
check_do-tools_ok schema (some (single t)) = tools_ok-single schema t
check_do-tools_ok schema (some (parallel ms)) = check_tasks-tools_ok schema ms

check_step-tools_ok :
    (schema : WorkflowSchema) (p : PipeStepSchema)
    → is_ok (check_pipe_step schema p) ≡ tools_ok schema (step_tools p)
unfolding check_pipe_step for_each
check_step-tools_ok schema (simple t) = tools_ok-single schema t
check_step-tools_ok schema (with_map []) = refl
check_step-tools_ok schema (with_map ((t, args) ∷ more)) = tools_ok-single schema t
check_step-tools_ok schema (full t args) = tools_ok-single schema t

pub check_pipe-tools_ok :
    (schema : WorkflowSchema) (ps : List PipeStepSchema)
    → is_ok (for_each (check_pipe_step schema) ps) ≡ tools_ok schema (pipe_tools ps)
unfolding for_each
check_pipe-tools_ok schema [] = refl
check_pipe-tools_ok schema (p ∷ ps) =
    is_ok-then (check_pipe_step schema p) (for_each (check_pipe_step schema) ps)
    ∙ ap (λ b. is_ok (check_pipe_step schema p) && b) (check_pipe-tools_ok schema ps)
    ∙ ap (λ b. b && tools_ok schema (pipe_tools ps)) (check_step-tools_ok schema p)
    ∙ sym (tools_ok-append schema (step_tools p) (pipe_tools ps))

pub given-targets_ok :
    (schema : WorkflowSchema) (name : Text) (o : Option Text)
    → is_ok (check_some (check_target schema name) o) ≡ targets_ok schema name (given o)
unfolding for_each
given-targets_ok schema name none = refl
given-targets_ok schema name (some t) = targets_ok-single schema name t

pub action-tools_ok :
    (schema : WorkflowSchema) (o : Option Text)
    → is_ok (check_some (check_action schema) o) ≡ tools_ok schema (action_tools o)
unfolding for_each
action-tools_ok schema none = refl
action-tools_ok schema (some t) = elim (Bool-cases (is_tool_action t)) [
  | inl e ↦ rw e (tools_ok-single schema t)
  | inr e ↦ rw e
]

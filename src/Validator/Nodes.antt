-- ===== src/Validator/Nodes.antt =====
-- `Validator::validate_node`: what is checked of each node.
use konf.Shared.{
  ◌≡◌, refl, sym, ap, ◌∙◌, ◌↔◌, inl, inr, ◌⊎◌, Bool, true, false, ◌&&◌, Option, none, some, List,
  [], ◌∷◌, ◌++◌, map, arith, Text, In, any→In, In→any, member_iff, for_each, is_ok-then,
  is_ok-for_each, is_ok_iff, is_ok, ok, ◌>>◌,
}
use konf.Capability.{matches}
use konf.Capability.Covers.{Covers, matches-iff-Covers}
use konf.Schema.{
  WorkflowSchema, NodeSchema, ThenBlock, ThenBranchSchema, unconditional, multiple, conditional,
  CatchBlock, CatchBranchSchema, catch_all, branches,
}
use konf.Validator.{
  keys, allows, check_declared, check_tool, check_do, check_pipe_step, check_target, branch_target,
  check_some, check_then, check_action, check_branch, check_catch, validate_node, given, some_of,
  then_targets, catch_targets, targets_of,
}
use konf.Validator.Tools.{
  Allowed, tools_of, do_tools, pipe_tools, action_tools, branch_tools, catch_tools, tools_ok,
  targets_ok, tools_ok-append, targets_ok-append, targets_ok-single, check_do-tools_ok,
  check_pipe-tools_ok, given-targets_ok, action-tools_ok,
}

check_branches-targets_ok :
    (schema : WorkflowSchema) (name : Text) (bs : List ThenBranchSchema)
    → is_ok (
        for_each
          (λ (b : ThenBranchSchema). check_some (check_target schema name) (branch_target b))
          bs)
      ≡ targets_ok schema name (some_of (map branch_target bs))
unfolding for_each
check_branches-targets_ok schema name [] = refl
check_branches-targets_ok schema name (b ∷ bs) =
    is_ok-then (check_some (check_target schema name) (branch_target b)) (
      for_each (λ (c : ThenBranchSchema). check_some (check_target schema name) (branch_target c))
        bs)
    ∙ ap (λ x. is_ok (check_some (check_target schema name) (branch_target b)) && x)
        (check_branches-targets_ok schema name bs)
    ∙ ap (λ x. x && targets_ok schema name (some_of (map branch_target bs)))
        (given-targets_ok schema name (branch_target b))
    ∙ sym (targets_ok-append schema name (given (branch_target b)) (some_of (map branch_target bs)))

check_then-targets_ok :
    (schema : WorkflowSchema) (name : Text) (b : Option ThenBlock)
    → is_ok (check_then schema name b) ≡ targets_ok schema name (then_targets b)
unfolding check_then then_targets for_each
check_then-targets_ok schema name none = refl
check_then-targets_ok schema name (some (unconditional t)) = targets_ok-single schema name t
check_then-targets_ok schema name (some (multiple ts)) = refl
check_then-targets_ok schema name (some (conditional bs)) = check_branches-targets_ok schema name bs

abbrev then_step_of : CatchBranchSchema → Option Text
then_step_of b = b.then_step

-- The checks of the catch branches alternate between a target and a tool.
check_catches-ok :
    (schema : WorkflowSchema) (name : Text) (bs : List CatchBranchSchema)
    → is_ok (for_each (check_branch schema name) bs) ≡ (
        targets_ok schema name (some_of (map then_step_of bs)) && tools_ok schema (branch_tools bs))
unfolding for_each check_branch
check_catches-ok schema name [] = refl
check_catches-ok schema name (b ∷ bs) = ground (
  arith,
  is_ok-then (check_branch schema name b) (for_each (check_branch schema name) bs),
  is_ok-then (check_some (check_target schema name) b.then_step)
      (check_some (check_action schema) b.do_tool),
  check_catches-ok schema name bs,
  given-targets_ok schema name b.then_step,
  action-tools_ok schema b.do_tool,
  targets_ok-append schema name (given b.then_step) (some_of (map then_step_of bs)),
  tools_ok-append schema (action_tools b.do_tool) (branch_tools bs),
)

check_catch-ok :
    (schema : WorkflowSchema) (name : Text) (c : CatchBlock)
    → is_ok (check_catch schema name c)
      ≡ (targets_ok schema name (catch_targets c) && tools_ok schema (catch_tools c))
unfolding check_catch catch_targets for_each
check_catch-ok schema name (catch_all t) =
    targets_ok-single schema name t ∙ and_true (targets_ok schema name (t ∷ []))
  where
    and_true : (b : Bool) → b ≡ (b && true)
    and_true true = refl
    and_true false = refl
check_catch-ok schema name (branches bs) = check_catches-ok schema name bs

validate_node-ok :
    (schema : WorkflowSchema) (name : Text) (node : NodeSchema)
    → is_ok (validate_node schema name node)
      ≡ (tools_ok schema (tools_of node) && targets_ok schema name (targets_of node))
unfolding validate_node targets_of
validate_node-ok schema name node = ground (
  arith,
  is_ok-then (check_do schema node.do_block) (
      for_each (check_pipe_step schema) node.pipe
      >> (check_then schema name node.then_block >> check_catch schema name node.catch)),
  is_ok-then (for_each (check_pipe_step schema) node.pipe)
      (check_then schema name node.then_block >> check_catch schema name node.catch),
  is_ok-then (check_then schema name node.then_block) (check_catch schema name node.catch),
  check_do-tools_ok schema node.do_block,
  check_pipe-tools_ok schema node.pipe,
  check_then-targets_ok schema name node.then_block,
  check_catch-ok schema name node.catch,
  tools_ok-append schema (do_tools node.do_block) (pipe_tools node.pipe ++ catch_tools node.catch),
  tools_ok-append schema (pipe_tools node.pipe) (catch_tools node.catch),
  targets_ok-append schema name (then_targets node.then_block) (catch_targets node.catch),
)

declared→Allowed :
    (cs : List Text) (t : Text)
    → is_ok (check_declared cs t) ≡ true
    → (cs ≡ []) ⊎ ((c : Text) × In c cs × Covers c t)
unfolding check_declared allows matches
declared→Allowed [] t h = inl refl
declared→Allowed (c ∷ cs) t h =
    let (d, i, m) = any→In (allows t) (c ∷ cs) (ground arith) in
    inr (d, i, (matches-iff-Covers d t).0 m)

Covers→declared :
    (cs : List Text) (t c : Text) → In c cs → Covers c t → is_ok (check_declared cs t) ≡ true
unfolding check_declared allows matches
Covers→declared [] t c i v = elim i [ ]
Covers→declared (d ∷ cs) t c i v =
    let hit = In→any (allows t) (d ∷ cs) i ((matches-iff-Covers c t).1 v) in rw hit

check_tool-iff-Allowed :
    (schema : WorkflowSchema) (t : Text) → (is_ok (check_tool schema t) ≡ true) ↔ Allowed schema t
unfolding check_tool check_declared
check_tool-iff-Allowed schema t = (declared→Allowed schema.capabilities t, back)
  where
    back : Allowed schema t → is_ok (check_tool schema t) ≡ true
    back (inl e) = rw e
    back (inr (c, i, v)) = Covers→declared schema.capabilities t c i v

check_target-iff-In :
    (schema : WorkflowSchema) (name t : Text)
    → (is_ok (check_target schema name t) ≡ true) ↔ In t (keys schema.nodes)
unfolding check_target
check_target-iff-In schema name t = (
  λ h. (member_iff t (keys schema.nodes)).0 (ground arith),
  λ i. rw ((member_iff t (keys schema.nodes)).1 i),
)

-- What a valid node is: its tools are allowed, and its targets are nodes of the workflow.
abbrev pub NodeValid : WorkflowSchema → NodeSchema → Type 0
NodeValid schema node =
    ((t : Text) → In t (tools_of node) → Allowed schema t)
    × ((t : Text) → In t (targets_of node) → In t (keys schema.nodes))

-- A node is accepted exactly if every tool that its do block, its pipe and its catch branches call
-- is covered by a capability that the workflow declares, or it declares none, and every target of
-- its then and catch blocks is a node of the workflow.
pub validate_node-iff-NodeValid :
    (schema : WorkflowSchema) (name : Text) (node : NodeSchema)
    → (validate_node schema name node ≡ ok tt) ↔ NodeValid schema node
validate_node-iff-NodeValid schema name node = (
  λ h.
      let both = validate_node-ok schema name node in
      let yes = (is_ok_iff (validate_node schema name node)).1 h in
      (
        λ t i.
            (check_tool-iff-Allowed schema t).0
              ((is_ok-for_each (check_tool schema) (tools_of node)).0 (ground arith) t i),
        λ t i.
            (check_target-iff-In schema name t).0
              ((is_ok-for_each (check_target schema name) (targets_of node)).0 (ground arith) t i),
      ),
  λ (f, g). (is_ok_iff (validate_node schema name node)).0 (
      ground (
        arith,
        validate_node-ok schema name node,
        (is_ok-for_each (check_tool schema) (tools_of node)).1
            (λ t i. (check_tool-iff-Allowed schema t).1 (f t i)),
        (is_ok-for_each (check_target schema name) (targets_of node)).1
            (λ t i. (check_target-iff-In schema name t).1 (g t i)),
      )),
)

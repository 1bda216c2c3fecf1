-- ===== src/Validator/Tests.antt =====
-- Validation of small workflows, and the theorems about it at concrete inputs.
use konf.Shared.{
  ◌≡◌, refl, ◌↔◌, ◌⊎◌, true, false, is_ok, none, some, [], ◌∷◌, Text, text, string, Table, ok,
  member, onto, lookup, for_each, text_eq, strip_suffix, starts_with_then, starts_with, char_is,
}
use konf.Schema.{
  WorkflowSchema, NodeSchema, single, unconditional, multiple, ThenBlock, branches, unset,
}
use konf.Validator.{
  validate, validate_node, validate_from, check_do, check_tool, allows, check_pipe_step, check_then,
  check_catch, check_branch, check_target, check_reachability_and_cycles, check_reached,
  check_terminals, dfs, dfs_fuel, visit_all, successors, targets_of, then_targets, catch_targets,
  cycle_detected, Search, start, done, failed, ValidationError,
}
use konf.Validator.Total.{dfs_fuel-enough}
use konf.Validator.Sound.{WellFormed, validate-iff-WellFormed}

abbrev node : ThenBlock → NodeSchema
node targets = record {
  do_block = some (single (text "memory:search"));
  with_args = none;
  pipe = [];
  then_block = some targets;
  catch = branches [];
  retry = none;
  timeout = none;
  entry = none;
  repeat = none;
  stream = unset;
  return_value = none;
  join = none;
  credentials = [];
  grant = none;
}

abbrev last : NodeSchema
last = record (node (multiple [])) { return_value = some (string (text "ok")) }

abbrev workflow_of : Table NodeSchema → WorkflowSchema
workflow_of nodes = record {
  workflow = text "demo";
  version = text "0.1.0";
  description = none;
  capabilities = text "memory:*" ∷ [];
  input_schema = none;
  output_schema = none;
  register_as_tool = false;
  nodes = nodes;
}

-- A diamond: the step d is reached on two ways.
abbrev diamond : Table NodeSchema
diamond =
    (text "a", node (multiple (text "b" ∷ text "c" ∷ [])))
    ∷ (text "b", node (unconditional (text "d")))
    ∷ (text "c", node (unconditional (text "d")))
    ∷ (text "d", last)
    ∷ []

-- The step b leads back to a.
abbrev loop : Table NodeSchema
loop =
    (text "a", node (unconditional (text "b"))) ∷ (text "b", node (unconditional (text "a"))) ∷ []

diamond_accepted : validate (workflow_of diamond) ≡ ok tt
unfolding validate validate_from validate_node check_do check_tool allows check_pipe_step check_then
    check_catch check_branch check_target check_reachability_and_cycles check_reached
    check_terminals dfs visit_all successors targets_of then_targets catch_targets member onto
    lookup for_each text_eq strip_suffix starts_with_then starts_with char_is
diamond_accepted = refl

-- The second node says that it is the entry; it cannot be reached from the first.
abbrev marked : Table NodeSchema
marked =
    (text "d", last)
    ∷ (text "a", record (node (unconditional (text "d"))) { entry = some true })
    ∷ []

marked_refused : is_ok (validate (workflow_of marked)) ≡ false
unfolding validate validate_from validate_node check_do check_tool allows check_pipe_step check_then
    check_catch check_branch check_target check_reachability_and_cycles check_reached
    check_terminals dfs visit_all successors targets_of then_targets catch_targets member onto
    lookup for_each text_eq strip_suffix starts_with_then starts_with char_is
marked_refused = refl

loop_refused :
    dfs (dfs_fuel loop) loop [] (text "a") start
    ≡ failed (cycle_detected (text "a" ∷ text "b" ∷ text "a" ∷ []))
unfolding dfs visit_all successors targets_of then_targets catch_targets member onto lookup text_eq
loop_refused = refl

validate-iff-WellFormed_example : (validate (workflow_of diamond) ≡ ok tt) ↔ (
    (entry : Text) × (first : NodeSchema) × (more : Table NodeSchema) × (diamond
      ≡ (entry, first) ∷ more)
    × WellFormed (workflow_of diamond) entry)
validate-iff-WellFormed_example = validate-iff-WellFormed (workflow_of diamond)

dfs_fuel-enough_example :
    ((s : Search) × (dfs (dfs_fuel loop) loop [] (text "a") start ≡ done s))
    ⊎ ((e : ValidationError) × (dfs (dfs_fuel loop) loop [] (text "a") start ≡ failed e))
dfs_fuel-enough_example = dfs_fuel-enough loop (text "a")

-- ===== src/Validator/Sound.antt =====
-- About `validate` as a whole.
use konf.Shared.{
  ◌≡◌, refl, sym, ap, ◌∙◌, subst, ◌↔◌, inl, inr, true, ◌&&◌, List, [], ◌∷◌, arith, Text, In, here,
  there, any→In, In→any, member_iff, for_each, is_ok-then, is_ok-for_each, is_ok_iff, is_ok, ok,
  ◌>>◌, Table,
}
use konf.Schema.{WorkflowSchema, NodeSchema}
use konf.Validator.{
  keys, start, dfs_fuel, check_reached, check_outcome, check_reachability_and_cycles, has_return,
  check_terminals, validate_node, validate_from, validate_nodes, validate, Checked,
}
use konf.Validator.Acyclicity.{Reaches, Cyclic, dfs-Acyclic, Acyclic→no_Cyclic}
use konf.Validator.Failure.{dfs-cycle_detected}
use konf.Validator.Reached.{dfs-reachable}
use konf.Validator.Total.{dfs_fuel-enough}
use konf.Validator.Nodes.{NodeValid, validate_node-iff-NodeValid}

check_reached→In :
    (reachable names : List Text)
    → check_reached reachable names ≡ ok tt
    → (n : Text) → In n names
    → In n reachable
unfolding check_reached
check_reached→In reachable [] h n i = elim i [ ]
check_reached→In reachable (x ∷ names) h n (here e) =
    subst (λ z. In z reachable) (sym e) ((member_iff x reachable).0 (ground arith))
check_reached→In reachable (x ∷ names) h n (there i) =
    check_reached→In reachable names (ground arith) n i

In→check_reached :
    (reachable names : List Text)
    → ((n : Text) → In n names → In n reachable)
    → check_reached reachable names ≡ ok tt
unfolding check_reached
In→check_reached reachable [] g = refl
In→check_reached reachable (x ∷ names) g =
    rw ((member_iff x reachable).1 (g x (here refl)))
      (In→check_reached reachable names (λ n i. g n (there i)))

-- No step that the entry reaches lies on a cycle.
abbrev pub NoCycles : Table NodeSchema → Text → Type 0
NoCycles nodes entry = (x : Text) → Reaches nodes entry x → Cyclic nodes x → ⊥

-- The entry reaches every node.
abbrev pub AllReached : Table NodeSchema → Text → Type 0
AllReached nodes entry = (n : Text) → In n (keys nodes) → Reaches nodes entry n

graph→ok :
    (nodes : Table NodeSchema) (entry : Text)
    → NoCycles nodes entry
    → AllReached nodes entry
    → check_reachability_and_cycles nodes entry ≡ ok tt
unfolding check_reachability_and_cycles
graph→ok nodes entry none_on all = elim (dfs_fuel-enough nodes entry) [
  | inl (s, h) ↦
      ap (check_outcome (keys nodes)) h
      ∙ In→check_reached s.reachable (keys nodes)
          (λ n i. (dfs-reachable (dfs_fuel nodes) nodes entry s h n).1 (all n i))
  | inr (e, h) ↦
      let (x, r, c, path, q, i) = dfs-cycle_detected (dfs_fuel nodes) nodes entry start e h in
      absurd (none_on x r c)
]

ok→graph :
    (nodes : Table NodeSchema) (entry : Text)
    → check_reachability_and_cycles nodes entry ≡ ok tt
    → NoCycles nodes entry × AllReached nodes entry
unfolding check_reachability_and_cycles
ok→graph nodes entry k = elim (dfs_fuel-enough nodes entry) [
  | inl (s, h) ↦ (
    λ x r c. Acyclic→no_Cyclic (dfs-Acyclic (dfs_fuel nodes) nodes entry s h) r c,
    λ n i. (dfs-reachable (dfs_fuel nodes) nodes entry s h n).0 (
        check_reached→In s.reachable (keys nodes) (sym (ap (check_outcome (keys nodes)) h) ∙ k) n
          i),
  )
  | inr (e, h) ↦ absurd (cc (ap (check_outcome (keys nodes)) h, k))
]

-- The search accepts a graph exactly if no cycle can be reached from the entry and every node can.
pub check_reachability_and_cycles_iff :
    (nodes : Table NodeSchema) (entry : Text)
    → (check_reachability_and_cycles nodes entry ≡ ok tt)
      ↔ (NoCycles nodes entry × AllReached nodes entry)
check_reachability_and_cycles_iff nodes entry =
    (ok→graph nodes entry, λ (c, r). graph→ok nodes entry c r)

-- What an accepted workflow is, from its entry: its nodes are valid, every node can be reached from
-- the entry, no cycle can, and some node returns. The field `entry` of a node is not read.
abbrev pub WellFormed : WorkflowSchema → Text → Type 0
WellFormed schema entry =
    ((e : Text × NodeSchema) → In e schema.nodes → NodeValid schema e.1)
    × (NoCycles schema.nodes entry × AllReached schema.nodes entry)
    × ((e : Text × NodeSchema) × In e schema.nodes × (has_return e ≡ true))

check_terminals_iff :
    (nodes : Table NodeSchema)
    → (is_ok (check_terminals nodes) ≡ true)
      ↔ ((e : Text × NodeSchema) × In e nodes × (has_return e ≡ true))
unfolding check_terminals
check_terminals_iff nodes =
    (λ h. any→In has_return nodes (ground arith), λ (e, i, r). rw (In→any has_return nodes i r))

validate_from-iff-WellFormed :
    (schema : WorkflowSchema) (entry : Text)
    → (validate_from schema entry ≡ ok tt) ↔ WellFormed schema entry
unfolding validate_from
validate_from-iff-WellFormed schema entry = (forth, back)
  where
    each : Text × NodeSchema → Checked
    each e = validate_node schema e.0 e.1

    parts : is_ok (validate_from schema entry) ≡ (
        is_ok (for_each each schema.nodes)
        && (is_ok (check_reachability_and_cycles schema.nodes entry)
            && is_ok (check_terminals schema.nodes)))
    parts = ground (
      arith,
      is_ok-then (for_each each schema.nodes)
          (check_reachability_and_cycles schema.nodes entry >> check_terminals schema.nodes),
      is_ok-then (check_reachability_and_cycles schema.nodes entry) (check_terminals schema.nodes),
    )

    forth : validate_from schema entry ≡ ok tt → WellFormed schema entry
    forth h =
        let yes = (is_ok_iff (validate_from schema entry)).1 h in
        (
          λ e i. (validate_node-iff-NodeValid schema e.0 e.1).0 (
              (is_ok_iff (each e)).0
                ((is_ok-for_each each schema.nodes).0 (ground (arith, parts)) e i)),
          ok→graph schema.nodes entry (
              (is_ok_iff (check_reachability_and_cycles schema.nodes entry)).0
                (ground (arith, parts))),
          (check_terminals_iff schema.nodes).0 (ground (arith, parts)),
        )

    back : WellFormed schema entry → validate_from schema entry ≡ ok tt
    back (nodes_valid, graph, returns) = (is_ok_iff (validate_from schema entry)).0 (
        ground (
          arith,
          parts,
          (is_ok-for_each each schema.nodes).1 (λ e i.
              (is_ok_iff (each e)).1
                ((validate_node-iff-NodeValid schema e.0 e.1).1 (nodes_valid e i))),
          (is_ok_iff (check_reachability_and_cycles schema.nodes entry)).1
              (graph→ok schema.nodes entry graph.0 graph.1),
          (check_terminals_iff schema.nodes).1 returns,
        ))

-- A workflow is accepted exactly if it has a first node and, with that node as the entry, is well
-- formed: every node's tools are allowed and its targets are nodes, no cycle can be reached from the
-- entry, every node can be, and some node returns. The first node is the entry also where another
-- node says `entry: true`.
pub validate-iff-WellFormed :
    (schema : WorkflowSchema)
    → (validate schema ≡ ok tt) ↔ (
        (entry : Text) × (first : NodeSchema) × (more : Table NodeSchema) × (schema.nodes
          ≡ (entry, first) ∷ more)
        × WellFormed schema entry)
unfolding validate
validate-iff-WellFormed schema = (forth schema.nodes refl, back)
  where
    forth :
        (nodes : Table NodeSchema)
        → schema.nodes ≡ nodes
        → validate_nodes schema nodes ≡ ok tt
        → (entry : Text) × (first : NodeSchema) × (more : Table NodeSchema) × (schema.nodes
            ≡ (entry, first) ∷ more)
          × WellFormed schema entry
    forth [] e h = absurd (cc h)
    forth ((entry, first) ∷ more) e h =
        (entry, first, more, e, (validate_from-iff-WellFormed schema entry).0 h)

    back :
        ((entry : Text) × (first : NodeSchema) × (more : Table NodeSchema) × (schema.nodes
            ≡ (entry, first) ∷ more)
          × WellFormed schema entry)
        → validate schema ≡ ok tt
    back (entry, first, more, e, w) =
        ap (validate_nodes schema) e ∙ (validate_from-iff-WellFormed schema entry).1 w

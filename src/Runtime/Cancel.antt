-- ===== src/Runtime/Cancel.antt =====
-- `Runtime::cancel`: which runs it reaches.
use konf.Shared.{
  ℕ, zero, suc, ◌≡◌, refl, ap, ◌∙◌, true, false, Option, none, some, List, [], ◌∷◌, Bool-cases, inl,
  inr, ok,
}
use konf.Process.{WorkflowRun, ProcessTable, get, update, children_of, is_running}
use konf.Process.Parents.{
  NoParents, NoParents-insert, NoParents-update, NoParents-gc, children_of-nil,
}
use konf.Runtime.{
  Runtime, Start, entry_of, enter, RunResult, output, failure, ended, counted, duration_of, finish,
  with_token, cancel_children, cancel_found, cancel, collect,
}
use konf.Runtime.Steps.{
  System, Op, begins, enters, finishes, cancels, collects, take_out, entered, step, run,
}

-- Without parents a cancellation of a running run marks that run, and nothing else.
cancel-marks :
    (fuel id : ℕ) (r : WorkflowRun) (table : ProcessTable)
    → NoParents table
    → get id table ≡ some r
    → is_running r.status ≡ true
    → cancel (suc fuel) id table ≡ (ok tt, update id with_token table)
unfolding cancel cancel_children
cancel-marks fuel id r table n g live =
    ap (λ (o : Option WorkflowRun). cancel_found (cancel fuel) id o table) g ∙ found
  where
    childless : children_of id (update id with_token table) ≡ []
    childless =
        children_of-nil id (update id with_token table)
          (NoParents-update id with_token table (λ q. refl) n)

    found : cancel_found (cancel fuel) id (some r) table ≡ (ok tt, update id with_token table)
    found = rw (live, childless)

NoParents-cancel :
    (fuel id : ℕ) (table : ProcessTable) → NoParents table → NoParents (cancel fuel id table).1
unfolding cancel cancel_children
NoParents-cancel zero id table n = n
NoParents-cancel (suc fuel) id table n = found (get id table)
  where
    childless : children_of id (update id with_token table) ≡ []
    childless =
        children_of-nil id (update id with_token table)
          (NoParents-update id with_token table (λ q. refl) n)

    found : (o : Option WorkflowRun) → NoParents (cancel_found (cancel fuel) id o table).1
    found none = n
    found (some r) = elim (Bool-cases (is_running r.status)) [
      | inl e ↦ rw (e, childless) (NoParents-update id with_token table (λ q. refl) n)
      | inr e ↦ rw e n
    ]

NoParents-counted :
    (result : RunResult) (self : Runtime)
    → NoParents self.table
    → NoParents (counted result self).table
NoParents-counted (output v) self n = n
NoParents-counted (failure true e) self n = n
NoParents-counted (failure false e) self n = n

step-NoParents :
    (op : Op) (sys : System) → NoParents sys.runtime.table → NoParents (step op sys).runtime.table
unfolding step enter finish collect
step-NoParents (begins s) sys n = n
step-NoParents (enters i) sys n = inserted (take_out i sys.entering)
  where
    inserted : (o : Option (Start × List Start)) → NoParents (entered o sys).runtime.table
    inserted none = n
    inserted (some (s, others)) = NoParents-insert (entry_of s) sys.runtime.table refl n
step-NoParents (finishes id now result) sys n =
    let self = sys.runtime in
    let end = ended now (duration_of id now self) result in
    NoParents-counted result (record self { table = update id end self.table })
      (NoParents-update id end self.table (λ q. refl) n)
step-NoParents (cancels fuel id) sys n = NoParents-cancel fuel id sys.runtime.table n
step-NoParents (collects cutoff) sys n = NoParents-gc cutoff sys.runtime.table n

run-NoParents :
    (ops : List Op) (sys : System)
    → NoParents sys.runtime.table
    → NoParents (run ops sys).runtime.table
unfolding run
run-NoParents [] sys n = n
run-NoParents (op ∷ ops) sys n = run-NoParents ops (step op sys) (step-NoParents op sys n)

-- Whatever was started before, a cancellation of a running run marks that run and nothing else: no
-- run has a parent, so there are no children that it could be passed on to.
pub cancel-run :
    (ops : List Op) (sys : System) (fuel id : ℕ) (r : WorkflowRun)
    → NoParents sys.runtime.table
    → get id (run ops sys).runtime.table ≡ some r
    → is_running r.status ≡ true
    → cancel (suc fuel) id (run ops sys).runtime.table
      ≡ (ok tt, update id with_token (run ops sys).runtime.table)
cancel-run ops sys fuel id r n g live =
    cancel-marks fuel id r (run ops sys).runtime.table (run-NoParents ops sys n) g live

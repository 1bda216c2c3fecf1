-- ===== src/Runtime/Counts.antt =====
-- The running runs of a namespace when a run ends or is cancelled.
use konf.Shared.{
  ℕ, zero, suc, ◌≤◌, ◌≡◌, refl, ap, inl, inr, Bool, true, false, ◌&&◌, Option, none, some, [], ◌∷◌,
  arith, Text, starts_with, Result, Bool-cases,
}
use konf.Process.{WorkflowRun, ProcessTable, get, update, children_of, is_running, is_terminal}
use konf.Process.Count.{count, count-update}
use konf.Scope.{RuntimeError}
use konf.Runtime.{
  Runtime, RunResult, output, failure, ended, counted, duration_of, finish, with_token,
  cancel_children, cancel_found, cancel,
}

-- The runs that count against the namespace.
abbrev pub active_in : Text → WorkflowRun → Bool
active_in ns r = is_running r.status && starts_with r.namespace ns

count-cancel_children :
    (p : WorkflowRun → Bool)
    (each : ℕ → ProcessTable → Result (Unit {0}) RuntimeError × ProcessTable)
    → ((id : ℕ) (t : ProcessTable) → count p (each id t).1 ≤ count p t)
    → (children table : ProcessTable)
    → count p (cancel_children each children table) ≤ count p table
unfolding cancel_children
count-cancel_children p each less [] table = omega arith
count-cancel_children p each less (c ∷ children) table = elim (Bool-cases (is_terminal c.status)) [
  | inl e ↦ rw e (count-cancel_children p each less children table)
  | inr e ↦ rw e (
      omega
        (arith, count-cancel_children p each less children (each c.id table).1, less c.id table))
]

count-cancel_found :
    (ns : Text) (each : ℕ → ProcessTable → Result (Unit {0}) RuntimeError × ProcessTable)
    → ((id : ℕ) (t : ProcessTable) → count (active_in ns) (each id t).1 ≤ count (active_in ns) t)
    → (id : ℕ) (o : Option WorkflowRun) (table : ProcessTable)
    → count (active_in ns) (cancel_found each id o table).1 ≤ count (active_in ns) table
count-cancel_found ns each less id none table = omega arith
count-cancel_found ns each less id (some r) table = elim (Bool-cases (is_running r.status)) [
  | inl e ↦
      let marked = update id with_token table in
      rw e (
        omega (
          arith,
          count-cancel_children (active_in ns) each less (children_of id marked) marked,
          count-update (active_in ns) id with_token table (λ q h. h),
        ))
  | inr e ↦ rw e (omega arith)
]

pub count-cancel :
    (ns : Text) (fuel id : ℕ) (table : ProcessTable)
    → count (active_in ns) (cancel fuel id table).1 ≤ count (active_in ns) table
unfolding cancel
count-cancel ns zero id table = omega arith
count-cancel ns (suc fuel) id table =
    count-cancel_found ns (cancel fuel) (count-cancel ns fuel) id (get id table) table

-- A run that has ended does not count.
ended-inactive :
    (ns : Text) (now ms : ℕ) (result : RunResult) (r : WorkflowRun)
    → active_in ns (ended now ms result r) ≡ false
unfolding is_running
ended-inactive ns now ms (output v) r = refl
ended-inactive ns now ms (failure true e) r = refl
ended-inactive ns now ms (failure false e) r = refl

pub counted-table : (result : RunResult) (self : Runtime) → (counted result self).table ≡ self.table
counted-table (output v) self = refl
counted-table (failure true e) self = refl
counted-table (failure false e) self = refl

pub count-finish :
    (ns : Text) (id now : ℕ) (result : RunResult) (self : Runtime)
    → count (active_in ns) (finish id now result self).0.table ≤ count (active_in ns) self.table
unfolding finish
count-finish ns id now result self =
    let ms = duration_of id now self in
    omega (
      arith,
      ap (count (active_in ns)) (
          counted-table result
            (record self { table = update id (ended now ms result) self.table })),
      count-update (active_in ns) id (ended now ms result) self.table
          (λ r h. cc (ended-inactive ns now ms result r, h)),
    )

-- ===== src/Runtime/Finish.antt =====
-- The end of a run.
use konf.Shared.{
  ℕ, ◌+◌, ◌<◌, ◌^◌, ◌≡◌, refl, ap, ◌∙◌, true, false, Option, none, some, [], ◌∷◌, arith,
  if◌then◌else◌, ◌==◌,
}
use konf.Process.{WorkflowRun, ProcessTable, get, update, is_terminal}
use konf.Runtime.{
  Runtime, RunResult, output, failure, terminal_status, ended, counted, duration_of, finish,
}
use konf.Runtime.Counts.{counted-table}

abbrev pub mapped : (WorkflowRun → WorkflowRun) → Option WorkflowRun → Option WorkflowRun
mapped f none = none
mapped f (some r) = some (f r)

get-update :
    (k id : ℕ) (f : WorkflowRun → WorkflowRun) (table : ProcessTable)
    → ((r : WorkflowRun) → (f r).id ≡ r.id)
    → get id (update k f table) ≡ (if k == id then mapped f (get id table) else get id table)
unfolding get update
get-update k id f [] e = ground arith
get-update k id f (r ∷ table) e = ground (arith, e r, get-update k id f table e)

-- The runs that have ended, by the counters.
abbrev pub total : Runtime → ℕ
total self = self.total_completed + self.total_failed + self.total_cancelled

total-counted :
    (result : RunResult) (self : Runtime)
    → total self + 1 < 2 ^ 64
    → total (counted result self) ≡ total self + 1
total-counted (output v) self h = ground arith
total-counted (failure true e) self h = ground arith
total-counted (failure false e) self h = ground arith

terminal_status-is_terminal :
    (ms : ℕ) (result : RunResult) → is_terminal (terminal_status ms result) ≡ true
unfolding is_terminal
terminal_status-is_terminal ms (output v) = refl
terminal_status-is_terminal ms (failure true e) = refl
terminal_status-is_terminal ms (failure false e) = refl

-- The end of a run gives the run its time and a status that is terminal, leaves every other run as
-- it is, and counts in exactly one of the three counters, as long as they do not overflow.
pub finish-get :
    (k now : ℕ) (result : RunResult) (self : Runtime)
    → total self + 1 < 2 ^ 64
    → ((id : ℕ)
        → get id (finish k now result self).0.table ≡ (
            if k == id
            then mapped (ended now (duration_of k now self) result) (get id self.table)
            else get id self.table))
      × (is_terminal (terminal_status (duration_of k now self) result) ≡ true)
      × (total (finish k now result self).0 ≡ total self + 1)
unfolding finish
finish-get k now result self h =
    let ms = duration_of k now self in
    let updated : Runtime = record self { table = update k (ended now ms result) self.table } in
    (
      λ id.
          ap (get id) (counted-table result updated)
          ∙ get-update k id (ended now ms result) self.table (λ r. refl),
      terminal_status-is_terminal ms result,
      total-counted result updated h,
    )

-- ===== src/Runtime/Tests.antt =====
-- Runs of the runtime's operations, and the theorems about them.
use konf.Shared.{
  ◌+◌, ◌<◌, ◌≤◌, ℕ, ◌≡◌, refl, inl, some, none, List, [], ◌∷◌, arith, Text, text, string, ok,
  starts_with,
}
use konf.Process.{user_agent, get, insert, update, select, is_running, active_count_in_namespace}
use konf.Scope.{ExecutionScope, default_limits, grant, validate_start}
use konf.Runtime.{Runtime, Start, entry_of, enter, output, finish, with_token, cancel}
use konf.Runtime.Steps.{System, Op, begins, enters, finishes, take_out, step, run}
use konf.Runtime.Limit.{waiting, AllKeepTo, AtMost, run-limit}
use konf.Runtime.Cancel.{cancel-run}
use konf.Runtime.Finish.{total}

abbrev ns : Text
ns = text "konf:a"

abbrev scope : ExecutionScope
scope = record {
  namespace = ns;
  capabilities = grant (text "memory:*") ∷ [];
  limits = record default_limits { max_active_runs_per_namespace = 2 };
  actor = record { id = text "bot"; role = user_agent };
  depth = 0;
}

abbrev empty : Runtime
empty = record { table = []; total_completed = 0; total_failed = 0; total_cancelled = 0 }

abbrev call : ℕ → ℕ → Start
call id now = record { run_id = id; now = now; workflow_id = text "w"; scope = scope }

abbrev idle : System
idle = record { runtime = empty; entering = [] }

-- The third start is refused, the fourth finds room.
abbrev ops : List Op
ops =
    begins (call 1 10)
    ∷ enters 0
    ∷ begins (call 2 11)
    ∷ enters 0
    ∷ begins (call 3 12)
    ∷ enters 0
    ∷ finishes 1 20 (output (string (text "done")))
    ∷ begins (call 4 21)
    ∷ enters 0
    ∷ []

ops_keep : AllKeepTo ns 2 ops
ops_keep = (
  inl (refl, refl),
  (tt, (inl (refl, refl), (tt, (inl (refl, refl), (tt, (tt, (inl (refl, refl), (tt, tt)))))))),
)

ops_alone : AtMost ns 1 ops idle
unfolding step enter take_out validate_start active_count_in_namespace select is_running starts_with
    get insert update finish waiting
ops_alone = ground arith

third_refused : get 3 (run ops idle).runtime.table ≡ none
unfolding run step enter take_out validate_start active_count_in_namespace select is_running
    starts_with get insert update finish
third_refused = refl

fourth : get 4 (run ops idle).runtime.table ≡ some (entry_of (call 4 21))
unfolding run step enter take_out validate_start active_count_in_namespace select is_running
    starts_with get insert update finish
fourth = refl

none_active : active_count_in_namespace ns [] ≤ 2
unfolding active_count_in_namespace select
none_active = omega arith

run-limit_example : active_count_in_namespace ns (run ops idle).runtime.table < 2 + 1
run-limit_example = run-limit ns 2 1 ops idle ops_keep ops_alone (omega arith) refl none_active

-- Three starts that are checked before one of them enters the table exceed the limit of two.
overlapping_starts :
    active_count_in_namespace ns
      (run
        (begins (call 1 10)
          ∷ begins (call 2 10)
          ∷ begins (call 3 10)
          ∷ enters 0
          ∷ enters 0
          ∷ enters 0
          ∷ [])
        idle).runtime.table
    ≡ 3
unfolding run step enter take_out validate_start active_count_in_namespace select is_running
    starts_with get insert update finish
overlapping_starts = refl

cancel-run_example :
    cancel 1 4 (run ops idle).runtime.table
    ≡ (ok tt, update 4 with_token (run ops idle).runtime.table)
unfolding is_running
cancel-run_example = cancel-run ops idle 0 4 (entry_of (call 4 21)) tt fourth refl

one_ended : total (run ops idle).runtime ≡ 1
unfolding run step enter take_out validate_start active_count_in_namespace select is_running
    starts_with get insert update finish
one_ended = refl
